-- ===== src/Common/OrderedMap/Groups.antt =====
-- What holds of the groups that `group_from` makes.
use Prim.Native.Nat.{ℕ, ◌+◌}
use mathlib.Core.Path.{◌≡◌, refl, subst}
use mathlib.Core.Bool.{Bool, true}
use mathlib.Core.Logic.{inl, inr}
use mathlib.Core.List.{List, [], ◌∷◌, ◌++◌, Memᴰ}
use mathlib.Core.List.Memᴰ
use native.Mathlib.Omega.{arith}
use aeo_geo_optimization.Common.Tests.{Bool-cases}
use aeo_geo_optimization.Common.Lists.{All, All-append, length, length-append}
use aeo_geo_optimization.Common.OrderedMap.{push, group_from}

module _ {ℓ κ} {K : Type ℓ} {V : Type κ} (eq : K → K → Bool)
    (sound : (j k : K) → eq j k ≡ true → j ≡ k) where
  module _ {μ} (P : K → V → Type μ) where
    push-All :
        (k : K) (v : V) (m : List (K × List V))
        → P k v
        → All (λ g. All (P g.0) g.1) m
        → All (λ g. All (P g.0) g.1) (push eq k v m)
    unfolding push
    push-All k v [] h _ = ((h, tt), tt)
    push-All k v ((j, vs) ∷ m) h (hj, hm) = elim (Bool-cases (eq j k)) [
      | inl e ↦ rw e (All-append (P j) vs (v ∷ []) hj (rw (sound j k e) h, tt), hm)
      | inr e ↦ rw e (hj, push-All k v m h hm)
    ]

    -- What relates each value to its key relates each member of a group to the group's key.
    pub group_from-All :
        (key : V → K) (vs : List V) (m : List (K × List V))
        → All (λ v. P (key v) v) vs
        → All (λ g. All (P g.0) g.1) m
        → All (λ g. All (P g.0) g.1) (group_from eq key vs m)
    unfolding group_from
    group_from-All key [] m _ hm = hm
    group_from-All key (v ∷ vs) m (h, hs) hm =
        group_from-All key vs (push eq (key v) v m) hs (push-All (key v) v m h hm)

module _ {ℓ κ} {K : Type ℓ} {V : Type κ} (eq : K → K → Bool) where
  abbrev pub Grouped : V → List (K × List V) → Type (ℓ ⊔ κ)
  Grouped v m = (g : K × List V) × Memᴰ g m × Memᴰ v g.1

  Grouped-push_self : (k : K) (v : V) (m : List (K × List V)) → Grouped v (push eq k v m)
  unfolding push
  Grouped-push_self k v [] = ((k, v ∷ []), Memᴰ.head refl, Memᴰ.head refl)
  Grouped-push_self k v ((j, vs) ∷ m) =
      let (g, mg, mv) = Grouped-push_self k v m in
      elim (Bool-cases (eq j k)) [
        | inl e ↦ rw e ((j, vs ++ v ∷ []), Memᴰ.head refl, Memᴰ.append_right vs (Memᴰ.head refl))
        | inr e ↦ rw e (g, Memᴰ.tail mg, mv)
      ]

  Grouped-push : (k : K) (v w : V) (m : List (K × List V)) → Grouped w m → Grouped w (push eq k v m)
  unfolding push
  Grouped-push k v w [] (g, mg, mw) = absurd (Memᴰ.not-nil mg)
  Grouped-push k v w ((j, vs) ∷ m) (g, Memᴰ.head e, mw) = elim (Bool-cases (eq j k)) [
    | inl t ↦ rw t (
      (j, vs ++ v ∷ []),
      Memᴰ.head refl,
      Memᴰ.append_left (v ∷ []) (subst (λ x. Memᴰ w x.1) e mw),
    )
    | inr t ↦ rw t ((j, vs), Memᴰ.head refl, subst (λ x. Memᴰ w x.1) e mw)
  ]
  Grouped-push k v w ((j, vs) ∷ m) (g, Memᴰ.tail mg, mw) =
      let (g', mg', mw') = Grouped-push k v w m (g, mg, mw) in
      elim (Bool-cases (eq j k)) [
        | inl t ↦ rw t (g, Memᴰ.tail mg, mw)
        | inr t ↦ rw t (g', Memᴰ.tail mg', mw')
      ]

  -- No value is lost.
  Grouped-group_from :
      (key : V → K) (w : V) (vs : List V) (m : List (K × List V))
      → Grouped w m
      → Grouped w (group_from eq key vs m)
  unfolding group_from
  Grouped-group_from key w [] m h = h
  Grouped-group_from key w (v ∷ vs) m h =
      Grouped-group_from key w vs (push eq (key v) v m) (Grouped-push (key v) v w m h)

  pub group_from-Grouped :
      (key : V → K) (w : V) (vs : List V) (m : List (K × List V))
      → Memᴰ w vs
      → Grouped w (group_from eq key vs m)
  unfolding group_from
  group_from-Grouped key w [] m h = absurd (Memᴰ.not-nil h)
  group_from-Grouped key w (v ∷ vs) m (Memᴰ.head e) =
      Grouped-group_from key w vs (push eq (key v) v m) (rw e (Grouped-push_self (key v) v m))
  group_from-Grouped key w (v ∷ vs) m (Memᴰ.tail h) =
      group_from-Grouped key w vs (push eq (key v) v m) h

-- The number of values in all groups.
abbrev pub members {ℓ κ} : {K : Type ℓ} {V : Type κ} → List (K × List V) → ℕ
members [] = 0
members ((k, vs) ∷ m) = length vs + members m

module _ {ℓ κ} {K : Type ℓ} {V : Type κ} (eq : K → K → Bool) where
  members-push : (k : K) (v : V) (m : List (K × List V)) → members (push eq k v m) ≡ members m + 1
  unfolding push
  members-push k v [] = omega arith
  members-push k v ((j, vs) ∷ m) = ground (arith, members-push k v m, length-append vs (v ∷ []))

  pub members-group_from :
      (key : V → K) (vs : List V) (m : List (K × List V))
      → members (group_from eq key vs m) ≡ length vs + members m
  unfolding group_from
  members-group_from key [] m = omega arith
  members-group_from key (v ∷ vs) m =
      omega (arith, members-group_from key vs (push eq (key v) v m), members-push (key v) v m)
