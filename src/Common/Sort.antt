-- ===== src/Common/Sort.antt =====
-- `Array.prototype.sort` with a comparator: the stable sort, by insertion. A comparator's number
-- is read by its sign, as an `Ordering`.
use Prim.Native.Nat.{ℕ, zero, suc, ◌+◌, Ordering}
use mathlib.Core.Path.{◌≡◌, refl}
use mathlib.Core.Logic.{◌≢◌, ◌⊎◌, inl, inr}
use mathlib.Core.List.Memᴰ
use mathlib.Core.List.{Memᴰ, List, [], ◌∷◌}
use native.Mathlib.Omega.{arith}
use aeo_geo_optimization.Common.Lists.{length, All, All-weaken, take, drop, All-drop}

module _ {ℓ} {A : Type ℓ} where
  pub insert : (A → A → Ordering) → A → List A → List A
  insert cmp x [] = x ∷ []
  insert cmp x (y ∷ ys) =
      let later = y ∷ insert cmp x ys in elim (cmp x y) [ Ordering.gt ↦ later | _ ↦ x ∷ y ∷ ys ]

  unfoldable pub sort : (A → A → Ordering) → List A → List A
  unfolding insert
  sort cmp [] = []
  sort cmp (x ∷ xs) = insert cmp x (sort cmp xs)

  length-insert :
      (cmp : A → A → Ordering) (x : A) (ys : List A) → length (insert cmp x ys) ≡ length ys + 1
  unfolding insert
  length-insert cmp x [] = omega arith
  length-insert cmp x (y ∷ ys) = ground (arith, length-insert cmp x ys)

  pub length-sort : (cmp : A → A → Ordering) (xs : List A) → length (sort cmp xs) ≡ length xs
  unfolding sort
  length-sort cmp [] = refl
  length-sort cmp (x ∷ xs) = ground (arith, length-insert cmp x (sort cmp xs), length-sort cmp xs)

  -- A sum over the list does not change by sorting it.
  abbrev pub total : (A → ℕ) → List A → ℕ
  total f [] = 0
  total f (x ∷ xs) = f x + total f xs

  total-insert :
      (cmp : A → A → Ordering) (f : A → ℕ) (x : A) (ys : List A)
      → total f (insert cmp x ys) ≡ f x + total f ys
  unfolding insert
  total-insert cmp f x [] = refl
  total-insert cmp f x (y ∷ ys) = ground (arith, total-insert cmp f x ys)

  pub total-sort :
      (cmp : A → A → Ordering) (f : A → ℕ) (xs : List A) → total f (sort cmp xs) ≡ total f xs
  unfolding sort
  total-sort cmp f [] = refl
  total-sort cmp f (x ∷ xs) =
      ground (arith, total-insert cmp f x (sort cmp xs), total-sort cmp f xs)

module _ {ℓ κ} {A : Type ℓ} (P : A → Type κ) where
  All-insert :
      (cmp : A → A → Ordering) (x : A) (ys : List A) → P x → All P ys → All P (insert cmp x ys)
  unfolding insert
  All-insert cmp x [] h _ = (h, tt)
  All-insert cmp x (y ∷ ys) h (k, ks) =
      elim (cmp x y)
        as (λ o. All P (elim o [ Ordering.gt ↦ y ∷ insert cmp x ys | _ ↦ x ∷ y ∷ ys ])) [
          | Ordering.gt ↦ (k, All-insert cmp x ys h ks)
          | Ordering.lt ↦ (h, (k, ks))
          | Ordering.eq ↦ (h, (k, ks))
        ]

  pub All-sort : (cmp : A → A → Ordering) (xs : List A) → All P xs → All P (sort cmp xs)
  unfolding sort
  All-sort cmp [] _ = tt
  All-sort cmp (x ∷ xs) (h, hs) = All-insert cmp x (sort cmp xs) h (All-sort cmp xs hs)

-- Every element stands before the later ones in the sense of `R`.
abbrev pub Pairs {ℓ κ} : {A : Type ℓ} → (A → A → Type κ) → List A → Type (ℓ ⊔ κ)
Pairs R [] = Unit
Pairs R (x ∷ xs) = All (R x) xs × Pairs R xs

-- The comparator decides a transitive relation.
pub record Decides {ℓ κ} {A : Type ℓ} (R : A → A → Type κ) (cmp : A → A → Ordering)
    : Type (ℓ ⊔ κ) where
  pub before : (x y : A) → cmp x y ≢ Ordering.gt → R x y
  pub after : (x y : A) → cmp x y ≡ Ordering.gt → R y x
  pub trans : (x y z : A) → R x y → R y z → R x z

insert_cases {ℓ} :
    {A : Type ℓ} (cmp : A → A → Ordering) (x y : A) (ys : List A)
    → ((cmp x y ≡ Ordering.gt) × (insert cmp x (y ∷ ys) ≡ y ∷ insert cmp x ys))
      ⊎ ((cmp x y ≢ Ordering.gt) × (insert cmp x (y ∷ ys) ≡ x ∷ y ∷ ys))
unfolding insert
insert_cases cmp x y ys = go (cmp x y) refl
  where
    go :
        (o : Ordering)
        → cmp x y ≡ o
        → ((cmp x y ≡ Ordering.gt) × (insert cmp x (y ∷ ys) ≡ y ∷ insert cmp x ys))
          ⊎ ((cmp x y ≢ Ordering.gt) × (insert cmp x (y ∷ ys) ≡ x ∷ y ∷ ys))
    go Ordering.gt e = inl (e, rw (e, insert))
    go Ordering.lt e = inr (λ h. cc, rw (e, insert))
    go Ordering.eq e = inr (λ h. cc, rw (e, insert))

module _ {ℓ κ} {A : Type ℓ} {R : A → A → Type κ} {cmp : A → A → Ordering} (d : Decides R cmp) where
  Pairs-insert : (x : A) (ys : List A) → Pairs R ys → Pairs R (insert cmp x ys)
  Pairs-insert x [] _ = unfold insert in (tt, tt)
  Pairs-insert x (y ∷ ys) (h, hs) = elim (insert_cases cmp x y ys) [
    | inl (later, e) ↦ rw e (All-insert (R y) cmp x ys (d.after x y later) h, Pairs-insert x ys hs)
    | inr (first, e) ↦
        let xy : R x y = d.before x y first in
        rw e ((xy, All-weaken (R y) (R x) ys (λ z. d.trans x y z xy) h), (h, hs))
  ]

  pub Pairs-sort : (xs : List A) → Pairs R (sort cmp xs)
  unfolding sort
  Pairs-sort [] = tt
  Pairs-sort (x ∷ xs) = Pairs-insert x (sort cmp xs) (Pairs-sort xs)

-- In a sorted list, what is taken stands before what is left.
pub Pairs-take {ℓ κ} :
    {A : Type ℓ} (R : A → A → Type κ) (n : ℕ) (xs : List A)
    → Pairs R xs
    → All (λ x. All (R x) (drop n xs)) (take n xs)
Pairs-take R zero xs _ = tt
Pairs-take R (suc n) [] _ = tt
Pairs-take R (suc n) (x ∷ xs) (h, hs) = (All-drop (R x) n xs h, Pairs-take R n xs hs)

mem-insert_self {ℓ} :
    {A : Type ℓ} (cmp : A → A → Ordering) (x : A) (ys : List A) → Memᴰ x (insert cmp x ys)
mem-insert_self cmp x [] = unfold insert in Memᴰ.head refl
mem-insert_self cmp x (y ∷ ys) = elim (insert_cases cmp x y ys) [
  | inl (_, e) ↦ rw e (Memᴰ.tail (mem-insert_self cmp x ys))
  | inr (_, e) ↦ rw e (Memᴰ.head refl)
]

mem-insert {ℓ} :
    {A : Type ℓ} (cmp : A → A → Ordering) (x : A) {z : A} (ys : List A)
    → Memᴰ z ys
    → Memᴰ z (insert cmp x ys)
mem-insert cmp x [] m = absurd (Memᴰ.not-nil m)
mem-insert cmp x (y ∷ ys) m = elim (insert_cases cmp x y ys) [
  | inl (_, e) ↦ rw e (elim (Memᴰ.cases_cons m) [
    | inl here ↦ Memᴰ.head here
    | inr later ↦ Memᴰ.tail (mem-insert cmp x ys later)
  ])
  | inr (_, e) ↦ rw e (Memᴰ.tail m)
]

pub mem-sort {ℓ} :
    {A : Type ℓ} (cmp : A → A → Ordering) {z : A} (xs : List A) → Memᴰ z xs → Memᴰ z (sort cmp xs)
unfolding sort
mem-sort cmp [] m = m
mem-sort cmp (x ∷ xs) (Memᴰ.head e) = rw e (mem-insert_self cmp x (sort cmp xs))
mem-sort cmp (x ∷ xs) (Memᴰ.tail m) = mem-insert cmp x (sort cmp xs) (mem-sort cmp xs m)
