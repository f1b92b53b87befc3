-- ===== src/Sampling/Rotation/Slices.antt =====
-- The slices of a list make it up again, and lose nothing.
use aeo_geo_optimization.Common.{
  length-take, All, All-take, All-drop, if◌then◌else◌, ◌||◌, true, false, ℕ, zero, suc, ◌+◌, ◌-◌,
  ◌*◌, ◌≤◌, ◌<◌, min, ◌≡◌, refl, ap, List, [], ◌∷◌, ◌++◌, arith, leb, ◌==◌, take, drop, length,
  length-drop, Bool-cases, false, inl, inr,
}
use Prim.Native.Nat.add
use mathlib.Core.List.Memᴰ
use mathlib.Core.List.{Memᴰ}
use aeo_geo_optimization.Sampling.Rotation.{ceil_div, pick_slice, slice}

-- The slices with the indices from `i` on, `m` of them, one after the other.
pub slices_from {ℓ} : {T : Type ℓ} → List T → ℕ → ℕ → ℕ → List T
slices_from items k zero i = []
slices_from items k (suc m) i = pick_slice items k i ++ slices_from items k m (i + 1)

drop-nil {ℓ} : (T : Type ℓ) (n : ℕ) → drop {A = T} n [] ≡ []
drop-nil T zero = refl
drop-nil T (suc n) = refl

take-nil {ℓ} : (T : Type ℓ) (n : ℕ) → take {A = T} n [] ≡ []
take-nil T zero = refl
take-nil T (suc n) = refl

module _ {ℓ} {T : Type ℓ} where
  take_eq : (n m : ℕ) (xs : List T) → min n (length xs) ≡ min m (length xs) → take n xs ≡ take m xs
  take_eq zero zero xs h = refl
  take_eq zero (suc m) [] h = refl
  take_eq zero (suc m) (x ∷ xs) h = absurd (omega arith)
  take_eq (suc n) zero [] h = refl
  take_eq (suc n) zero (x ∷ xs) h = absurd (omega arith)
  take_eq (suc n) (suc m) [] h = refl
  take_eq (suc n) (suc m) (x ∷ xs) h = ap (λ r. x ∷ r) (take_eq n m xs (omega arith))

  drop-drop : (n m : ℕ) (xs : List T) → drop n (drop m xs) ≡ drop (m + n) xs
  drop-drop n zero xs = ap (λ k. drop k xs) (omega arith)
  drop-drop zero (suc m) [] = rw (add.suc m 0)
  drop-drop (suc n) (suc m) [] = rw (add.suc m (suc n))
  drop-drop n (suc m) (x ∷ xs) = rw (add.suc m n) (drop-drop n m xs)

  take-append-take : (n m : ℕ) (xs : List T) → take n xs ++ take m (drop n xs) ≡ take (n + m) xs
  take-append-take zero m xs = ap (λ k. take k xs) (omega arith)
  take-append-take (suc n) zero [] = rw (add.suc n 0)
  take-append-take (suc n) (suc m) [] = rw (add.suc n (suc m))
  take-append-take (suc n) m (x ∷ xs) = rw (add.suc n m) (ap (λ r. x ∷ r) (take-append-take n m xs))

  -- A slice, with the clamping of its end to the length left out.
  pick_slice-eq-take :
      (items : List T) (k i : ℕ)
      → 1 < k
      → pick_slice items k i
        ≡ take (ceil_div (length items) k) (drop (i * ceil_div (length items) k) items)
  unfolding pick_slice
  pick_slice-eq-take [] k i h =
      let few : leb k 1 ≡ false = ground arith in rw (few, drop-nil, take-nil)
  pick_slice-eq-take (x ∷ xs) k i h =
      let items : List T = x ∷ xs in
      let size : ℕ = ceil_div (length items) k in
      let start : ℕ = i * size in
      let few : leb k 1 ≡ false = ground arith in
      let filled : (length items == 0) ≡ false = ground arith in
      rw (few, filled)
        (take_eq (min (start + size) (length items) - start) size (drop start items)
          (omega (arith, length-drop start items)))

  slices_from-eq-take :
      (items : List T) (k m i : ℕ)
      → 1 < k
      → slices_from items k m i
        ≡ take (m * ceil_div (length items) k) (drop (i * ceil_div (length items) k) items)
  unfolding slices_from
  slices_from-eq-take items k zero i h =
      let none_left : 0 * ceil_div (length items) k ≡ 0 = omega arith in rw none_left
  slices_from-eq-take items k (suc m) i h =
      let size : ℕ = ceil_div (length items) k in
      let next : (i + 1) * size ≡ i * size + size = omega arith in
      let sizes : suc m * size ≡ size + m * size = omega arith in
      rw
        (
          pick_slice-eq-take items k i h,
          slices_from-eq-take items k m (i + 1) h,
          next,
          sizes,
          ← drop-drop size (i * size) items,
        )
        (take-append-take size (m * size) (drop (i * size) items))

take_all {ℓ} : {T : Type ℓ} (n : ℕ) (xs : List T) → length xs ≤ n → take n xs ≡ xs
take_all {T} n [] h = take-nil T n
take_all zero (x ∷ xs) h = absurd (omega arith)
take_all (suc n) (x ∷ xs) h = ap (λ r. x ∷ r) (take_all n xs (omega arith))

ceil_div_covers : (n k : ℕ) → 0 < k → n ≤ k * ceil_div n k
ceil_div_covers n k h = grind arith

-- The slices 0, 1, ..., k - 1 of a list, one after the other, are the list: no question is lost
-- and none is asked twice in one rotation. (With one slice or none, slice 0 is the whole list.)
pub slices_partition {ℓ} :
    {T : Type ℓ} (items : List T) (k : ℕ) → 1 < k → slices_from items k k 0 ≡ items
slices_partition items k h =
    let start : 0 * ceil_div (length items) k ≡ 0 = omega arith in
    let whole : take (k * ceil_div (length items) k) items ≡ items =
      take_all _ items (ceil_div_covers (length items) k (omega arith)) in
    rw (slices_from-eq-take items k k 0 h, start) whole

mem-slices_from {ℓ} :
    {T : Type ℓ} (items : List T) (k m i : ℕ) {x : T}
    → Memᴰ x (slices_from items k m i)
    → (t : ℕ) × (t < i + m) × Memᴰ x (pick_slice items k t)
unfolding slices_from
mem-slices_from items k zero i h = absurd (Memᴰ.not-nil h)
mem-slices_from items k (suc m) i h = elim (Memᴰ.append_cases (pick_slice items k i) h) [
  | inl here ↦ (i, omega arith, here)
  | inr later ↦
      let (t, below, member) = mem-slices_from items k m (i + 1) later in (t, omega arith, member)
]

-- Each element of the list is in one of its slices.
pub mem-pick_slice {ℓ} :
    {T : Type ℓ} (items : List T) (k : ℕ) {x : T}
    → 0 < k
    → Memᴰ x items
    → (t : ℕ) × (t < k) × Memᴰ x (pick_slice items k t)
unfolding pick_slice
mem-pick_slice items k {x} h m = elim (Bool-cases (leb k 1)) [
  | inl one ↦ (0, h, rw one m)
  | inr more ↦
      let found =
        mem-slices_from items k k 0 {x = x} (rw (slices_partition items k (ground arith)) m) in
      (found.0, omega arith, found.2)
]

pub pick_slice-All {ℓ κ} :
    {T : Type ℓ} (P : T → Type κ) (items : List T) (k i : ℕ)
    → All P items
    → All P (pick_slice items k i)
unfolding pick_slice
pick_slice-All P items k i h =
    elim (leb k 1 || length items == 0)
      as (λ b. All P (
        if b
        then items
        else slice items (i * ceil_div (length items) k)
            (min (i * ceil_div (length items) k + ceil_div (length items) k) (length items)))) [
              | true ↦ h
              | false ↦ All-take P _ _ (All-drop P _ items h)
            ]

pub length-pick_slice {ℓ} :
    {T : Type ℓ} (items : List T) (k i : ℕ) → length (pick_slice items k i) ≤ length items
unfolding pick_slice
length-pick_slice items k i =
    let size : ℕ = ceil_div (length items) k in
    let start : ℕ = i * size in
    let n : ℕ = min (start + size) (length items) - start in
    let bound : length (take n (drop start items)) ≤ length items =
      omega (arith, length-take n (drop start items), length-drop start items) in
    elim (Bool-cases (leb k 1 || length items == 0)) [
      | inl whole ↦ rw whole (omega arith)
      | inr sliced ↦ rw sliced bound
    ]
