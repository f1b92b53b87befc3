-- ===== src/Billing/Pricing/Bounds.antt =====
-- How prices compare: src/billing/pricing.ts.
use native.Mathlib.Nat.{mul-le-mul}
use aeo_geo_optimization.Common.{
  ℕ, ◌+◌, ◌*◌, ◌/◌, ◌≤◌, ◌<◌, min, max, ◌≡◌, false, ◌||◌, ◌==◌, arith, Bool-cases, inl, inr,
}
use aeo_geo_optimization.Billing.Pricing.{
  PriceScope, bucket_krw, depth_multiplier, scope_krw, price_for_scope,
}

bucket_krw_mono : (a b : ℕ) → a ≤ b → bucket_krw a ≤ bucket_krw b
bucket_krw_mono a b h = ground arith

rounded_mono :
    (x y : ℕ) → x ≤ y → (2 * x + 15_000) / 30_000 * 1000 ≤ (2 * y + 15_000) / 30_000 * 1000
rounded_mono x y h = omega arith

scope_krw_mono : (a b c d : ℕ) → a ≤ b → c ≤ d → scope_krw a c ≤ scope_krw b d
unfolding scope_krw
scope_krw_mono a b c d p q =
    let raw = mul-le-mul (bucket_krw_mono a b p) q in
    rounded_mono (bucket_krw a * c) (bucket_krw b * d) raw

depth_multiplier_mono : (m n s t : ℕ) → m ≤ n → s ≤ t → depth_multiplier m s ≤ depth_multiplier n t
depth_multiplier_mono m n s t p q =
    let units = mul-le-mul (at_least_one m n p) (at_least_one s t q) in
    clamp_mono (max 1 m * max 1 s) (max 1 n * max 1 t) units
  where
    at_least_one : (a b : ℕ) → a ≤ b → max 1 a ≤ max 1 b
    at_least_one a b h = omega arith

    clamp_mono : (a b : ℕ) → a ≤ b → min (max a 15) 45 ≤ min (max b 15) 45
    clamp_mono a b h = omega arith

-- A scope with at least as many questions, languages, models and samples never costs less, across the
-- tiers as within them.
pub price_for_scope_mono :
    (a b : PriceScope)
    → a.question_count ≤ b.question_count
    → a.language_count ≤ b.language_count
    → a.models ≤ b.models
    → a.samples ≤ b.samples
    → (price_for_scope a).base_krw ≤ (price_for_scope b).base_krw
unfolding price_for_scope
price_for_scope_mono a b q l m s =
    let cells = mul-le-mul q l in
    let depth = depth_multiplier_mono a.models b.models a.samples b.samples m s in
    let dearer =
      scope_krw_mono (a.question_count * a.language_count) (b.question_count * b.language_count)
        (depth_multiplier a.models a.samples) (depth_multiplier b.models b.samples) cells depth in
    elim (Bool-cases (a.question_count == 0 || a.language_count == 0)) [
      | inl nothing ↦ rw nothing (omega arith)
      | inr something ↦
          let more =
            still_something a.question_count a.language_count b.question_count b.language_count q l
              something in
          rw (something, more) dearer
    ]
  where
    still_something :
        (q l r k : ℕ) → q ≤ r → l ≤ k → (q == 0 || l == 0) ≡ false → (r == 0 || k == 0) ≡ false
    still_something q l r k p o h = ground arith

-- A bucket's price is whole thousands of won.
bucket_krw-thousands : (cells : ℕ) → bucket_krw cells ≡ 1000 * (bucket_krw cells / 1000)
bucket_krw-thousands cells = ground arith

same_le : (n : ℕ) → n ≤ n
same_le n = omega arith

-- A price of whole thousands is rounded to between itself and three times itself.
rounded_between :
    (b depth k : ℕ)
    → b ≡ 1000 * k
    → 15 ≤ depth
    → depth ≤ 45
    → (b ≤ (2 * (b * depth) + 15_000) / 30_000 * 1000)
      × ((2 * (b * depth) + 15_000) / 30_000 * 1000 ≤ 3 * b)
rounded_between b depth k e low high =
    let least = rounded_mono (b * 15) (b * depth) (mul-le-mul (same_le b) low) in
    let most = rounded_mono (b * depth) (b * 45) (mul-le-mul (same_le b) high) in
    (omega arith, omega arith)

depth_bounds : (m s : ℕ) → (15 ≤ depth_multiplier m s) × (depth_multiplier m s ≤ 45)
depth_bounds m s = (clamp_low (max 1 m * max 1 s), clamp_high (max 1 m * max 1 s))
  where
    clamp_low : (a : ℕ) → 15 ≤ min (max a 15) 45
    clamp_low a = omega arith

    clamp_high : (a : ℕ) → min (max a 15) 45 ≤ 45
    clamp_high a = omega arith

scope_krw_bounds :
    (cells depth k : ℕ)
    → bucket_krw cells ≡ 1000 * k
    → 15 ≤ depth
    → depth ≤ 45
    → (bucket_krw cells ≤ scope_krw cells depth) × (scope_krw cells depth ≤ 3 * bucket_krw cells)
unfolding scope_krw
scope_krw_bounds cells depth k e low high = rounded_between (bucket_krw cells) depth k e low high

-- A scope with a question and a language costs at least the price of its number of cells, and at most
-- three times that, however many models and samples it has.
pub price_for_scope_bounds :
    (scope : PriceScope)
    → 0 < scope.question_count
    → 0 < scope.language_count
    → (bucket_krw (scope.question_count * scope.language_count) ≤ (price_for_scope scope).base_krw)
      × ((price_for_scope scope).base_krw
          ≤ 3 * bucket_krw (scope.question_count * scope.language_count))
unfolding price_for_scope
price_for_scope_bounds scope q l =
    let cells = scope.question_count * scope.language_count in
    let some_question = positive scope.question_count q in
    let some_language = positive scope.language_count l in
    let depth = depth_bounds scope.models scope.samples in
    rw (some_question, some_language)
      (scope_krw_bounds cells (depth_multiplier scope.models scope.samples)
        (bucket_krw cells / 1000) (bucket_krw-thousands cells) depth.0 depth.1)
  where
    positive : (n : ℕ) → 0 < n → (n == 0) ≡ false
    positive n h = ground arith
