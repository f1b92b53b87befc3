-- ===== src/Sampling/Rotation/Cadence.antt =====
-- When a tier runs and which slice it asks, over the cycles 0, 1, 2, ... of a customer.
use aeo_geo_optimization.Common.{
  ℕ, zero, suc, ◌+◌, ◌-◌, ◌*◌, ◌/◌, ◌%◌, ◌≤◌, ◌<◌, ◌≡◌, refl, subst, ◌↔◌, arith, true, String, leb,
  if◌then◌else◌, Bool-cases, inl, inr, ◌∙◌, List,
}
use mathlib.Core.List.{Memᴰ}
use native.Mathlib.Nat.{mod-lt, mod-eq_of_lt, div-add-mod, add-mul-mod_self_left}
use aeo_geo_optimization.Common.Int.{pos, negsuc, ◌-ℤ◌}
use aeo_geo_optimization.Domain.{DensityTier, core, secondary, longtail}
use aeo_geo_optimization.Sampling.Density.{cycle_period_by_tier}
use aeo_geo_optimization.Sampling.Rotation.Slices.{mem-pick_slice}
use aeo_geo_optimization.Sampling.Rotation.{
  RotationState, is_rotation_due, advance_rotation, select_slice_index, pick_slice,
}

-- The cursor of a tier before cycle `c`, where every cycle is planned in its turn.
pub state_before : String → DensityTier → ℕ → RotationState
state_before customer tier zero = record {
  customer_id = customer;
  density_tier = tier;
  last_cycle_index = negsuc 0;
}
state_before customer tier (suc c) =
    let s = state_before customer tier c in if is_rotation_due c s then advance_rotation c s else s

-- The cursor of a tier before cycle `next + k`, where it names the cycle before `next` at first, and each
-- cycle from `next` on is planned in its turn and stores the cursor.
unfoldable pub state_since : String → DensityTier → ℕ → ℕ → RotationState
unfolding ◌-ℤ◌
state_since customer tier next zero = record {
  customer_id = customer;
  density_tier = tier;
  last_cycle_index = pos next -ℤ pos 1;
}
state_since customer tier next (suc k) =
    let s = state_since customer tier next k in
    if is_rotation_due (next + k) s then advance_rotation (next + k) s else s

-- The cursor after `k` cycles from `next` on, of which the last k mod p, for the period p, passed without
-- this tier.
record WaitedSince (tier : DensityTier) (next k : ℕ) (s : RotationState) : Type 0 where
  same_tier : s.density_tier ≡ tier
  last : s.last_cycle_index ≡ pos (next + k) -ℤ pos (k % cycle_period_by_tier tier + 1)

WaitedSince-step :
    (tier : DensityTier) (next k : ℕ) (s : RotationState)
    → WaitedSince tier next k s
    → WaitedSince tier next
        (suc k)
        (if is_rotation_due (next + k) s then advance_rotation (next + k) s else s)
unfolding is_rotation_due advance_rotation
WaitedSince-step core next k s w = ground arith
WaitedSince-step secondary next k s w = ground arith
WaitedSince-step longtail next k s w = ground arith

state_since-WaitedSince :
    (customer : String) (tier : DensityTier) (next k : ℕ)
    → WaitedSince tier next k (state_since customer tier next k)
unfolding state_since ◌-ℤ◌
state_since-WaitedSince customer core next zero = ground arith
state_since-WaitedSince customer secondary next zero = ground arith
state_since-WaitedSince customer longtail next zero = ground arith
state_since-WaitedSince customer tier next (suc k) =
    WaitedSince-step tier next k (state_since customer tier next k)
      (state_since-WaitedSince customer tier next k)

due_since_iff :
    (tier : DensityTier) (next k : ℕ) (s : RotationState)
    → WaitedSince tier next k s
    → (is_rotation_due (next + k) s ≡ true) ↔ ((k + 1) % cycle_period_by_tier tier ≡ 0)
unfolding is_rotation_due
due_since_iff core next k s w = ground arith
due_since_iff secondary next k s w = ground arith
due_since_iff longtail next k s w = ground arith

-- Where the cursor of a tier of period p names the cycle before `next` (-1 if `next` is 0), and each cycle
-- from `next` on is planned in its turn and stores the cursor, the tier is due in the cycles next + p - 1,
-- next + 2p - 1, next + 3p - 1, ... and in no other cycle from `next` on.
pub runs_iff :
    (customer : String) (tier : DensityTier) (next k : ℕ)
    → (is_rotation_due (next + k) (state_since customer tier next k) ≡ true)
      ↔ ((k + 1) % cycle_period_by_tier tier ≡ 0)
runs_iff customer tier next k =
    due_since_iff tier next k _ (state_since-WaitedSince customer tier next k)

zero_add : (n : ℕ) → 0 + n ≡ n
zero_add n = omega arith

state_since-zero :
    (customer : String) (tier : DensityTier) (c : ℕ)
    → state_since customer tier 0 c ≡ state_before customer tier c
unfolding state_since state_before ◌-ℤ◌
state_since-zero customer tier zero = refl
state_since-zero customer tier (suc c) = rw (zero_add c, state_since-zero customer tier c) refl

runs_before_iff :
    (customer : String) (tier : DensityTier) (c : ℕ)
    → (is_rotation_due c (state_before customer tier c) ≡ true)
      ↔ ((c + 1) % cycle_period_by_tier tier ≡ 0)
runs_before_iff customer tier c =
    subst
      (λ (n : ℕ).
        (is_rotation_due n (state_before customer tier c) ≡ true)
        ↔ ((c + 1) % cycle_period_by_tier tier ≡ 0))
      (zero_add c) (rw (← state_since-zero customer tier c) (runs_iff customer tier 0 c))

-- How many runs to wait from slice `q % k` to slice `t`.
abbrev rounds_to : ℕ → ℕ → ℕ → ℕ
rounds_to q k t = if leb (q % k) t then t - q % k else t + k - q % k

lt_mod : (q k t : ℕ) → t < k → q % k < k
lt_mod q k t h = mod-lt q (omega arith)

rounds_to-lt : (q k t : ℕ) → t < k → rounds_to q k t < k
rounds_to-lt q k t h = ground (arith, lt_mod q k t h)

rounds_to-mod : (q k t : ℕ) → t < k → (q + rounds_to q k t) % k ≡ t
rounds_to-mod q k t h = elim (Bool-cases (leb (q % k) t)) [
  | inl near ↦
      let whole : q + rounds_to q k t ≡ t + k * (q / k) =
        ground (arith, div-add-mod q k, lt_mod q k t h) in
      rw whole (add-mul-mod_self_left t k (q / k) ∙ mod-eq_of_lt h)
  | inr far ↦
      let whole : q + rounds_to q k t ≡ t + k * (q / k + 1) =
        ground (arith, div-add-mod q k, lt_mod q k t h) in
      rw whole (add-mul-mod_self_left t k (q / k + 1) ∙ mod-eq_of_lt h)
]

-- The last cycle of the q-th period of the tier.
abbrev period_end : DensityTier → ℕ → ℕ
period_end tier q = q * cycle_period_by_tier tier + (cycle_period_by_tier tier - 1)

-- The run that asks slice `t` next, from cycle `c` on.
abbrev run_of_slice : DensityTier → ℕ → ℕ → ℕ → ℕ
run_of_slice tier c k t =
    let q : ℕ = c / cycle_period_by_tier tier in period_end tier (q + rounds_to q k t)

period_end-due :
    (tier : DensityTier) (q : ℕ) → (period_end tier q + 1) % cycle_period_by_tier tier ≡ 0
period_end-due core q = omega arith
period_end-due secondary q = omega arith
period_end-due longtail q = omega arith

period_end-div : (tier : DensityTier) (q : ℕ) → period_end tier q / cycle_period_by_tier tier ≡ q
period_end-div core q = omega arith
period_end-div secondary q = omega arith
period_end-div longtail q = omega arith

period_end-bounds :
    (tier : DensityTier) (c d k : ℕ)
    → d < k
    → (c ≤ period_end tier (c / cycle_period_by_tier tier + d))
      × (period_end tier (c / cycle_period_by_tier tier + d) < c + k * cycle_period_by_tier tier)
period_end-bounds core c d k h = omega arith
period_end-bounds secondary c d k h = omega arith
period_end-bounds longtail c d k h = omega arith

select_slice_index-period_end :
    (tier : DensityTier) (q k t : ℕ)
    → t < k
    → q % k ≡ t
    → select_slice_index (period_end tier q) tier k ≡ t
unfolding select_slice_index
select_slice_index-period_end tier q k t h e = elim (Bool-cases (leb k 1)) [
  | inl one ↦ rw one (ground arith)
  | inr more ↦ rw (more, period_end-div tier q) e
]

-- From any cycle on, each of the k slices of a tier is asked within k periods of the tier.
slice_due :
    (customer : String) (tier : DensityTier) (k t c : ℕ)
    → t < k
    → (n : ℕ) × (c ≤ n)
      × (n < c + k * cycle_period_by_tier tier)
      × (is_rotation_due n (state_before customer tier n) ≡ true)
      × (select_slice_index n tier k ≡ t)
slice_due customer tier k t c h =
    let q : ℕ = c / cycle_period_by_tier tier in
    let d : ℕ = rounds_to q k t in
    let bounds = period_end-bounds tier c d k (rounds_to-lt q k t h) in
    (
      run_of_slice tier c k t,
      bounds.0,
      bounds.1,
      (runs_before_iff customer tier _).1 (period_end-due tier (q + d)),
      select_slice_index-period_end tier (q + d) k t h (rounds_to-mod q k t h),
    )

-- No question starves: from any cycle on, each question of a tier that is cut into k slices, k at
-- least 1, is in the slice that is asked in some cycle at which the tier is due, within k periods.
-- It is supposed that the customer's cycles are planned one after the other from 0.
pub question_asked {ℓ} :
    {T : Type ℓ} (customer : String) (tier : DensityTier) (items : List T) (k c : ℕ) {x : T}
    → 0 < k
    → Memᴰ x items
    → (n : ℕ) × (c ≤ n)
      × (n < c + k * cycle_period_by_tier tier)
      × (is_rotation_due n (state_before customer tier n) ≡ true)
      × Memᴰ x (pick_slice items k (select_slice_index n tier k))
question_asked customer tier items k c {x} h m =
    let (t, below, member) = mem-pick_slice items k h m in
    let (n, from, until, due, same) = slice_due customer tier k t c below in
    (n, from, until, due, rw same member)
