-- ===== src/Sampling/Rotation.antt =====
-- The rotation cursor of a tier and the slices of its questions: src/sampling/rotation.ts.
pub mod Slices
pub mod Cadence
use aeo_geo_optimization.Common.{
  ℕ, ◌+◌, ◌-◌, ◌*◌, ◌/◌, ◌%◌, min, String, Bool, List, [], ◌∷◌, ◌||◌, leb, ◌==◌, if◌then◌else◌,
  take, drop, length,
}
use aeo_geo_optimization.Common.Int.{ℤ, pos, leb_ℤ, ◌-ℤ◌}
use aeo_geo_optimization.Domain.{DensityTier, core, secondary, longtail}
use aeo_geo_optimization.Sampling.Density.{cycle_period_by_tier}

-- `last_cycle_index` is -1 where the tier never ran.
pub record RotationState : Type 0 where
  pub customer_id : String
  pub density_tier : DensityTier
  pub last_cycle_index : ℤ

unfoldable pub is_rotation_due : ℕ → RotationState → Bool
unfolding ◌-ℤ◌
is_rotation_due current_cycle_index state =
    let period = cycle_period_by_tier state.density_tier in
    let gap = pos current_cycle_index -ℤ state.last_cycle_index in leb_ℤ (pos period) gap

unfoldable pub advance_rotation : ℕ → RotationState → RotationState
advance_rotation current_cycle_index state = record state {
  last_cycle_index = pos current_cycle_index;
}

unfoldable pub select_slice_index : ℕ → DensityTier → ℕ → ℕ
select_slice_index current_cycle_index tier num_slices =
    if leb num_slices 1 then 0 else current_cycle_index / cycle_period_by_tier tier % num_slices

-- `Math.ceil(a / b)` for a positive `b`.
abbrev pub ceil_div : ℕ → ℕ → ℕ
ceil_div a b = (a + (b - 1)) / b

-- `items.slice(start, end)`, which is empty where `end` is not past `start`.
abbrev pub slice {ℓ} : {T : Type ℓ} → List T → ℕ → ℕ → List T
slice items start end = take (end - start) (drop start items)

unfoldable pub pick_slice {ℓ} : {T : Type ℓ} → List T → ℕ → ℕ → List T
pick_slice items num_slices slice_index =
    if leb num_slices 1 || length items == 0
    then items
    else let size = ceil_div (length items) num_slices in
      let start = slice_index * size in
      let end = min (start + size) (length items) in slice items start end

abbrev pub default_num_slices : DensityTier → ℕ
default_num_slices core = 1
default_num_slices secondary = 2
default_num_slices longtail = 4
