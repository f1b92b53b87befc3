-- ===== src/Sampling/Density.antt =====
-- The sampling depth and cadence of each density tier: src/sampling/density.ts.
use aeo_geo_optimization.Common.{ℕ, Bool, true, false, if◌then◌else◌}
use aeo_geo_optimization.Common.Int.{ℤ, pos, leb_ℤ, ◌-ℤ◌}
use aeo_geo_optimization.Domain.{DensityTier, core, secondary, longtail}

abbrev pub samples_by_tier : DensityTier → ℕ
samples_by_tier core = 5
samples_by_tier secondary = 3
samples_by_tier longtail = 3

abbrev pub cycle_period_by_tier : DensityTier → ℕ
cycle_period_by_tier core = 1
cycle_period_by_tier secondary = 2
cycle_period_by_tier longtail = 4

pub record TierConfig : Type 0 where
  pub tier : DensityTier
  pub n_samples : ℕ
  pub cycle_period : ℕ
  pub cheap_model_only : Bool

abbrev is_longtail : DensityTier → Bool
is_longtail longtail = true
is_longtail _ = false

abbrev pub tier_configs : DensityTier → TierConfig
tier_configs tier = record {
  tier = tier;
  n_samples = samples_by_tier tier;
  cycle_period = cycle_period_by_tier tier;
  cheap_model_only = is_longtail tier;
}

abbrev is_core : DensityTier → Bool
is_core core = true
is_core _ = false

unfoldable pub is_due : DensityTier → ℕ → ℤ → Bool
unfolding ◌-ℤ◌
is_due tier current_cycle_index last_cycle_index =
    let config = tier_configs tier in
    let gap = pos current_cycle_index -ℤ last_cycle_index in
    if is_core tier then true else leb_ℤ (pos config.cycle_period) gap

abbrev pub baseline_n_samples : ℕ
baseline_n_samples = 3

abbrev pub baseline_tier_config : DensityTier → TierConfig
baseline_tier_config tier = record {
  tier = tier;
  n_samples = baseline_n_samples;
  cycle_period = 1;
  cheap_model_only = false;
}
