-- ===== src/Domain.antt =====
-- The domain types that several components share: src/domain/types.ts. Amounts in USD are whole
-- micro-dollars and language weights are whole thousandths, so both are natural numbers.
use aeo_geo_optimization.Common.{ℕ, String, Bool, Option, List, true, false, ◌≡◌, arith}

pub data Modality : Type 0 where
  chat serp scrape : Modality

pub data SurfaceCapability : Type 0 where
  generate judge structured : SurfaceCapability

pub record ModelRef : Type 0 where
  pub id : String
  pub provider : String
  pub modality : Modality
  pub capabilities : List SurfaceCapability
  pub is_cheap_monitor : Bool
  pub is_judge : Bool
  pub input_usd_per_mtok : ℕ
  pub output_usd_per_mtok : ℕ
  pub enabled : Bool

pub data RunKind : Type 0 where
  baseline operating : RunKind

pub data WorkUnitStatus : Type 0 where
  pending done skipped error : WorkUnitStatus

pub data DensityTier : Type 0 where
  core secondary longtail : DensityTier

pub record Question : Type 0 where
  pub id : String
  pub customer_id : String
  pub text : String
  pub language : String
  pub funnel_stage : Option String
  pub density_tier : DensityTier
  pub active : Bool

pub record CustomerLanguage : Type 0 where
  pub customer_id : String
  pub language : String
  pub weight : ℕ

pub record Budget : Type 0 where
  pub customer_id : String
  pub max_models : ℕ
  pub max_samples : ℕ
  pub max_languages : ℕ
  pub weekly_usd_cap : ℕ
  pub monthly_usd_cap : ℕ

-- `===` on the enumerations.
abbrev pub is_chat : Modality → Bool
is_chat chat = true
is_chat _ = false

abbrev pub is_baseline : RunKind → Bool
is_baseline baseline = true
is_baseline operating = false

abbrev pub tier_eq : DensityTier → DensityTier → Bool
tier_eq core core = true
tier_eq secondary secondary = true
tier_eq longtail longtail = true
tier_eq _ _ = false

pub tier_eq_sound : (s t : DensityTier) → tier_eq s t ≡ true → s ≡ t
tier_eq_sound s t h = ground arith
