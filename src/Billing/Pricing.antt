-- ===== src/Billing/Pricing.antt =====
-- The price of a customer's scope: src/billing/pricing.ts. The depth multiplier is a number of
-- fifteenths.
pub mod Bounds
use aeo_geo_optimization.Common.{
  ℕ, ◌+◌, ◌-◌, ◌*◌, ◌/◌, min, max, Bool, ◌||◌, leb, ◌==◌, if◌then◌else◌,
}

pub record PriceScope : Type 0 where
  pub question_count : ℕ
  pub language_count : ℕ
  pub models : ℕ
  pub samples : ℕ

pub data Tier : Type 0 where
  starter growth scale enterprise : Tier

pub record PriceResult : Type 0 where
  pub base_krw : ℕ
  pub tier : Tier
  pub qxl_cells : ℕ
  pub cell_rate_krw : ℕ
  pub depth_fifteenths : ℕ

-- `Math.round(a / b)`, with a half rounded up.
abbrev pub round_div : ℕ → ℕ → ℕ
round_div a b = (2 * a + b) / (2 * b)

abbrev pub depth_baseline : ℕ
depth_baseline = 15

-- The cap of 3, in fifteenths.
abbrev pub depth_cap : ℕ
depth_cap = 45

-- The tier of a number of cells, the price of its bucket and its rate: `TIERS.find(...)`.
abbrev pub tier_of : ℕ → Tier
tier_of cells =
    if leb cells 50
    then starter
    else (if leb cells 100 then growth else (if leb cells 200 then scale else enterprise))

abbrev pub bucket_krw : ℕ → ℕ
bucket_krw cells =
    if leb cells 50
    then 1_200_000
    else (if leb cells 100
        then 2_000_000
        else (if leb cells 200 then 3_500_000 else 3_500_000 + (cells - 200) * 12_000))

abbrev pub cell_rate : ℕ → ℕ
cell_rate cells =
    if leb cells 50
    then round_div 1_200_000 50
    else (if leb cells 100
        then round_div 2_000_000 100
        else (if leb cells 200 then round_div 3_500_000 200 else 12_000))

abbrev pub depth_multiplier : ℕ → ℕ → ℕ
depth_multiplier models samples = min (max (max 1 models * max 1 samples) depth_baseline) depth_cap

-- Rounded to whole thousands of won.
unfoldable pub scope_krw : ℕ → ℕ → ℕ
scope_krw cells depth = round_div (bucket_krw cells * depth) (depth_baseline * 1000) * 1000

unfoldable pub price_for_scope : PriceScope → PriceResult
unfolding scope_krw
price_for_scope scope =
    if scope.question_count == 0 || scope.language_count == 0
    then record {
      base_krw = 0;
      tier = starter;
      qxl_cells = 0;
      cell_rate_krw = 0;
      depth_fifteenths = depth_baseline;
    }
    else let cells = scope.question_count * scope.language_count in
      let depth = depth_multiplier scope.models scope.samples in
      record {
        base_krw = scope_krw cells depth;
        tier = tier_of cells;
        qxl_cells = cells;
        cell_rate_krw = cell_rate cells;
        depth_fifteenths = depth;
      }

-- The tax of 10 %.
abbrev pub compute_vat : ℕ → ℕ
compute_vat base_krw = round_div base_krw 10

abbrev pub usd_to_krw : ℕ → ℕ → ℕ
usd_to_krw micro_usd fx_rate = round_div (micro_usd * fx_rate) 1_000_000

abbrev pub default_fx_rate : ℕ
default_fx_rate = 1350

abbrev pub overage_margin : ℕ
overage_margin = 3

abbrev pub apply_margin : ℕ → ℕ → ℕ
apply_margin cost_krw margin = cost_krw * margin
