-- ===== src/Cost/Budget.antt =====
-- The budget guards and the estimate of a plan's cost: src/cost/budget.ts. US dollars are
-- micro-dollars, and the remaining ones may be negative. A read of the spending that fails is not
-- modelled, and the texts of the errors are left out.

pub mod Caps
pub mod Estimate
use aeo_geo_optimization.Common.{
  ℕ, ◌+◌, ◌*◌, String, Bool, true, false, not, Option, none, some, List, [], ◌∷◌, ltb, leb, text_eq,
  if◌then◌else◌,
}
use aeo_geo_optimization.Common.Int.{ℤ, pos, leb_ℤ, ◌-ℤ◌}
use aeo_geo_optimization.Common.OrderedMap.{get, set}
use aeo_geo_optimization.Domain.{Budget, Modality, chat, serp, scrape}

pub data CapType : Type 0 where
  shape weekly monthly : CapType

-- How a guard ends: it returns, or throws a `BudgetExceededError` or a `CostDataMissingError`.
pub data CapCheck : Type 0 where
  within : CapCheck
  budget_exceeded : CapType → CapCheck
  cost_data_missing : String → CapCheck

-- `getRollingSpendUsd(customerId, windowDays)`
pub record CostReadPort : Type 0 where
  pub get_rolling_spend_usd : String → ℕ → Option ℕ

unfoldable pub assert_shape_caps : ℕ → ℕ → ℕ → Budget → CapCheck
assert_shape_caps n_models n_samples n_languages budget =
    if ltb budget.max_models n_models
    then budget_exceeded shape
    else (if ltb budget.max_samples n_samples
        then budget_exceeded shape
        else (if ltb budget.max_languages n_languages then budget_exceeded shape else within))

pub record PreflightResult : Type 0 where
  pub ok : Bool
  pub weekly_spent : ℕ
  pub monthly_spent : ℕ
  pub weekly_remaining : ℤ
  pub monthly_remaining : ℤ

-- `x ?? 0`
abbrev pub or_zero : Option ℕ → ℕ
or_zero none = 0
or_zero (some n) = n

unfoldable pub preflight : String → Budget → ℕ → CostReadPort → PreflightResult
unfolding ◌-ℤ◌
preflight customer_id budget estimated_usd cost_reader =
    let weekly_spent = or_zero (cost_reader.get_rolling_spend_usd customer_id 7) in
    let monthly_spent = or_zero (cost_reader.get_rolling_spend_usd customer_id 30) in
    let weekly_remaining = pos budget.weekly_usd_cap -ℤ pos weekly_spent in
    let monthly_remaining = pos budget.monthly_usd_cap -ℤ pos monthly_spent in
    record {
      ok =
          if not (leb_ℤ (pos estimated_usd) weekly_remaining)
          then false
          else (if not (leb_ℤ (pos estimated_usd) monthly_remaining) then false else true);
      weekly_spent = weekly_spent;
      monthly_spent = monthly_spent;
      weekly_remaining = weekly_remaining;
      monthly_remaining = monthly_remaining;
    }

-- The caps against two readings.
unfoldable pub check_caps : Budget → ℕ → ℕ → CapCheck
check_caps budget weekly_spent monthly_spent =
    if leb budget.weekly_usd_cap weekly_spent
    then budget_exceeded weekly
    else (if leb budget.monthly_usd_cap monthly_spent then budget_exceeded monthly else within)

-- The caps against readings of which one may be missing.
unfoldable pub check_readings : CapCheck → Budget → Option ℕ → Option ℕ → CapCheck
unfolding check_caps
check_readings missing budget (some w) (some m) = check_caps budget w m
check_readings missing budget _ _ = missing

unfoldable pub assert_within_cap : String → Budget → CostReadPort → CapCheck
unfolding check_readings
assert_within_cap customer_id budget cost_reader =
    check_readings (cost_data_missing customer_id) budget
      (cost_reader.get_rolling_spend_usd customer_id 7)
      (cost_reader.get_rolling_spend_usd customer_id 30)

unfoldable pub assert_within_cap_or_new : String → Budget → CostReadPort → Bool → CapCheck
unfolding check_readings
assert_within_cap_or_new customer_id budget cost_reader is_new_customer =
    check_readings (if is_new_customer then within else cost_data_missing customer_id) budget
      (cost_reader.get_rolling_spend_usd customer_id 7)
      (cost_reader.get_rolling_spend_usd customer_id 30)

abbrev pub estimate_plan_cost : ℕ → ℕ → ℕ → ℕ
estimate_plan_cost n_work_units avg_gen_usd avg_judge_usd =
    n_work_units * (avg_gen_usd + avg_judge_usd)

pub record PlanCostBreakdown : Type 0 where
  pub n_chat_units : ℕ
  pub n_serp_units_by_surface : List (String × ℕ)
  pub n_scrape_units : ℕ

-- The loop over the surfaces.
unfoldable pub serp_cost : (String → ℕ) → ℕ → List (String × ℕ) → ℕ
serp_cost serp_call_usd_fn avg_judge_usd [] = 0
serp_cost serp_call_usd_fn avg_judge_usd ((surface_id, count) ∷ rest) =
    count * (serp_call_usd_fn surface_id + avg_judge_usd)
    + serp_cost serp_call_usd_fn avg_judge_usd rest

unfoldable pub estimate_surface_plan_cost : PlanCostBreakdown → ℕ → ℕ → (String → ℕ) → ℕ
unfolding serp_cost
estimate_surface_plan_cost breakdown avg_gen_usd avg_judge_usd serp_call_usd_fn =
    breakdown.n_chat_units * (avg_gen_usd + avg_judge_usd)
    + serp_cost serp_call_usd_fn avg_judge_usd breakdown.n_serp_units_by_surface
    + breakdown.n_scrape_units * avg_judge_usd

-- `meta?.modality ?? "chat"`
unfoldable pub modality_of : List (String × Modality) → String → Modality
unfolding get
modality_of model_map model_id = elim (get text_eq model_id model_map) [
  | none ↦ chat
  | some modality ↦ modality
]

-- One unit's model, counted.
unfoldable pub count_unit : String → Modality → PlanCostBreakdown → PlanCostBreakdown
unfolding get set
count_unit model_id chat b = record b { n_chat_units = b.n_chat_units + 1 }
count_unit model_id scrape b = record b { n_scrape_units = b.n_scrape_units + 1 }
count_unit model_id serp b = record b {
  n_serp_units_by_surface =
      set text_eq model_id (or_zero (get text_eq model_id b.n_serp_units_by_surface) + 1)
        b.n_serp_units_by_surface;
}

-- The loop over the units, by their model ids.
unfoldable pub count_units :
    List (String × Modality) → List String → PlanCostBreakdown → PlanCostBreakdown
unfolding count_unit modality_of
count_units model_map [] b = b
count_units model_map (model_id ∷ units) b =
    count_units model_map units (count_unit model_id (modality_of model_map model_id) b)

unfoldable pub build_plan_cost_breakdown :
    List String → List (String × Modality) → PlanCostBreakdown
unfolding count_units
build_plan_cost_breakdown work_units model_map =
    count_units model_map work_units
      record { n_chat_units = 0; n_serp_units_by_surface = []; n_scrape_units = 0 }
