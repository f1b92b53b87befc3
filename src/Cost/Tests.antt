-- ===== src/Cost/Tests.antt =====
-- Budgets of a few dollars, and the theorems of src/cost at them.
use aeo_geo_optimization.Common.{◌≤◌, ◌≡◌, refl, String, List, [], ◌∷◌, true, arith, text_eq}
use aeo_geo_optimization.Common.Int.{◌-ℤ◌}
use aeo_geo_optimization.Common.OrderedMap.{get}
use aeo_geo_optimization.Domain.{Budget, Modality, serp, scrape}
use aeo_geo_optimization.Cost.Budget.{
  within, CostReadPort, preflight, assert_within_cap, check_caps, check_readings,
  build_plan_cost_breakdown, estimate_surface_plan_cost, modality_of,
}
use aeo_geo_optimization.Cost.Budget.Caps.{reading, spend, guarded_calls_bounded}
use aeo_geo_optimization.Cost.Budget.Estimate.{total_cost, estimate_of_breakdown}

abbrev budget : Budget
budget = record {
  customer_id = "c";
  max_models = 3;
  max_samples = 5;
  max_languages = 4;
  weekly_usd_cap = 10_000_000;
  monthly_usd_cap = 30_000_000;
}

-- 4 dollars in the week, 12 in the month.
abbrev reader : CostReadPort
reader = reading (4_000_000, 12_000_000)

passed : (preflight "c" budget 6_000_000 reader).ok ≡ true
unfolding preflight ◌-ℤ◌
passed = refl

reader_within : assert_within_cap "c" budget reader ≡ within
unfolding assert_within_cap check_readings check_caps
reader_within = refl

guarded_calls_bounded_example :
    ((spend "c" budget (7_000_000 ∷ 2_000_000 ∷ []) (4_000_000, 12_000_000)).0 ≤ 17_000_000)
    × ((spend "c" budget (7_000_000 ∷ 2_000_000 ∷ []) (4_000_000, 12_000_000)).1 ≤ 37_000_000)
guarded_calls_bounded_example =
    guarded_calls_bounded "c" budget 7_000_000 (7_000_000 ∷ 2_000_000 ∷ []) 4_000_000 12_000_000
      (omega arith, (omega arith, tt)) (omega arith) (omega arith)

abbrev models : List (String × Modality)
models = ("googleAio", serp) ∷ ("page", scrape) ∷ []

estimate_of_breakdown_example :
    estimate_surface_plan_cost
      (build_plan_cost_breakdown ("googleAio" ∷ "gemini" ∷ "googleAio" ∷ []) models)
      50
      20
      (λ s. 9)
    ≡ total_cost 50 20 (λ s. 9) models ("googleAio" ∷ "gemini" ∷ "googleAio" ∷ [])
estimate_of_breakdown_example =
    estimate_of_breakdown 50 20 (λ s. 9) ("googleAio" ∷ "gemini" ∷ "googleAio" ∷ []) models

-- Two search calls and one chat call: 2 * 29 + 70.
total_of_three : total_cost 50 20 (λ s. 9) models ("googleAio" ∷ "gemini" ∷ "googleAio" ∷ []) ≡ 128
unfolding total_cost modality_of get text_eq
total_of_three = refl
