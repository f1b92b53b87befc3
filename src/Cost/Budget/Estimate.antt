-- ===== src/Cost/Budget/Estimate.antt =====
-- The estimate of a plan's cost is the sum over its units: src/cost/budget.ts.
use aeo_geo_optimization.Common.{
  ℕ, ◌+◌, ◌*◌, ◌≡◌, String, List, [], ◌∷◌, arith, text_eq, text_eq_iff, Bool-cases, inl, inr,
}
use aeo_geo_optimization.Common.OrderedMap.{get, set}
use aeo_geo_optimization.Domain.{Modality, chat, serp, scrape}
use aeo_geo_optimization.Cost.Budget.{
  PlanCostBreakdown, serp_cost, estimate_surface_plan_cost, modality_of, count_unit, count_units,
  build_plan_cost_breakdown, or_zero,
}

-- The cost of one unit by its modality.
abbrev pub unit_cost : ℕ → ℕ → (String → ℕ) → String → Modality → ℕ
unit_cost gen judge flat model_id chat = gen + judge
unit_cost gen judge flat model_id serp = flat model_id + judge
unit_cost gen judge flat model_id scrape = judge

unfoldable pub total_cost : ℕ → ℕ → (String → ℕ) → List (String × Modality) → List String → ℕ
unfolding modality_of
total_cost gen judge flat model_map [] = 0
total_cost gen judge flat model_map (model_id ∷ units) =
    unit_cost gen judge flat model_id (modality_of model_map model_id)
    + total_cost gen judge flat model_map units

module _ (gen judge : ℕ) (flat : String → ℕ) where
  -- Setting a surface's count replaces its share of the cost.
  serp_cost-set :
      (id : String) (v : ℕ) (counts : List (String × ℕ))
      → serp_cost flat judge (set text_eq id v counts)
          + or_zero (get text_eq id counts) * (flat id + judge)
        ≡ serp_cost flat judge counts + v * (flat id + judge)
  unfolding serp_cost get set
  serp_cost-set id v [] = ground arith
  serp_cost-set id v ((j, n) ∷ counts) =
      let rest = serp_cost-set id v counts in
      elim (Bool-cases (text_eq j id)) [
        | inl same ↦ let path : j ≡ id = (text_eq_iff j id).0 same in rw (same, path) (omega arith)
        | inr other ↦ rw other (omega (arith, rest))
      ]

  serp_cost-count :
      (id : String) (counts : List (String × ℕ))
      → serp_cost flat judge (set text_eq id (or_zero (get text_eq id counts) + 1) counts)
        ≡ serp_cost flat judge counts + (flat id + judge)
  serp_cost-count id counts =
      let replaced = serp_cost-set id (or_zero (get text_eq id counts) + 1) counts in
      omega (arith, replaced)

  count_unit-estimate :
      (id : String) (modality : Modality) (b : PlanCostBreakdown)
      → estimate_surface_plan_cost (count_unit id modality b) gen judge flat
        ≡ estimate_surface_plan_cost b gen judge flat + unit_cost gen judge flat id modality
  unfolding count_unit estimate_surface_plan_cost
  count_unit-estimate id chat b = omega arith
  count_unit-estimate id scrape b = omega arith
  count_unit-estimate id serp b =
      let counted = serp_cost-count id b.n_serp_units_by_surface in omega (arith, counted)

  count_units-estimate :
      (model_map : List (String × Modality)) (units : List String) (b : PlanCostBreakdown)
      → estimate_surface_plan_cost (count_units model_map units b) gen judge flat
        ≡ estimate_surface_plan_cost b gen judge flat + total_cost gen judge flat model_map units
  unfolding count_units total_cost
  count_units-estimate model_map [] b = omega arith
  count_units-estimate model_map (id ∷ units) b =
      let modality = modality_of model_map id in
      let first = count_unit-estimate id modality b in
      let rest = count_units-estimate model_map units (count_unit id modality b) in
      omega (arith, first, rest)

-- The estimate for the breakdown of a plan's units is the sum of the units' own costs: a judge call
-- each, and a generation for a chat model (or an unknown one) or the flat rate of a search surface.
pub estimate_of_breakdown :
    (gen judge : ℕ) (flat : String → ℕ) (units : List String) (model_map : List (String × Modality))
    → estimate_surface_plan_cost (build_plan_cost_breakdown units model_map) gen judge flat
      ≡ total_cost gen judge flat model_map units
unfolding build_plan_cost_breakdown estimate_surface_plan_cost serp_cost
estimate_of_breakdown gen judge flat units model_map =
    let start : PlanCostBreakdown = record {
      n_chat_units = 0;
      n_serp_units_by_surface = [];
      n_scrape_units = 0;
    } in
    omega (arith, count_units-estimate gen judge flat model_map units start)
