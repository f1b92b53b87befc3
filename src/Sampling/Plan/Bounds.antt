-- ===== src/Sampling/Plan/Bounds.antt =====
-- How many work units a plan has at most.
use aeo_geo_optimization.Common.{
  ℕ, ◌+◌, ◌*◌, ◌≤◌, ◌≡◌, refl, String, false, arith, List, [], ◌∷◌, map, length, keep, flat_map,
  count_up, All, All-weaken, All-self, All-map, All-append, length-flat_map, length-map,
  length-take, length-keep, length-append, Bool-cases, inl, inr, zero, suc,
}
use aeo_geo_optimization.Common.Sort.{length-sort}
use aeo_geo_optimization.Common.OrderedMap.Groups.{members, members-group_from}
use aeo_geo_optimization.Domain.{
  DensityTier, core, secondary, longtail, tier_eq, Question, ModelRef, is_baseline,
}
use aeo_geo_optimization.Sampling.Density.{TierConfig, tier_configs, baseline_tier_config}
use native.Mathlib.Nat.{le_trans}
use aeo_geo_optimization.Sampling.Rotation.Slices.{length-pick_slice}
use aeo_geo_optimization.Sampling.Languages.Selection.{select_languages_heaviest}
use aeo_geo_optimization.Sampling.Languages.{select_languages_with_meta}
use aeo_geo_optimization.Sampling.Plan.{
  as_due, Runtime, PlanInput, DueQuestion, capped_models, due_of_tier, tier_due, tier_slice,
  questions_by_tier, effective_samples, units_of, due_questions, selected_languages, build_plan,
  tier_models, work_unit,
}

mul_le_mul_right : {a b : ℕ} (c : ℕ) → a ≤ b → a * c ≤ b * c
mul_le_mul_right c h = grind arith

mul_le_mul_left : {a b : ℕ} (c : ℕ) → a ≤ b → c * a ≤ c * b
mul_le_mul_left c h = grind arith

length-count_up : (i n : ℕ) → length (count_up i n) ≡ n
length-count_up i zero = refl
length-count_up i (suc n) = omega (arith, length-count_up (i + 1) n)

-- At most 5 samples are asked of a due question.
abbrev IsShallow : DueQuestion → Type 0
IsShallow d = d.n_samples ≤ 5

as_due-IsShallow :
    (config : TierConfig) (qs : List Question)
    → config.n_samples ≤ 5
    → (length (map (as_due config) qs) ≤ length qs) × All IsShallow (map (as_due config) qs)
as_due-IsShallow config qs h = (
  omega (arith, length-map (as_due config) qs),
  All-map IsShallow (as_due config) qs (All-weaken _ _ qs (λ q _. h) (All-self qs)),
)

tier_configs-shallow : (tier : DensityTier) → (tier_configs tier).n_samples ≤ 5
tier_configs-shallow core = omega arith
tier_configs-shallow secondary = omega arith
tier_configs-shallow longtail = omega arith

module _ (rt : Runtime) (input : PlanInput) where
  length-tier_slice :
      (tier : DensityTier) (qs : List Question) → length (tier_slice rt input tier qs) ≤ length qs
  unfolding tier_slice
  length-tier_slice tier qs =
      rw (← length-sort (λ (a : Question) (b : Question). rt.locale_compare a.id b.id) qs)
        (length-pick_slice _ _ _)

  length-due_of_tier :
      (tier : DensityTier) (qs : List Question)
      → (length (due_of_tier rt input (tier, qs)) ≤ length qs)
        × All IsShallow (due_of_tier rt input (tier, qs))
  unfolding due_of_tier
  length-due_of_tier tier qs = elim (Bool-cases (is_baseline input.kind)) [
    | inl base ↦
        rw (base, due_of_tier) (as_due-IsShallow (baseline_tier_config tier) qs (omega arith))
    | inr oper ↦ elim (Bool-cases (tier_due input tier)) [
      | inl due ↦
          let sliced =
            as_due-IsShallow (tier_configs tier) (tier_slice rt input tier qs)
              (tier_configs-shallow tier) in
          rw (oper, due_of_tier, due) (le_trans sliced.0 (length-tier_slice tier qs), sliced.1)
      | inr idle ↦ rw (oper, due_of_tier, idle) (omega arith, tt)
    ]
  ]

  length-due_groups :
      (gs : List (DensityTier × List Question))
      → (length (flat_map (due_of_tier rt input) gs) ≤ members gs)
        × All IsShallow (flat_map (due_of_tier rt input) gs)
  length-due_groups [] = (omega arith, tt)
  length-due_groups ((tier, qs) ∷ gs) =
      let (here, shallow) = length-due_of_tier tier qs in
      let (later, rest) = length-due_groups gs in
      (
        omega (
          arith,
          length-append (due_of_tier rt input (tier, qs)) (flat_map (due_of_tier rt input) gs),
        ),
        All-append IsShallow (due_of_tier rt input (tier, qs)) _ shallow rest,
      )

  length-due_questions :
      (length (due_questions rt input) ≤ length (keep (λ (q : Question). q.active) input.questions))
      × All IsShallow (due_questions rt input)
  unfolding due_questions questions_by_tier
  length-due_questions =
      let groups = length-due_groups (questions_by_tier input.questions) in
      (
        omega (
          arith,
          groups.0,
          members-group_from tier_eq (λ (q : Question). q.density_tier)
              (keep (λ (q : Question). q.active) input.questions) [],
        ),
        groups.1,
      )

  length-capped_models : length (capped_models rt input) ≤ input.budget.max_models
  unfolding capped_models
  length-capped_models = rw length-take (omega arith)

  length-tier_models :
      (d : DueQuestion) → length (tier_models d (capped_models rt input)) ≤ input.budget.max_models
  length-tier_models d = ground (
    arith,
    length-keep (λ (m : ModelRef). m.is_cheap_monitor) (capped_models rt input),
    length-capped_models,
  )

  length-samples :
      (d : DueQuestion)
      → IsShallow d
      → (m : ModelRef) (lang : String)
      → length (
          map (work_unit rt input d.question m lang) (count_up 0 (effective_samples m d.n_samples)))
        ≤ 5
  length-samples d h m lang = ground (
    arith,
    length-map (work_unit rt input d.question m lang)
        (count_up 0 (effective_samples m d.n_samples)),
    length-count_up 0 (effective_samples m d.n_samples),
  )

  length-units_of :
      (d : DueQuestion)
      → IsShallow d
      → length (units_of rt input (selected_languages rt input) (capped_models rt input) d)
        ≤ input.budget.max_models * (length (selected_languages rt input) * 5)
  unfolding units_of
  length-units_of d h =
      let langs : List String = selected_languages rt input in
      let models : List ModelRef = tier_models d (capped_models rt input) in
      let per_model = length-flat_map _ models (length langs * 5) (
        All-weaken _ _ models
          (λ m _.
            length-flat_map _ langs 5
              (All-weaken _ _ langs (λ lang _. length-samples d h m lang) (All-self langs)))
          (All-self models)) in
      le_trans per_model (mul_le_mul_right (length langs * 5) (length-tier_models d))

-- A plan has at most (number of active questions) × (model cap) × (number of selected languages) × 5
-- work units, and its `nTotal` is their number.
pub n_total_bounded :
    (rt : Runtime) (input : PlanInput)
    → ((build_plan rt input).n_total
        ≤ length (keep (λ (q : Question). q.active) input.questions)
          * (input.budget.max_models * (length (selected_languages rt input) * 5)))
      × ((build_plan rt input).n_total ≡ length (build_plan rt input).work_units)
unfolding build_plan
n_total_bounded rt input =
    let dues = length-due_questions rt input in
    let units =
      length-flat_map _ (due_questions rt input) _
        (All-weaken _ _ _ (length-units_of rt input) dues.1) in
    (le_trans units (mul_le_mul_right _ dues.0), refl)

-- In an operating run the languages are within their cap too.
pub operating_languages_capped :
    (rt : Runtime) (input : PlanInput)
    → is_baseline input.kind ≡ false
    → length (selected_languages rt input) ≤ input.budget.max_languages
unfolding select_languages_with_meta
operating_languages_capped rt input oper =
    rw (oper, select_languages_with_meta)
      (omega (
        arith,
        (select_languages_heaviest rt.locale_compare input.languages input.budget.max_languages).2,
      ))

-- An operating run has at most (number of active questions) × (model cap) × (language cap) × 5 work
-- units, and its `nTotal` is their number.
pub operating_n_total_bounded :
    (rt : Runtime) (input : PlanInput)
    → is_baseline input.kind ≡ false
    → ((build_plan rt input).n_total
        ≤ length (keep (λ (q : Question). q.active) input.questions)
          * (input.budget.max_models * (input.budget.max_languages * 5)))
      × ((build_plan rt input).n_total ≡ length (build_plan rt input).work_units)
operating_n_total_bounded rt input oper =
    let (bound, exact) = n_total_bounded rt input in
    let langs = mul_le_mul_right 5 (operating_languages_capped rt input oper) in
    let models = mul_le_mul_left input.budget.max_models langs in
    (le_trans bound (mul_le_mul_left _ models), exact)
