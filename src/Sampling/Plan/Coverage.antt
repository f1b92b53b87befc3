-- ===== src/Sampling/Plan/Coverage.antt =====
-- A baseline run asks everything.
use mathlib.Core.List.{Memᴰ}
use mathlib.Core.List.Memᴰ
use aeo_geo_optimization.Common.{
  ℕ, ◌<◌, ◌≡◌, String, true, arith, List, [], mem-flat_map, mem-keep, mem-count_up,
}
use aeo_geo_optimization.Common.OrderedMap.Groups.{group_from-Grouped}
use aeo_geo_optimization.Domain.{DensityTier, Question, ModelRef, is_baseline, tier_eq}
use aeo_geo_optimization.Sampling.Density.{baseline_n_samples, baseline_tier_config}
use aeo_geo_optimization.Sampling.Plan.{
  Runtime, PlanInput, capped_models, due_of_tier, questions_by_tier, effective_samples, work_unit,
  units_of, due_questions, selected_languages, build_plan, as_due,
}

module _ (rt : Runtime) (input : PlanInput) (base : is_baseline input.kind ≡ true)
    {q : Question} where
  due_of_tier-mem :
      (tier : DensityTier) (qs : List Question)
      → Memᴰ q qs
      → Memᴰ (as_due (baseline_tier_config q.density_tier) q) (due_of_tier rt input (tier, qs))
  unfolding due_of_tier
  due_of_tier-mem tier qs m =
      rw (base, due_of_tier) (Memᴰ.map (as_due (baseline_tier_config tier)) m)

  due_questions-mem :
      Memᴰ q input.questions
      → q.active ≡ true
      → Memᴰ (as_due (baseline_tier_config q.density_tier) q) (due_questions rt input)
  unfolding due_questions questions_by_tier
  due_questions-mem m on =
      let (g, mg, mq) =
        group_from-Grouped tier_eq (λ (v : Question). v.density_tier) q _ []
          (mem-keep (λ (v : Question). v.active) input.questions on m) in
      mem-flat_map (due_of_tier rt input) _ mg (due_of_tier-mem g.0 g.1 mq)

-- The plan of a baseline run holds the work unit of each active question, each model within the
-- cap, each selected language and each of the 3 samples (of the one sample, if the model is no
-- chat model).
pub baseline_complete :
    (rt : Runtime) (input : PlanInput) {q : Question} {m : ModelRef} {lang : String} (i : ℕ)
    → is_baseline input.kind ≡ true
    → Memᴰ q input.questions
    → q.active ≡ true
    → Memᴰ m (capped_models rt input)
    → Memᴰ lang (selected_languages rt input)
    → i < effective_samples m baseline_n_samples
    → Memᴰ (work_unit rt input q m lang i) (build_plan rt input).work_units
unfolding build_plan units_of
baseline_complete rt input {q} {m} {lang} i base mq on mm ml lt =
    mem-flat_map _ _ (due_questions-mem rt input base mq on) (
      mem-flat_map _ _ mm (
        mem-flat_map _ _ ml (
          Memᴰ.map (work_unit rt input q m lang) (mem-count_up 0 _ i (omega arith) (omega arith)))))
