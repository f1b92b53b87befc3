-- ===== src/Sampling/Plan/Units.antt =====
-- What a planned work unit stands for.
use mathlib.Core.List.{Memᴰ}
use aeo_geo_optimization.Common.{
  ℕ, ◌+◌, ◌≤◌, ◌<◌, ◌≡◌, ◌≢◌, refl, sym, ◌∙◌, String, true, false, List, [], map, arith,
  text_eq_iff, All, All-flat_map, All-map, All-take, All-keep, All-keep_test, All-both, All-self,
  All-weaken, All-count_up, Bool-cases, inl, inr,
}
use aeo_geo_optimization.Common.Sort.{All-sort}
use aeo_geo_optimization.Common.OrderedMap.Groups.{group_from-All}
use aeo_geo_optimization.Domain.{
  DensityTier, longtail, tier_eq, tier_eq_sound, Question, ModelRef, RunKind, baseline, operating,
  is_baseline,
}
use aeo_geo_optimization.Sampling.Density.{
  samples_by_tier, baseline_n_samples, TierConfig, tier_configs, baseline_tier_config,
}
use aeo_geo_optimization.Sampling.Rotation.Slices.{pick_slice-All}
use aeo_geo_optimization.Sampling.Plan.{
  as_due, Runtime, PlanInput, PlannedWorkUnit, DueQuestion, escalation_judge_model, is_candidate,
  capped_models, due_of_tier, tier_slice, tier_due, questions_by_tier, effective_samples, work_unit,
  units_of, due_questions, selected_languages, build_plan, prompt_of, compute_request_hash,
  plan_temperature, prompt_version, tier_models,
}

-- The depth of sampling of a tier in a run.
abbrev pub depth : RunKind → DensityTier → ℕ
depth baseline tier = baseline_n_samples
depth operating tier = samples_by_tier tier

-- The question, the model, the language and the sample number that a unit stands for.
pub record IsPlanned (rt : Runtime) (input : PlanInput) (u : PlannedWorkUnit) : Type 0 where
  pub question : Question
  pub asked : Memᴰ question input.questions
  pub active : question.active ≡ true
  pub question_id : u.question_id ≡ question.id
  pub model : ModelRef
  pub offered : Memᴰ model input.models
  pub enabled : model.enabled ≡ true
  pub not_escalation : model.id ≢ escalation_judge_model
  pub model_id : u.model_id ≡ model.id
  pub cheap :
      input.kind ≡ operating → question.density_tier ≡ longtail → model.is_cheap_monitor ≡ true
  pub language : Memᴰ u.language (selected_languages rt input)
  pub sample : u.sample_idx < effective_samples model (depth input.kind question.density_tier)
  pub hash :
      u.request_hash
      ≡ compute_request_hash rt model.id u.language
          (rt.nfc_trim (prompt_of input question u.language))
          plan_temperature
          prompt_version

module _ (rt : Runtime) (input : PlanInput) where
  -- A due question is active, and has its tier's depth and restriction.
  record IsDue (d : DueQuestion) : Type 0 where
    asked : Memᴰ d.question input.questions
    active : d.question.active ≡ true
    samples : d.n_samples ≡ depth input.kind d.question.density_tier
    cheap : input.kind ≡ operating → d.question.density_tier ≡ longtail → d.cheap_model_only ≡ true

  abbrev IsAsked : DensityTier → Question → Type 0
  IsAsked tier q = Memᴰ q input.questions × (q.active ≡ true) × (q.density_tier ≡ tier)

  questions_by_tier-IsAsked : All (λ g. All (IsAsked g.0) g.1) (questions_by_tier input.questions)
  unfolding questions_by_tier
  questions_by_tier-IsAsked =
      group_from-All tier_eq tier_eq_sound IsAsked (λ q. q.density_tier) _ []
        (All-weaken _ _ _ (λ q h. (h.0, h.1, refl))
          (All-both (λ q. Memᴰ q input.questions) (λ q. q.active ≡ true) _
            (All-keep _ (λ q. q.active) _ (All-self input.questions))
            (All-keep_test (λ q. q.active) input.questions)))
        tt

  as_due-IsDue :
      {tier : DensityTier} (config : TierConfig)
      → config.n_samples ≡ depth input.kind tier
      → (input.kind ≡ operating → tier ≡ longtail → config.cheap_model_only ≡ true)
      → (q : Question) → IsAsked tier q
      → IsDue (as_due config q)
  as_due-IsDue config samples cheap q (asked, active, same) = record {
    asked = asked;
    active = active;
    samples = rw same samples;
    cheap = λ o t. cheap o (sym same ∙ t);
  }

  tier_slice-IsAsked :
      (tier : DensityTier) (qs : List Question)
      → All (IsAsked tier) qs
      → All (IsAsked tier) (tier_slice rt input tier qs)
  unfolding tier_slice
  tier_slice-IsAsked tier qs h =
      pick_slice-All (IsAsked tier) _ _ _ (All-sort (IsAsked tier) _ qs h)

  depth_baseline :
      (tier : DensityTier)
      → is_baseline input.kind ≡ true
      → baseline_n_samples ≡ depth input.kind tier
  depth_baseline tier h = ground arith

  depth_operating :
      (tier : DensityTier)
      → is_baseline input.kind ≡ false
      → samples_by_tier tier ≡ depth input.kind tier
  depth_operating tier h = ground arith

  due_of_tier-IsDue :
      (tier : DensityTier) (qs : List Question)
      → All (IsAsked tier) qs
      → All IsDue (due_of_tier rt input (tier, qs))
  unfolding due_of_tier
  due_of_tier-IsDue tier qs h = elim (Bool-cases (is_baseline input.kind)) [
    | inl base ↦
        rw (base, due_of_tier)
          (all_due (baseline_tier_config tier) (depth_baseline tier base) (λ o. ground arith) qs h)
    | inr oper ↦ elim (Bool-cases (tier_due input tier)) [
      | inl due ↦
          rw (oper, due_of_tier, due)
            (all_due (tier_configs tier) (depth_operating tier oper) (λ o t. rw t) _
              (tier_slice-IsAsked tier qs h))
      | inr idle ↦ rw (oper, due_of_tier, idle) tt
    ]
  ]
    where
      all_due :
          (config : TierConfig)
          → config.n_samples ≡ depth input.kind tier
          → (input.kind ≡ operating → tier ≡ longtail → config.cheap_model_only ≡ true)
          → (xs : List Question) → All (IsAsked tier) xs
          → All IsDue (map (as_due config) xs)
      all_due config samples cheap xs hx =
          All-map IsDue (as_due config) xs
            (All-weaken _ _ xs (λ q a. as_due-IsDue config samples cheap q a) hx)

  due_questions-IsDue : All IsDue (due_questions rt input)
  unfolding due_questions
  due_questions-IsDue =
      All-flat_map IsDue _ _
        (All-weaken _ _ _ (λ g h. due_of_tier-IsDue g.0 g.1 h) questions_by_tier-IsAsked)

  -- A model that an operating or a baseline run may use.
  abbrev IsOffered : ModelRef → Type 0
  IsOffered m = Memᴰ m input.models × (is_candidate m ≡ true)

  capped_models-IsOffered : All IsOffered (capped_models rt input)
  unfolding capped_models
  capped_models-IsOffered = All-take IsOffered _ _ (
      All-sort IsOffered _ _ (
        All-both (λ m. Memᴰ m input.models) (λ m. is_candidate m ≡ true) _
          (All-keep _ is_candidate _ (All-self input.models))
          (All-keep_test is_candidate input.models)))

  -- A model that a due question is asked of.
  abbrev IsUsable : DueQuestion → ModelRef → Type 0
  IsUsable d m = IsOffered m × (d.cheap_model_only ≡ true → m.is_cheap_monitor ≡ true)

  tier_models-IsUsable :
      (d : DueQuestion) → All (IsUsable d) (tier_models d (capped_models rt input))
  tier_models-IsUsable d = elim (Bool-cases d.cheap_model_only) [
    | inl cheap ↦ rw cheap (
        All-weaken _ _ _ (λ m h. (h.0, λ _. h.1))
          (All-both IsOffered (λ m. m.is_cheap_monitor ≡ true) _
            (All-keep IsOffered (λ m. m.is_cheap_monitor) _ capped_models-IsOffered)
            (All-keep_test (λ (m : ModelRef). m.is_cheap_monitor) (capped_models rt input))))
    | inr any ↦ rw any (All-weaken _ _ _ (λ m h. (h, λ e. cc)) capped_models-IsOffered)
  ]

  work_unit-IsPlanned :
      (d : DueQuestion)
      → IsDue d
      → (m : ModelRef) → IsUsable d m
      → (lang : String) → Memᴰ lang (selected_languages rt input)
      → (i : ℕ) → (0 ≤ i) × (i < 0 + effective_samples m d.n_samples)
      → IsPlanned rt input (work_unit rt input d.question m lang i)
  unfolding work_unit
  work_unit-IsPlanned d h m ((offered, candidate), cheap) lang hl i hi = record {
    question = d.question;
    asked = h.asked;
    active = h.active;
    question_id = refl;
    model = m;
    offered = offered;
    enabled = ground arith;
    not_escalation = ground (arith, text_eq_iff m.id escalation_judge_model);
    model_id = refl;
    cheap = λ o t. cheap (h.cheap o t);
    language = hl;
    sample = rw (← h.samples) (omega arith);
    hash = refl;
  }

  units_of-IsPlanned :
      (d : DueQuestion)
      → IsDue d
      → All
          (IsPlanned rt input)
          (units_of rt input (selected_languages rt input) (capped_models rt input) d)
  unfolding units_of
  units_of-IsPlanned d h =
      All-flat_map (IsPlanned rt input) _ (tier_models d (capped_models rt input)) (
        All-weaken _ _ _
          (λ m hm. All-flat_map (IsPlanned rt input) _ (selected_languages rt input) (
            All-weaken _ _ _
              (λ lang hl. All-map (IsPlanned rt input) (work_unit rt input d.question m lang) _ (
                All-weaken _ _ _ (λ i hi. work_unit-IsPlanned d h m hm lang hl i hi)
                  (All-count_up 0 (effective_samples m d.n_samples))))
              (All-self (selected_languages rt input))))
          (tier_models-IsUsable d))

-- Each work unit of a plan asks an active question of the input, in a selected language, of an
-- enabled model that is not kept for escalated judgments; its sample number is below the depth of
-- the question's tier (below 1 for a model that is no chat model), its hash is that of its own
-- model, language and prompt, and in an operating run a longtail question goes to cheap monitors only.
pub build_plan-IsPlanned :
    (rt : Runtime) (input : PlanInput) → All (IsPlanned rt input) (build_plan rt input).work_units
unfolding build_plan
build_plan-IsPlanned rt input =
    All-flat_map (IsPlanned rt input) _ _
      (All-weaken _ _ _ (units_of-IsPlanned rt input) (due_questions-IsDue rt input))
