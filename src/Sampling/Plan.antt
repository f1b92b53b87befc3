-- ===== src/Sampling/Plan.antt =====
-- The work units of one cycle: src/sampling/plan.ts. What the runtime computes, the order of
-- texts, the NFC form, decimals and SHA-256, is passed as a `Runtime`.
pub mod Bounds
pub mod Units
pub mod Coverage
pub mod Cursor
use Prim.Native.String
use aeo_geo_optimization.Common.{
  ℕ, ◌+◌, ◌-◌, min, max, String, Bool, true, false, not, ◌&&◌, List, [], ◌∷◌, ◌++◌, Option, none,
  some, Ordering, ltb, text_eq, ◌==◌, if◌then◌else◌, take, length, keep, flat_map, count_up, map,
}
use aeo_geo_optimization.Common.Int.{ℤ, pos, negsuc, leb_ℤ, ◌-ℤ◌}
use aeo_geo_optimization.Common.Sort.{sort}
use aeo_geo_optimization.Common.OrderedMap.{get, set, group_from}
use aeo_geo_optimization.Domain.{
  DensityTier, core, secondary, longtail, tier_eq, Question, ModelRef, CustomerLanguage, RunKind,
  is_baseline, Budget, Modality, is_chat, WorkUnitStatus, pending,
}
use aeo_geo_optimization.Sampling.Density.{
  TierConfig, tier_configs, baseline_tier_config, cycle_period_by_tier,
}
use aeo_geo_optimization.Sampling.Rotation.{
  RotationState, select_slice_index, pick_slice, default_num_slices,
}
use aeo_geo_optimization.Sampling.Languages.{select_languages_with_meta, WeightedLanguageSelection}

pub record Runtime : Type 0 where
  pub locale_compare : String → String → Ordering
  pub nfc_trim : String → String
  pub to_fixed_6 : ℕ → String
  pub sha256_hex : String → String

-- The model of src/judge/llmJudge.ts that is kept for escalated judgments.
abbrev pub escalation_judge_model : String
escalation_judge_model = "gemini-2.5-pro"

-- 0.7, in tenths.
abbrev pub plan_temperature : ℕ
plan_temperature = 7

abbrev pub prompt_version : String
prompt_version = "v1"

pub record PlanInput : Type 0 where
  pub run_id : String
  pub customer_id : String
  pub kind : RunKind
  pub questions : List Question
  pub models : List ModelRef
  pub languages : List CustomerLanguage
  pub budget : Budget
  pub current_cycle_index : ℕ
  pub rotation_states : List (DensityTier × RotationState)
  pub build_prompt : Option (Question → String → String)

pub record PlannedWorkUnit : Type 0 where
  pub run_id : String
  pub question_id : String
  pub model_id : String
  pub language : String
  pub sample_idx : ℕ
  pub status : WorkUnitStatus
  pub response_raw_id : Option String
  pub prompt : String
  pub request_hash : String
  pub temperature : ℕ
  pub prompt_version : String

pub record PlanOutput : Type 0 where
  pub work_units : List PlannedWorkUnit
  pub n_total : ℕ
  pub next_rotation_states : List (DensityTier × RotationState)
  pub language_trim_count : ℕ

pub record DueQuestion : Type 0 where
  pub question : Question
  pub n_samples : ℕ
  pub cheap_model_only : Bool

-- `[Language: ${language}]\n\n${question.text}`
unfoldable pub build_default_prompt : Question → String → String
build_default_prompt question language =
    String.◌++◌ (String.◌++◌ "[Language: " language) (String.◌++◌ "]\n\n" question.text)

unfoldable pub compute_request_hash : Runtime → String → String → String → ℕ → String → String
compute_request_hash rt model_id language norm_prompt temperature version =
    let bar = λ (a : String) (b : String). String.◌++◌ a (String.◌++◌ "|" b) in
    rt.sha256_hex
      (bar model_id (bar language (bar norm_prompt (bar (rt.to_fixed_6 temperature) version))))

-- Enabled, and not kept for escalated judgments.
abbrev pub is_candidate : ModelRef → Bool
is_candidate m = m.enabled && not (text_eq m.id escalation_judge_model)

-- For a baseline the cheap monitors come last, for an operating run first; then by id.
abbrev role_order : Bool → Bool → Bool → Ordering → Ordering
role_order baseline true false tie = if baseline then Ordering.gt else Ordering.lt
role_order baseline false true tie = if baseline then Ordering.lt else Ordering.gt
role_order baseline _ _ tie = tie

abbrev pub by_role : Runtime → Bool → ModelRef → ModelRef → Ordering
by_role rt baseline a b =
    role_order baseline a.is_cheap_monitor b.is_cheap_monitor (rt.locale_compare a.id b.id)

unfoldable pub capped_models : Runtime → PlanInput → List ModelRef
capped_models rt input =
    let enabled_models = keep is_candidate input.models in
    let sorted_models = sort (by_role rt (is_baseline input.kind)) enabled_models in
    take input.budget.max_models sorted_models

-- `rotationStates.get(tier) ?? {...}`
abbrev pub state_of : PlanInput → DensityTier → RotationState
state_of input tier = elim (get tier_eq tier input.rotation_states) [
  | some s ↦ s
  | none ↦ record {
    customer_id = input.customer_id;
    density_tier = tier;
    last_cycle_index = negsuc 0;
  }
]

abbrev as_due : TierConfig → Question → DueQuestion
as_due config q = record {
  question = q;
  n_samples = config.n_samples;
  cheap_model_only = config.cheap_model_only;
}

-- The tier's gap reaches its period. (The loop goes on to the next tier if `gap < cyclePeriod`.)
abbrev pub tier_due : PlanInput → DensityTier → Bool
tier_due input tier =
    let gap = pos input.current_cycle_index -ℤ (state_of input tier).last_cycle_index in
    leb_ℤ (pos (cycle_period_by_tier tier)) gap

-- The slice of a tier's questions that an operating run asks; `length || 1` is never 0.
unfoldable pub tier_slice : Runtime → PlanInput → DensityTier → List Question → List Question
tier_slice rt input tier tier_questions =
    let len = if length tier_questions == 0 then 1 else length tier_questions in
    let num_slices = min (default_num_slices tier) len in
    let slice_idx = select_slice_index input.current_cycle_index tier num_slices in
    let by_id = λ (a : Question) (b : Question). rt.locale_compare a.id b.id in
    pick_slice (sort by_id tier_questions) num_slices slice_idx

-- One round of the loop over `questionsByTier`: the questions that it adds.
unfoldable pub due_of_tier : Runtime → PlanInput → DensityTier × List Question → List DueQuestion
unfolding tier_slice ◌-ℤ◌
due_of_tier rt input (tier, tier_questions) =
    if is_baseline input.kind
    then map (as_due (baseline_tier_config tier)) tier_questions
    else (if tier_due input tier
        then map (as_due (tier_configs tier)) (tier_slice rt input tier tier_questions)
        else [])

-- The map `questionsByTier` of the active questions.
unfoldable pub questions_by_tier : List Question → List (DensityTier × List Question)
unfolding group_from
questions_by_tier questions =
    group_from tier_eq (λ q. q.density_tier) (keep (λ (q : Question). q.active) questions) []

-- The same round: the tier that it adds to `tiersScheduled`, behind the same check.
abbrev pub scheduled_of_tier : PlanInput → DensityTier × List Question → List DensityTier
scheduled_of_tier input (tier, tier_questions) =
    if is_baseline input.kind then [] else (if tier_due input tier then tier ∷ [] else [])

unfoldable pub tiers_scheduled : PlanInput → List DensityTier
unfolding questions_by_tier ◌-ℤ◌
tiers_scheduled input = flat_map (scheduled_of_tier input) (questions_by_tier input.questions)

-- The prompt of a question, by the caller's builder or the default one.
abbrev pub prompt_of : PlanInput → Question → String → String
prompt_of input q lang = elim input.build_prompt [
  | some build ↦ build q lang
  | none ↦ build_default_prompt q lang
]

abbrev pub effective_samples : ModelRef → ℕ → ℕ
effective_samples model n = if is_chat model.modality then n else 1

unfoldable pub work_unit : Runtime → PlanInput → Question → ModelRef → String → ℕ → PlannedWorkUnit
unfolding compute_request_hash build_default_prompt
work_unit rt input question model lang sample_idx =
    let prompt = prompt_of input question lang in
    let norm_prompt = rt.nfc_trim prompt in
    record {
      run_id = input.run_id;
      question_id = question.id;
      model_id = model.id;
      language = lang;
      sample_idx = sample_idx;
      status = pending;
      response_raw_id = none;
      prompt = prompt;
      request_hash =
          compute_request_hash rt model.id lang norm_prompt plan_temperature prompt_version;
      temperature = plan_temperature;
      prompt_version = prompt_version;
    }

-- The models that a due question is asked of.
abbrev pub tier_models : DueQuestion → List ModelRef → List ModelRef
tier_models due capped =
    if due.cheap_model_only then keep (λ (m : ModelRef). m.is_cheap_monitor) capped else capped

-- The three nested loops of one due question.
unfoldable pub units_of :
    Runtime → PlanInput → List String → List ModelRef → DueQuestion → List PlannedWorkUnit
unfolding work_unit
units_of rt input selected capped due =
    flat_map
      (λ model.
        flat_map
          (λ lang.
            map (work_unit rt input due.question model lang)
              (count_up 0 (effective_samples model due.n_samples)))
          selected)
      (tier_models due capped)

-- The loop that advances the cursor of each scheduled tier.
unfoldable pub advance_tiers :
    PlanInput
    → List DensityTier
    → List (DensityTier × RotationState)
    → List (DensityTier × RotationState)
unfolding set get
advance_tiers input [] states = states
advance_tiers input (tier ∷ tiers) states =
    let next = record (state_of input tier) { last_cycle_index = pos input.current_cycle_index } in
    advance_tiers input tiers (set tier_eq tier next states)

abbrev pub selected_languages : Runtime → PlanInput → List String
selected_languages rt input =
    (select_languages_with_meta rt.locale_compare input.languages input.budget.max_languages
      (is_baseline input.kind)).selected

unfoldable pub due_questions : Runtime → PlanInput → List DueQuestion
unfolding due_of_tier questions_by_tier
due_questions rt input = flat_map (due_of_tier rt input) (questions_by_tier input.questions)

unfoldable pub build_plan : Runtime → PlanInput → PlanOutput
unfolding select_languages_with_meta capped_models due_questions units_of advance_tiers
    tiers_scheduled
build_plan rt input =
    let selection =
      select_languages_with_meta rt.locale_compare input.languages input.budget.max_languages
        (is_baseline input.kind) in
    let units =
      flat_map (units_of rt input selection.selected (capped_models rt input))
        (due_questions rt input) in
    record {
      work_units = units;
      n_total = length units;
      next_rotation_states = advance_tiers input (tiers_scheduled input) [];
      language_trim_count = selection.trimmed_count;
    }
