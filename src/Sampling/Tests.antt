-- ===== src/Sampling/Tests.antt =====
-- Runs of src/sampling on small inputs, and its theorems at them.
use mathlib.Core.List.{Memᴰ}
use aeo_geo_optimization.Common.{
  ◌⊎◌, ◌↔◌, text_eq, ℕ, ◌+◌, ◌*◌, ◌≤◌, ◌<◌, ◌≡◌, ◌↔◌, refl, String, true, false, List, [], ◌∷◌, map,
  none, Ordering, compare, arith, All, take, drop, length, keep, min, some, ◌%◌,
}
use Prim.Native.String
use aeo_geo_optimization.Common.OrderedMap.{get}
use aeo_geo_optimization.Common.Sort.{sort}
use aeo_geo_optimization.Domain.{
  DensityTier, Question, ModelRef, CustomerLanguage, core, secondary, longtail, chat, baseline,
  operating, tier_eq,
}
use aeo_geo_optimization.Sampling.Rotation.{pick_slice, select_slice_index, is_rotation_due}
use aeo_geo_optimization.Sampling.Rotation.Slices.{slices_from, slices_partition}
use aeo_geo_optimization.Sampling.Rotation.Cadence.{
  state_before, state_since, runs_iff, question_asked,
}
use aeo_geo_optimization.Sampling.Languages.{
  select_languages_with_meta, sort_by_weight, select_languages,
}
use aeo_geo_optimization.Sampling.Languages.Selection.{IsHeavier, select_languages_heaviest}
use aeo_geo_optimization.Sampling.Plan.{
  capped_models, selected_languages, Runtime, PlanInput, build_plan, work_unit,
}
use aeo_geo_optimization.Sampling.Plan.Units.{IsPlanned, build_plan-IsPlanned}
use aeo_geo_optimization.Sampling.Plan.Bounds.{operating_n_total_bounded}
use aeo_geo_optimization.Sampling.Plan.Coverage.{baseline_complete}
use aeo_geo_optimization.Sampling.Plan.Cursor.{StartsAt, Moves, advanced, next_rotation_states_lem}

-- A runtime whose order compares lengths and whose hash is the text itself.
abbrev by_length : String → String → Ordering
by_length a b = compare (String.len a) (String.len b)

abbrev test_runtime : Runtime
test_runtime = record {
  locale_compare = by_length;
  nfc_trim = λ s. s;
  to_fixed_6 = λ n. "0.700000";
  sha256_hex = λ s. s;
}

abbrev question_core : Question
question_core = record {
  id = "q1";
  customer_id = "c";
  text = "best companion app?";
  language = "en";
  funnel_stage = none;
  density_tier = core;
  active = true;
}

abbrev question_longtail : Question
question_longtail = record question_core { id = "q10"; density_tier = longtail }

abbrev question_off : Question
question_off = record question_core { id = "q100"; active = false }

abbrev flash : ModelRef
flash = record {
  id = "gemini-2.5-flash";
  provider = "gemini";
  modality = chat;
  capabilities = [];
  is_cheap_monitor = false;
  is_judge = false;
  input_usd_per_mtok = 300_000;
  output_usd_per_mtok = 2_500_000;
  enabled = true;
}

abbrev flash_lite : ModelRef
flash_lite = record flash { id = "gemini-2.5-flash-lite"; is_cheap_monitor = true }

abbrev pro : ModelRef
pro = record flash { id = "gemini-2.5-pro" }

abbrev korean : CustomerLanguage
korean = record { customer_id = "c"; language = "ko"; weight = 1000 }

abbrev english : CustomerLanguage
english = record { customer_id = "c"; language = "en"; weight = 1500 }

abbrev thai : CustomerLanguage
thai = record { customer_id = "c"; language = "th"; weight = 300 }

abbrev languages : List CustomerLanguage
languages = korean ∷ thai ∷ english ∷ []

abbrev baseline_input : PlanInput
baseline_input = record {
  run_id = "r";
  customer_id = "c";
  kind = baseline;
  questions = question_longtail ∷ question_off ∷ question_core ∷ [];
  models = pro ∷ flash ∷ flash_lite ∷ [];
  languages = languages;
  budget = record {
    customer_id = "c";
    max_models = 2;
    max_samples = 5;
    max_languages = 1;
    weekly_usd_cap = 5_000_000;
    monthly_usd_cap = 20_000_000;
  };
  current_cycle_index = 0;
  rotation_states = [];
  build_prompt = none;
}

abbrev operating_input : PlanInput
operating_input = record baseline_input { kind = operating }

baseline_units : (build_plan test_runtime baseline_input).n_total ≡ 24
unfolding build_plan sort text_eq
baseline_units = refl

operating_units : (build_plan test_runtime operating_input).n_total ≡ 10
unfolding build_plan sort text_eq pick_slice
operating_units = refl

abbrev numbers : List ℕ
numbers = 1 ∷ 2 ∷ 3 ∷ 4 ∷ 5 ∷ []

abbrev names : List String
names = "a" ∷ "b" ∷ "d" ∷ []

slices_run : pick_slice numbers 4 2 ≡ 5 ∷ []
unfolding pick_slice
slices_run = refl

slices_partition_example : slices_from numbers 4 4 0 ≡ numbers
slices_partition_example = slices_partition numbers 4 (omega arith)

runs_iff_example :
    (is_rotation_due (1 + 3) (state_since "c" secondary 1 3) ≡ true) ↔ (◌≡◌ {A = ℕ} ((3 + 1) % 2) 0)
runs_iff_example = runs_iff "c" secondary 1 3

question_asked_example :
    (n : ℕ) × (5 ≤ n)
    × (n < 5 + 2 * 2)
    × (is_rotation_due n (state_before "c" secondary n) ≡ true)
    × Memᴰ {A = String} "b" (pick_slice names 2 (select_slice_index n secondary 2))
question_asked_example =
    question_asked {T = String} "c" secondary names 2 5 (omega arith) (Memᴰ.tail (Memᴰ.head refl))

select_languages_heaviest_example :
    let sorted = sort_by_weight by_length languages in
    (select_languages by_length languages 2 ≡ map (λ l. l.language) (take 2 sorted))
    × All (λ x. All (IsHeavier x) (drop 2 sorted)) (take 2 sorted)
    × (length (select_languages by_length languages 2) ≡ min 2 (length languages))
select_languages_heaviest_example = select_languages_heaviest by_length languages 2

build_plan-IsPlanned_example :
    All
      (IsPlanned test_runtime operating_input)
      (build_plan test_runtime operating_input).work_units
build_plan-IsPlanned_example = build_plan-IsPlanned test_runtime operating_input

operating_n_total_bounded_example :
    ((build_plan test_runtime operating_input).n_total
      ≤ length (keep (λ (q : Question). q.active) operating_input.questions) * (2 * (1 * 5)))
    × ((build_plan test_runtime operating_input).n_total
        ≡ length (build_plan test_runtime operating_input).work_units)
operating_n_total_bounded_example = operating_n_total_bounded test_runtime operating_input refl

flash_lite_capped : Memᴰ flash_lite (capped_models test_runtime baseline_input)
unfolding capped_models sort text_eq
flash_lite_capped = Memᴰ.tail (Memᴰ.head refl)

korean_selected : Memᴰ {A = String} "ko" (selected_languages test_runtime baseline_input)
unfolding select_languages_with_meta sort
korean_selected = Memᴰ.tail (Memᴰ.head refl)

baseline_complete_example :
    Memᴰ
      (work_unit test_runtime baseline_input question_longtail flash_lite "ko" 2)
      (build_plan test_runtime baseline_input).work_units
baseline_complete_example =
    baseline_complete test_runtime baseline_input 2 refl (Memᴰ.head refl) refl flash_lite_capped
      korean_selected (omega arith)

next_rotation_states_lem_example :
    ((get tier_eq core (build_plan test_runtime operating_input).next_rotation_states
        ≡ some (advanced operating_input core))
      ↔ Moves operating_input core)
    × ((get tier_eq core (build_plan test_runtime operating_input).next_rotation_states
          ≡ some (advanced operating_input core))
        ⊎ (get tier_eq core (build_plan test_runtime operating_input).next_rotation_states ≡ none))
next_rotation_states_lem_example = next_rotation_states_lem test_runtime operating_input core

starts : (tier : DensityTier) → StartsAt operating_input tier
unfolding get
starts tier = refl
