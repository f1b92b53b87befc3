-- ===== src/Pipeline/Tests.antt =====
-- A customer with two models and one question, and runs of its units.
use Prim.Native.String
use aeo_geo_optimization.Common.{
  ◌+◌, ℕ, ◌≡◌, ◌≢◌, refl, String, Bool, true, false, Option, none, some, List, [], ◌∷◌, All,
  compare, text_eq, arith, if◌then◌else◌, ◌&&◌,
}
use aeo_geo_optimization.Common.Int.{pos}
use aeo_geo_optimization.Domain.{
  chat, ModelRef, RunKind, baseline, operating, DensityTier, core, Question, Budget, pending,
  tier_eq,
}
use aeo_geo_optimization.Guardrails.{Provenance, GuardrailStatus, evidence_required_gate}
use aeo_geo_optimization.Cost.Budget.{within, assert_within_cap_or_new}
use aeo_geo_optimization.Sampling.Plan.{Runtime, PlannedWorkUnit}
use aeo_geo_optimization.Pipeline.Store.{
  Db, returned, query, ◌>>=◌, ◌>>◌, WorkUnitRow, Payload, CacheEntry, running, failed, over_budget,
  RunRow, check_cache, store_cache,
}
use aeo_geo_optimization.Pipeline.Store.Runs.{NoFaults, Outcome, is_returned}
use aeo_geo_optimization.Pipeline.Store.Cycles.{
  Resumable, find_cursor, read_rotation_state, advance_rotation_state,
}
use aeo_geo_optimization.Pipeline.Store.Cache.{
  checks, changes, unused, check_cache-once, store_cache-old,
}
use aeo_geo_optimization.Pipeline.Store.Cursors.{advance-read}
use aeo_geo_optimization.Pipeline.Response.{
  AdapterUsage, generated, failed, rate_limited, Mention, RunResponseDeps, cap_check, run_response,
}
use aeo_geo_optimization.Pipeline.Response.Guarantees.{
  HasEvidence, spending, run_response-not_within,
}
use aeo_geo_optimization.Pipeline.Response.Accounts.{Accounted, run_response-Accounted}
use aeo_geo_optimization.Pipeline.Response.Settled.{Settled}
use aeo_geo_optimization.Pipeline.Response.Resolves.{run_response-settles}
use aeo_geo_optimization.Pipeline.Loop.{
  Adapter, inline, RunCycleDeps, catching, unit_key, payload_of, response_deps, execute_units,
}
use aeo_geo_optimization.Pipeline.Loop.Complete.{AllHave, AllOver, execute_units-completes}
use aeo_geo_optimization.Pipeline.Cycle.{run_cycle, by_resumable}
use aeo_geo_optimization.Pipeline.Cycle.Guarantees.{
  FindsEvidence, run_cycle-HasEvidence, denominators, resumed-frozen,
}
use aeo_geo_optimization.Pipeline.Cycle.Idle.{activity, operating_cycle-idle}
use aeo_geo_optimization.Pipeline.Aggregate.{Counts}

abbrev runtime : Runtime
runtime = record {
  locale_compare = λ a b. compare (String.len a) (String.len b);
  nfc_trim = λ s. s;
  to_fixed_6 = λ n. "0.700000";
  sha256_hex = λ s. s;
}

abbrev model : String → String → Bool → ModelRef
model id provider cheap = record {
  id = id;
  provider = provider;
  modality = chat;
  capabilities = [];
  is_cheap_monitor = cheap;
  is_judge = false;
  input_usd_per_mtok = 1;
  output_usd_per_mtok = 1;
  enabled = true;
}

abbrev question : Question
question = record {
  id = "q1";
  customer_id = "c1";
  text = "which shop";
  language = "en";
  funnel_stage = none;
  density_tier = core;
  active = true;
}

abbrev budget : ℕ → Budget
budget weekly = record {
  customer_id = "c1";
  max_models = 2;
  max_samples = 5;
  max_languages = 1;
  weekly_usd_cap = weekly;
  monthly_usd_cap = 1_000_000;
}

abbrev usage : AdapterUsage
usage = record { input_tokens = 10; output_tokens = 20; usd = 30; cache_hit = false }

-- The judge finds the brand at the start of the answer.
abbrev mention : Mention
mention = record {
  verdict = record {
    brand_mentioned = true;
    brand_rank = some 1;
    sentiment = none;
    competitors_found = [];
    evidence = some (record { quote = "acme"; start = pos 0; end = pos 4 });
    provenance = Provenance.judge;
    guardrail_status = GuardrailStatus.pass;
    downgrade_reason = none;
  };
  citation_present = false;
  recommendation_present = false;
  judge_model_id = some "judge";
  judge_usage = some usage;
}

-- One provider answers, a second one is limited.
abbrev adapters : String → Option Adapter
adapters provider =
    if text_eq provider "p1"
    then some (record { provider = "p1"; generate = λ before req. generated "acme is good" usage })
    else (if text_eq provider "p2"
        then some
            (record { provider = "p2"; generate = λ before req. failed rate_limited true none })
        else none)

abbrev deps : RunKind → ℕ → RunCycleDeps ℕ
deps kind weekly = record {
  customer_id = "c1";
  kind = kind;
  executor = inline;
  runtime = runtime;
  uuid = λ n. "run";
  questions = question ∷ [];
  models = model "m1" "p1" true ∷ model "m2" "p2" false ∷ [];
  languages = (record { customer_id = "c1"; language = "en"; weight = 1000 }) ∷ [];
  budget = budget weekly;
  adapters = adapters;
  judge_provider = "judge";
  extract_mention = λ id status answer. mention;
  should_ground = λ k. false;
  surface_usd_per_call = λ s. 0;
  cost_reader = record { get_rolling_spend_usd = λ customer days. some 100 };
  cache_cutoff = none;
  gates = evidence_required_gate ∷ [];
  brand_name = "acme";
  brand_aliases = [];
  is_new_customer = false;
  current_cycle_index = 0;
  find_prior_judgment_by_hash = none;
  assemble_report = λ id db. some 1;
}

abbrev planned_unit : String → ℕ → PlannedWorkUnit
planned_unit model_id sample_idx = record {
  run_id = "run";
  question_id = "q1";
  model_id = model_id;
  language = "en";
  sample_idx = sample_idx;
  status = pending;
  response_raw_id = none;
  prompt = "which shop";
  request_hash = "h";
  temperature = 7;
  prompt_version = "v1";
}

abbrev row : PlannedWorkUnit → WorkUnitRow
row wu = record { key = unit_key "run" wu; status = pending; response_raw_id = none }

abbrev run_row : RunRow
run_row = record {
  id = "run";
  customer_id = "c1";
  kind = baseline;
  status = running;
  n_samples = 5;
  temperature = 7;
  n_total = some 3;
  started_at = some 0;
  finished_at = none;
}

-- A model that answers, one that is limited and one without an adapter.
abbrev three_units : List PlannedWorkUnit
three_units = planned_unit "m1" 0 ∷ planned_unit "m2" 0 ∷ planned_unit "m3" 0 ∷ []

abbrev db : Db
db = record {
  runs = run_row ∷ [];
  cursors = [];
  jobs = [];
  units = row (planned_unit "m1" 0) ∷ row (planned_unit "m2" 0) ∷ row (planned_unit "m3" 0) ∷ [];
  raws = [];
  calls = [];
  judgments = [];
  cache = [];
  seen_in_run = [];
  requests = [];
  next_id = 1;
  faults = [];
  clock = 100_000_000;
}

abbrev baseline_deps : RunCycleDeps ℕ
baseline_deps = deps baseline 1_000_000

finds : FindsEvidence baseline_deps
finds find hash run_id later e h mentioned = ground arith

run_cycle-HasEvidence_example : All HasEvidence (run_cycle baseline_deps db).1.judgments
run_cycle-HasEvidence_example = run_cycle-HasEvidence baseline_deps [] db refl tt finds tt

-- The first two units end in the loop, the third has no adapter, and the second was limited.
loop_fails : (execute_units baseline_deps "run" three_units false db).0 ≡ returned failed
unfolding execute_units query ◌>>=◌ ◌>>◌ catching text_eq
loop_fails = refl

failed_differs : returned failed ≢ returned over_budget
failed_differs e = ground arith

not_over_budget : (execute_units baseline_deps "run" three_units false db).0 ≢ returned over_budget
not_over_budget = rw loop_fails failed_differs

all_have : AllHave baseline_deps "run" three_units db
unfolding text_eq
all_have = (refl, (refl, (refl, tt)))

execute_units-completes_example :
    (is_returned (execute_units baseline_deps "run" three_units false db).0 ≡ true)
    × AllOver baseline_deps "run" three_units
        (execute_units baseline_deps "run" three_units false db).1
execute_units-completes_example =
    execute_units-completes baseline_deps "run" three_units db refl all_have not_over_budget

abbrev payload : Payload
payload = payload_of baseline_deps "run" (planned_unit "m2" 0)

abbrev limited : Adapter
limited = record { provider = "p2"; generate = λ before req. failed rate_limited true none }

abbrev limited_deps : RunResponseDeps
limited_deps = response_deps baseline_deps limited

run_response-settles_example :
    Settled payload.key (run_response payload limited_deps db).1
    × NoFaults (run_response payload limited_deps db).1
unfolding text_eq
run_response-settles_example = run_response-settles payload limited_deps db refl refl

run_response-Accounted_example :
    Outcome
      (λ _. Accounted)
      Accounted
      (run_response payload limited_deps db).0
      (run_response payload limited_deps db).1
run_response-Accounted_example = run_response-Accounted payload limited_deps db (refl, refl)

-- The spending of 100 is over a cap of 50.
abbrev poor_deps : RunResponseDeps
poor_deps = response_deps (deps baseline 50) limited

poor_over : cap_check payload poor_deps ≢ within
unfolding assert_within_cap_or_new
poor_over e = ground arith

run_response-not_within_example : spending (run_response payload poor_deps db).1 ≡ spending db
run_response-not_within_example = run_response-not_within payload poor_deps db poor_over

abbrev resumable : Resumable
resumable = record { id = "run"; n_total = 3 }

resumed-frozen_example :
    denominators (by_resumable baseline_deps (some resumable) db).1 ≡ denominators db
resumed-frozen_example = resumed-frozen baseline_deps resumable db

no_cursor : (tier : DensityTier) → find_cursor "c1" tier db.cursors ≡ 0
no_cursor tier = refl

operating_cycle-idle_example : activity (run_cycle (deps operating 1_000_000) db).1 ≡ activity db
operating_cycle-idle_example =
    operating_cycle-idle (deps operating 1_000_000) db refl refl no_cursor

-- An entry of the first hour, in tables with nothing else.
abbrev entry : CacheEntry
entry = record { request_hash = "h"; answer_text = "old"; created_at = 3_600_000 }

abbrev cached_db : Db
cached_db = record db { cache = entry ∷ [] }

store_cache-old_example :
    (check_cache none "h" "run" (store_cache "h" "new" cached_db).1).0 ≡ returned none
unfolding store_cache query text_eq
store_cache-old_example =
    store_cache-old none "h" "run" "new" entry cached_db (store_cache "h" "new" cached_db).1 refl
      refl (omega arith) refl

-- Another hash is checked in between, and a day goes by.
abbrev other_check : Db
other_check = (check_cache none "other" "run" (check_cache none "h" "run" cached_db).1).1

check_cache-once_example :
    check_cache none "h" "run" (record other_check { clock = 90_000_000 })
    ≡ (returned none, record other_check { clock = 90_000_000 })
check_cache-once_example =
    check_cache-once none none "h" "run" cached_db (record other_check { clock = 90_000_000 })
      (changes _ (checks none "other" "run" (unused refl)) refl)

abbrev young_db : Db
young_db = record cached_db { clock = 3_600_001 }

advance-read_example :
    (read_rotation_state "c1" core
      (advance_rotation_state "c1" core 4 (record db { faults = [] })).1).0
    ≡ returned (if text_eq "c1" "c1" && tier_eq core core then 4 else find_cursor "c1" core [])
advance-read_example = advance-read "c1" "c1" core core 4 db

abbrev report : String → Db → Option ℕ
report id later = some 1

abbrev counts : Counts
counts = record { pending = 0; done = 0; skipped = 0; error = 2 }

-- Five seconds pass, and no job ends.
abbrev five_seconds : Db → Db
five_seconds later = record later { clock = later.clock + 5000 }

abbrev waiting_db : Db
waiting_db = record db { faults = [] }
