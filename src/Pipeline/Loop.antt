-- ===== src/Pipeline/Loop.antt =====
-- The loop of a cycle over its units of work: src/pipeline/runCycle.ts, with the units of
-- src/pipeline/runResponse.ts. The report of src/metrics/report.ts is passed, none where it throws. The
-- hook for native reviews changes no table and throws nothing, and is left out.
pub mod Writes
pub mod Complete
pub mod Rows
pub mod Ends
pub mod Returns
use aeo_geo_optimization.Common.{
  ℕ, ◌+◌, String, Bool, true, false, not, ◌&&◌, ◌||◌, Option, none, some, List, [], ◌∷◌, map, keep,
  any, ◌==◌, text_eq, if◌then◌else◌,
}
use aeo_geo_optimization.Common.Int.{ℤ, pos}
use aeo_geo_optimization.Common.OrderedMap.{get}
use aeo_geo_optimization.Domain.{
  Modality, chat, serp, scrape, ModelRef, RunKind, baseline, operating, is_baseline, DensityTier,
  core, secondary, longtail, Question, CustomerLanguage, Budget,
}
use aeo_geo_optimization.Guardrails.{Gate, Sentiment, GuardrailStatus, abstain, Span}
use aeo_geo_optimization.Sampling.Rotation.{RotationState}
use aeo_geo_optimization.Sampling.Plan.{
  Runtime, PlanInput, PlannedWorkUnit, PlanOutput, plan_temperature, build_plan,
}
use aeo_geo_optimization.Cost.Budget.{
  CostReadPort, PreflightResult, preflight, build_plan_cost_breakdown, estimate_surface_plan_cost,
}
use aeo_geo_optimization.Pipeline.Store.{
  Db, M, Result, returned, threw, Failure, query_failed, no_executor, over_cap, retryable_job,
  and_then, ◌>>=◌, ◌>>◌, pure, throw, query, UnitKey, same_unit, Payload, Job, response_run,
  cycle_aggregate, RunStatus, completed, failed, over_budget, JudgmentRow, RawRow, cached,
  GenerateRequest, LlmCallRow, generation_row, insert_work_unit, mark_work_unit_done,
  mark_work_unit_skipped, mark_work_unit_error, insert_response_raw, insert_judgment,
  insert_llm_call, check_cache, ResponseStatus,
}
use aeo_geo_optimization.Pipeline.Store.Cycles.{
  create_run, snapshot_n_total, start_run, finish_run, Resumable, find_resumable_run,
  find_pending_work_unit_keys, read_rotation_state, advance_rotation_state, enqueue,
}
use aeo_geo_optimization.Pipeline.Response.{GenerateResult, Mention, RunResponseDeps, run_response}

pub record Adapter : Type 0 where
  pub provider : String
  pub generate : List GenerateRequest → GenerateRequest → GenerateResult

pub record PriorJudgment : Type 0 where
  pub brand_mentioned : Bool
  pub brand_rank : Option ℕ
  pub sentiment : Option Sentiment
  pub competitors_found : List (String × Option ℕ)
  pub evidence : Option Span

-- How the units are run: here, by `responseRunHandler`, or by jobs of the queue.
pub data Executor : Type 0 where
  inline queued nowhere : Executor

pub record RunCycleDeps (Report : Type 0) : Type 0 where
  pub customer_id : String
  pub kind : RunKind
  pub executor : Executor
  pub runtime : Runtime
  pub uuid : ℕ → String
  pub questions : List Question
  pub models : List ModelRef
  pub languages : List CustomerLanguage
  pub budget : Budget
  pub adapters : String → Option Adapter
  pub judge_provider : String
  pub extract_mention : ℕ → ResponseStatus → Option String → Mention
  pub should_ground : UnitKey → Bool
  pub surface_usd_per_call : String → ℕ
  pub cost_reader : CostReadPort
  pub cache_cutoff : Option ℕ
  pub gates : List Gate
  pub brand_name : String
  pub brand_aliases : List String
  pub is_new_customer : Bool
  pub current_cycle_index : ℕ
  pub find_prior_judgment_by_hash : Option (String → String → Db → Option PriorJudgment)
  pub assemble_report : String → Db → Option Report

-- `try { ... } catch { ... }`
unfoldable pub handle {ℓ} : {A : Type ℓ} → (Failure → M A) → Result A × Db → Result A × Db
handle f (returned a, db) = (returned a, db)
handle f (threw e, db) = f e db

unfoldable pub catching {ℓ} : {A : Type ℓ} → M A → (Failure → M A) → M A
unfolding handle
catching m f db = handle f (m db)

abbrev pub unit_key : String → PlannedWorkUnit → UnitKey
unit_key run_id wu = record {
  run_id = run_id;
  question_id = wu.question_id;
  model_id = wu.model_id;
  language = wu.language;
  sample_idx = wu.sample_idx;
}

abbrev pub payload_of : {Report : Type 0} → RunCycleDeps Report → String → PlannedWorkUnit → Payload
payload_of d run_id wu = record {
  key = unit_key run_id wu;
  customer_id = d.customer_id;
  request_hash = wu.request_hash;
  prompt = wu.prompt;
  prompt_version = wu.prompt_version;
  temperature = wu.temperature;
}

abbrev pub response_deps : {Report : Type 0} → RunCycleDeps Report → Adapter → RunResponseDeps
response_deps d adapter = record {
  provider = adapter.provider;
  generate = adapter.generate;
  judge_provider = d.judge_provider;
  extract_mention = d.extract_mention;
  should_ground = d.should_ground;
  budget = d.budget;
  is_new_customer = d.is_new_customer;
  cost_reader = d.cost_reader;
  cache_cutoff = d.cache_cutoff;
  gates = d.gates;
  brand_name = d.brand_name;
  brand_aliases = d.brand_aliases;
}

-- `models.find(...)` and its adapter.
abbrev pub find_model : String → List ModelRef → Option ModelRef
find_model id [] = none
find_model id (m ∷ models) =
    let rest = find_model id models in if text_eq m.id id then some m else rest

abbrev pub with_adapter : ModelRef → Option Adapter → Option (ModelRef × Adapter)
with_adapter m none = none
with_adapter m (some a) = some (m, a)

abbrev pub adapter_of :
    {Report : Type 0} → RunCycleDeps Report → Option ModelRef → Option (ModelRef × Adapter)
adapter_of d none = none
adapter_of d (some m) = with_adapter m (d.adapters m.provider)

abbrev pub is_surface : Modality → Bool
is_surface chat = false
is_surface serp = true
is_surface scrape = true

pub data UnitEnd : Type 0 where
  ended broke out_of_budget : UnitEnd

-- A budget error ends the loop, another one is remembered.
unfoldable pub end_of_failure : Failure → UnitEnd
end_of_failure query_failed = broke
end_of_failure no_executor = broke
end_of_failure (over_cap check) = out_of_budget
end_of_failure (retryable_job code) = broke

unfoldable pub respond :
    {Report : Type 0} → RunCycleDeps Report → String → PlannedWorkUnit → Adapter → M UnitEnd
unfolding run_response end_of_failure
respond d run_id wu adapter =
    catching (run_response (payload_of d run_id wu) (response_deps d adapter) >> pure ended)
      (λ e. pure (end_of_failure e))

abbrev pub no_judgment : PriorJudgment
no_judgment = record {
  brand_mentioned = false;
  brand_rank = none;
  sentiment = none;
  competitors_found = [];
  evidence = none;
}

abbrev pub or_no_judgment : Option PriorJudgment → PriorJudgment
or_no_judgment none = no_judgment
or_no_judgment (some j) = j

unfoldable pub prior_judgment :
    {Report : Type 0}
    → RunCycleDeps Report
    → Option (String → String → Db → Option PriorJudgment)
    → String
    → String
    → M PriorJudgment
prior_judgment d none hash run_id = pure no_judgment
prior_judgment d (some find) hash run_id = query λ db. (or_no_judgment (find hash run_id db), db)

-- The judgment of a surface's cached answer: that of an earlier run, without its provenance.
unfoldable pub carried_row :
    {Report : Type 0} → RunCycleDeps Report → UnitKey → PriorJudgment → ℕ → JudgmentRow
carried_row d key prior raw_id = record {
  response_raw_id = raw_id;
  key = key;
  customer_id = d.customer_id;
  response_status = cached;
  brand_mentioned = prior.brand_mentioned;
  brand_rank = prior.brand_rank;
  sentiment = prior.sentiment;
  competitors_found = prior.competitors_found;
  evidence = prior.evidence;
  citation_present = false;
  recommendation_present = false;
  provenance = abstain;
  judge_model = none;
  guardrail_status = GuardrailStatus.pass;
}

abbrev pub carried_raw : Payload → String → ℕ → RawRow
carried_raw p answer id = record {
  id = id;
  key = p.key;
  customer_id = p.customer_id;
  request_hash = p.request_hash;
  answer_text = some answer;
  status = cached;
}

unfoldable pub carry_forward :
    {Report : Type 0} → RunCycleDeps Report → Payload → String → M (Unit {0})
unfolding insert_response_raw insert_llm_call prior_judgment carried_row insert_judgment
    mark_work_unit_done
carry_forward d p answer = do
  raw_id ← insert_response_raw (carried_raw p answer)
  insert_llm_call
      (generation_row p.customer_id p.key.run_id p.key.model_id p.key.model_id 0 0 0 true raw_id)
  prior ← prior_judgment d d.find_prior_judgment_by_hash p.request_hash p.key.run_id
  insert_judgment (carried_row d p.key prior raw_id)
  mark_work_unit_done p.key raw_id

-- A surface whose answer is cached is not judged again; if that fails the unit is marked, if it can be.
unfoldable pub on_surface :
    {Report : Type 0}
    → RunCycleDeps Report
    → String
    → PlannedWorkUnit
    → Adapter
    → Option String
    → M UnitEnd
unfolding respond carry_forward mark_work_unit_error
on_surface d run_id wu adapter none = respond d run_id wu adapter
on_surface d run_id wu adapter (some answer) =
    catching (carry_forward d (payload_of d run_id wu) answer >> pure ended)
      λ e. catching (mark_work_unit_error (unit_key run_id wu)) (λ e. pure tt) >> pure broke

unfoldable pub execute_with :
    {Report : Type 0}
    → RunCycleDeps Report
    → String
    → PlannedWorkUnit
    → Option (ModelRef × Adapter)
    → M UnitEnd
unfolding respond on_surface mark_work_unit_skipped check_cache
execute_with d run_id wu none = mark_work_unit_skipped (unit_key run_id wu) >> pure ended
execute_with d run_id wu (some (model, adapter)) =
    if is_surface model.modality && not (text_eq wu.request_hash "")
    then check_cache d.cache_cutoff wu.request_hash run_id >>= on_surface d run_id wu adapter
    else respond d run_id wu adapter

unfoldable pub execute_unit :
    {Report : Type 0} → RunCycleDeps Report → String → PlannedWorkUnit → M UnitEnd
unfolding execute_with
execute_unit d run_id wu = execute_with d run_id wu (adapter_of d (find_model wu.model_id d.models))

unfoldable pub after_unit : (Bool → M RunStatus) → Bool → UnitEnd → M RunStatus
after_unit rest had_error ended = rest had_error
after_unit rest had_error broke = rest true
after_unit rest had_error out_of_budget = pure over_budget

-- The loop over the units, with `hadError`, and the status of the run after it.
unfoldable pub execute_units :
    {Report : Type 0} → RunCycleDeps Report → String → List PlannedWorkUnit → Bool → M RunStatus
unfolding execute_unit after_unit
execute_units d run_id [] had_error = pure (if had_error then failed else completed)
execute_units d run_id (wu ∷ units) had_error =
    execute_unit d run_id wu >>= after_unit (execute_units d run_id units) had_error
