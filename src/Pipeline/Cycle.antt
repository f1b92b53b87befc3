-- ===== src/Pipeline/Cycle.antt =====
-- A cycle of one customer: `runCycle` of src/pipeline/runCycle.ts, with the planner of src/sampling,
-- the preflight of src/cost/budget.ts and the units of src/pipeline/runResponse.ts. The report of
-- src/metrics/report.ts is passed, none where it throws; the hook for native reviews changes no table
-- and throws nothing, and is left out. Work units are compared by their fields, not by a joined text.
pub mod Writes
pub mod Idle
pub mod Guarantees
use aeo_geo_optimization.Common.{
  ℕ, ◌+◌, String, Bool, true, false, not, ◌&&◌, ◌||◌, Option, none, some, List, [], ◌∷◌, map, keep,
  any, ◌==◌, text_eq, if◌then◌else◌,
}
use aeo_geo_optimization.Common.Int.{ℤ, pos, negsuc}
use aeo_geo_optimization.Common.OrderedMap.{get}
use aeo_geo_optimization.Domain.{
  Modality, chat, serp, scrape, ModelRef, RunKind, baseline, operating, is_baseline, DensityTier,
  core, secondary, longtail, Question, CustomerLanguage, Budget,
}
use aeo_geo_optimization.Guardrails.{Gate, Sentiment, GuardrailStatus, abstain, Span}
use aeo_geo_optimization.Sampling.Rotation.{RotationState}
use aeo_geo_optimization.Sampling.Plan.{
  Runtime, PlanInput, PlannedWorkUnit, PlanOutput, plan_temperature, build_plan,
}
use aeo_geo_optimization.Cost.Budget.{
  CostReadPort, PreflightResult, preflight, build_plan_cost_breakdown, estimate_surface_plan_cost,
}
use aeo_geo_optimization.Pipeline.Store.{
  Db, M, Result, returned, threw, Failure, query_failed, no_executor, over_cap, retryable_job,
  and_then, ◌>>=◌, ◌>>◌, pure, throw, query, UnitKey, same_unit, Payload, Job, response_run,
  cycle_aggregate, RunStatus, completed, failed, over_budget, JudgmentRow, RawRow, cached,
  GenerateRequest, LlmCallRow, generation_row, insert_work_unit, mark_work_unit_done,
  mark_work_unit_skipped, mark_work_unit_error, insert_response_raw, insert_judgment,
  insert_llm_call, check_cache, ResponseStatus,
}
use aeo_geo_optimization.Pipeline.Store.Cycles.{
  create_run, snapshot_n_total, start_run, finish_run, Resumable, find_resumable_run,
  find_pending_work_unit_keys, read_rotation_state, advance_rotation_state, enqueue,
}
use aeo_geo_optimization.Pipeline.Response.{run_response}
use aeo_geo_optimization.Pipeline.Loop.{
  RunCycleDeps, Executor, inline, queued, nowhere, unit_key, payload_of, execute_units,
}

abbrev pub reported_status : {Report : Type 0} → Option Report → RunStatus → RunStatus
reported_status none status = failed
reported_status (some r) status = status

unfoldable pub read_db : M Db
read_db db = (returned db, db)

unfoldable pub report_and_finish :
    {Report : Type 0} → RunCycleDeps Report → String → RunStatus → M (Option Report)
unfolding finish_run read_db
report_and_finish d run_id status = do
  db ← read_db
  let report = d.assemble_report run_id db
  finish_run run_id (reported_status report status)
  pure report

unfoldable pub enqueue_units :
    {Report : Type 0} → RunCycleDeps Report → String → List PlannedWorkUnit → M (Unit {0})
unfolding enqueue
enqueue_units d run_id [] = pure tt
enqueue_units d run_id (wu ∷ units) =
    enqueue (response_run (payload_of d run_id wu)) >> enqueue_units d run_id units

unfoldable pub execute :
    {Report : Type 0}
    → RunCycleDeps Report
    → Executor
    → String
    → List PlannedWorkUnit
    → M (Option Report)
unfolding execute_units report_and_finish enqueue_units enqueue
execute d inline run_id units = execute_units d run_id units false >>= report_and_finish d run_id
execute d queued run_id units = do
  enqueue_units d run_id units
  enqueue (cycle_aggregate run_id d.customer_id)
  pure none
execute d nowhere run_id units = throw no_executor

abbrev pub modality_map : List ModelRef → List (String × Modality)
modality_map models = map (λ (m : ModelRef). (m.id, m.modality)) models

-- 0.0005 USD.
abbrev pub avg_gen_usd : ℕ
avg_gen_usd = 500

abbrev pub avg_judge_usd : ℕ
avg_judge_usd = 500

unfoldable pub estimated_usd : {Report : Type 0} → RunCycleDeps Report → List PlannedWorkUnit → ℕ
unfolding estimate_surface_plan_cost build_plan_cost_breakdown
estimated_usd d units =
    estimate_surface_plan_cost
      (build_plan_cost_breakdown (map (λ (wu : PlannedWorkUnit). wu.model_id) units)
        (modality_map d.models))
      avg_gen_usd avg_judge_usd d.surface_usd_per_call

unfoldable pub preflight_ok : {Report : Type 0} → RunCycleDeps Report → List PlannedWorkUnit → Bool
unfolding preflight estimated_usd
preflight_ok d units = (preflight d.customer_id d.budget (estimated_usd d units) d.cost_reader).ok

abbrev pub state_at : String → DensityTier → ℕ → DensityTier × RotationState
state_at customer tier n =
    (tier, record { customer_id = customer; density_tier = tier; last_cycle_index = pos n })

unfoldable pub read_rotation_states : String → M (List (DensityTier × RotationState))
unfolding read_rotation_state
read_rotation_states customer = do
  a ← read_rotation_state customer core
  b ← read_rotation_state customer secondary
  c ← read_rotation_state customer longtail
  pure
      (state_at customer core a ∷ state_at customer secondary b ∷ state_at customer longtail c ∷ [])

abbrev pub plan_input :
    {Report : Type 0}
    → RunCycleDeps Report
    → String
    → List (DensityTier × RotationState)
    → PlanInput
plan_input d run_id states = record {
  run_id = run_id;
  customer_id = d.customer_id;
  kind = d.kind;
  questions = d.questions;
  models = d.models;
  languages = d.languages;
  budget = d.budget;
  current_cycle_index = d.current_cycle_index;
  rotation_states = states;
  build_prompt = none;
}

unfoldable pub plan_of :
    {Report : Type 0}
    → RunCycleDeps Report
    → String
    → List (DensityTier × RotationState)
    → PlanOutput
unfolding build_plan
plan_of d run_id states = build_plan d.runtime (plan_input d run_id states)

unfoldable pub insert_work_units : String → List PlannedWorkUnit → M (Unit {0})
unfolding insert_work_unit
insert_work_units run_id [] = pure tt
insert_work_units run_id (wu ∷ units) =
    insert_work_unit (unit_key run_id wu) >> insert_work_units run_id units

abbrev pub cursor_of : ℤ → ℕ
cursor_of (pos n) = n
cursor_of (negsuc n) = 0

unfoldable pub advance_cursors : String → List (DensityTier × RotationState) → M (Unit {0})
unfolding advance_rotation_state
advance_cursors customer [] = pure tt
advance_cursors customer ((tier, state) ∷ states) =
    advance_rotation_state customer tier (cursor_of state.last_cycle_index)
    >> advance_cursors customer states

-- Only an operating run moves the cursors.
unfoldable pub advance_if :
    {Report : Type 0} → RunCycleDeps Report → RunKind → PlanOutput → M (Unit {0})
unfolding advance_cursors
advance_if d baseline plan = pure tt
advance_if d operating plan = advance_cursors d.customer_id plan.next_rotation_states

unfoldable pub report_of : {Report : Type 0} → Option Report → M (Option Report)
report_of none = throw query_failed
report_of (some r) = pure (some r)

-- A plan without units is completed at once.
unfoldable pub complete_empty : {Report : Type 0} → RunCycleDeps Report → String → M (Option Report)
unfolding finish_run read_db report_of
complete_empty d run_id = do
  finish_run run_id completed
  db ← read_db
  report_of (d.assemble_report run_id db)

unfoldable pub begin :
    {Report : Type 0} → RunCycleDeps Report → String → PlanOutput → M (Option Report)
unfolding insert_work_units advance_if start_run execute
begin d run_id plan = do
  insert_work_units run_id plan.work_units
  advance_if d d.kind plan
  start_run run_id
  execute d d.executor run_id plan.work_units

unfoldable pub fresh_cycle :
    {Report : Type 0} → RunCycleDeps Report → String → PlanOutput → M (Option Report)
unfolding preflight_ok finish_run snapshot_n_total complete_empty begin
fresh_cycle d run_id plan =
    if preflight_ok d plan.work_units
    then snapshot_n_total run_id plan.n_total
      >> (if plan.n_total == 0 then complete_empty d run_id else begin d run_id plan)
    else finish_run run_id over_budget >> pure none

-- The units of the plan that are still pending.
abbrev pub still_pending : String → List UnitKey → List PlannedWorkUnit → List PlannedWorkUnit
still_pending run_id keys units = keep (λ wu. any (same_unit (unit_key run_id wu)) keys) units

abbrev pub is_empty {ℓ} : {A : Type ℓ} → List A → Bool
is_empty [] = true
is_empty (x ∷ xs) = false

unfoldable pub resume_units :
    {Report : Type 0} → RunCycleDeps Report → String → List PlannedWorkUnit → M (Option Report)
unfolding preflight_ok execute
resume_units d run_id units =
    if is_empty units || not (preflight_ok d units)
    then pure none
    else execute d d.executor run_id units

unfoldable pub resume_cycle :
    {Report : Type 0} → RunCycleDeps Report → String → PlanOutput → M (Option Report)
unfolding find_pending_work_unit_keys resume_units
resume_cycle d run_id plan = find_pending_work_unit_keys run_id >>= λ keys.
    resume_units d run_id (still_pending run_id keys plan.work_units)

unfoldable pub by_resumable :
    {Report : Type 0} → RunCycleDeps Report → Option Resumable → M (Option Report)
unfolding create_run read_rotation_states plan_of fresh_cycle resume_cycle
by_resumable d none = do
  run_id ← create_run d.uuid d.customer_id d.kind d.budget.max_samples plan_temperature
  states ← read_rotation_states d.customer_id
  fresh_cycle d run_id (plan_of d run_id states)
by_resumable d (some r) = do
  states ← read_rotation_states d.customer_id
  resume_cycle d r.id (plan_of d r.id states)

unfoldable pub find_resumable : String → RunKind → M (Option Resumable)
unfolding find_resumable_run
find_resumable customer baseline = find_resumable_run customer baseline
find_resumable customer operating = pure none

unfoldable pub run_cycle : {Report : Type 0} → RunCycleDeps Report → M (Option Report)
unfolding find_resumable by_resumable
run_cycle d = find_resumable d.customer_id d.kind >>= by_resumable d
