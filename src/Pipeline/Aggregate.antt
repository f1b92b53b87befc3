-- ===== src/Pipeline/Aggregate.antt =====
-- The end of a cycle whose units ran as jobs: `runCycleAggregate` of src/pipeline/runCycle.ts. The wait for
-- these jobs is given by what they do to the tables during each sleep, as many as fit before the deadline.
pub mod Status
use aeo_geo_optimization.Common.{
  ℕ, ◌+◌, String, Bool, true, false, Option, none, some, List, [], ◌∷◌, keep, length, ltb, leb,
  text_eq, if◌then◌else◌, ◌&&◌, ◌==◌,
}
use aeo_geo_optimization.Domain.{WorkUnitStatus, pending, done, skipped}
use aeo_geo_optimization.Pipeline.Store.{
  Db, M, Result, returned, threw, ◌>>=◌, ◌>>◌, pure, throw, query, query_failed, WorkUnitRow,
  RunStatus, completed, failed, over_budget, planned, running, RunRow,
}
use aeo_geo_optimization.Pipeline.Store.Cycles.{finish_run}
use aeo_geo_optimization.Pipeline.Cycle.{read_db}

pub record Counts : Type 0 where
  pub pending : ℕ
  pub done : ℕ
  pub skipped : ℕ
  pub error : ℕ

abbrev pub same_status : WorkUnitStatus → WorkUnitStatus → Bool
same_status pending pending = true
same_status done done = true
same_status skipped skipped = true
same_status WorkUnitStatus.error WorkUnitStatus.error = true
same_status _ _ = false

abbrev pub count_status : String → WorkUnitStatus → List WorkUnitRow → ℕ
count_status run_id s units =
    length (keep (λ (u : WorkUnitRow). text_eq u.key.run_id run_id && same_status u.status s) units)

abbrev pub counts_of : String → List WorkUnitRow → Counts
counts_of run_id units = record {
  pending = count_status run_id pending units;
  done = count_status run_id done units;
  skipped = count_status run_id skipped units;
  error = count_status run_id WorkUnitStatus.error units;
}

unfoldable pub count_work_units_by_status : String → M Counts
count_work_units_by_status run_id = query λ db. (counts_of run_id db.units, db)

abbrev pub find_run_row : String → List RunRow → Option RunRow
find_run_row id [] = none
find_run_row id (r ∷ runs) =
    let rest = find_run_row id runs in if text_eq r.id id then some r else rest

unfoldable pub find_run : String → M (Option RunRow)
find_run id = query λ db. (find_run_row id db.runs, db)

abbrev pub is_over_budget : RunStatus → Bool
is_over_budget over_budget = true
is_over_budget _ = false

abbrev pub run_over_budget : Option RunRow → Bool
run_over_budget none = false
run_over_budget (some r) = is_over_budget r.status

-- `errorRate >= 1.0`, with no rate where no unit has ended.
abbrev pub all_failed : Counts → Bool
all_failed c =
    let total_terminal = c.done + c.skipped + c.error in
    if ltb 0 total_terminal then leb total_terminal c.error else false

unfoldable pub aggregate_status : Option RunRow → Counts → RunStatus
aggregate_status run c =
    if run_over_budget run
    then over_budget
    else (if ltb 0 c.error then (if all_failed c then failed else completed) else completed)

-- A report that fails leaves the run failed.
unfoldable pub conclude : {Report : Type 0} → String → RunStatus → Option Report → M Report
unfolding finish_run
conclude run_id status none = finish_run run_id failed >> throw query_failed
conclude run_id status (some report) = finish_run run_id status >> pure report

-- `setTimeout`, while the other jobs go on.
abbrev pub sleep : (Db → Db) → M (Unit {0})
sleep others db = (returned tt, others db)

abbrev pub unless_ended : M (Unit {0}) → Counts → M (Unit {0})
unless_ended rest c = if c.pending == 0 then pure tt else rest

-- The polling loop, which the deadline ends with the list.
unfoldable pub wait_for_units : String → List (Db → Db) → M (Unit {0})
unfolding count_work_units_by_status
wait_for_units run_id [] = pure tt
wait_for_units run_id (others ∷ sleeps) =
    count_work_units_by_status run_id
    >>= unless_ended (sleep others >> wait_for_units run_id sleeps)

-- After the wait, however it ended.
unfoldable pub aggregate_now : {Report : Type 0} → (String → Db → Option Report) → String → M Report
unfolding count_work_units_by_status find_run aggregate_status read_db conclude
aggregate_now assemble_report run_id = do
  counts ← count_work_units_by_status run_id
  run ← find_run run_id
  db ← read_db
  conclude run_id (aggregate_status run counts) (assemble_report run_id db)

unfoldable pub run_cycle_aggregate :
    {Report : Type 0} → (String → Db → Option Report) → List (Db → Db) → String → M Report
unfolding wait_for_units aggregate_now
run_cycle_aggregate assemble_report sleeps run_id =
    wait_for_units run_id sleeps >> aggregate_now assemble_report run_id
