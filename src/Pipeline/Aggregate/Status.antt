-- ===== src/Pipeline/Aggregate/Status.antt =====
-- The status that a run is concluded with: src/pipeline/runCycle.ts.
use aeo_geo_optimization.Common.{◌<◌, ◌≡◌, String, false, Option, some, [], ◌↔◌, arith}
use aeo_geo_optimization.Pipeline.Store.{Db, failed, RunRow}
use aeo_geo_optimization.Pipeline.Aggregate.{
  Counts, counts_of, find_run_row, run_over_budget, aggregate_status, is_over_budget,
}

-- No unit of the run was done or skipped, and some failed.
abbrev pub AllFailed : Counts → Type 0
AllFailed c = (c.done ≡ 0) × (c.skipped ≡ 0) × (0 < c.error)

-- A run that is not over budget is concluded failed exactly when some of its units failed and none was
-- done or skipped; the units that are still pending count for nothing.
pub aggregate_status-AllFailed :
    (run : Option RunRow) (c : Counts)
    → run_over_budget run ≡ false
    → (aggregate_status run c ≡ failed) ↔ AllFailed c
unfolding aggregate_status
aggregate_status-AllFailed run c within = rw within (
  (λ h. (ground arith, ground arith, ground arith)),
  (λ (no_done, no_skipped, some_error). ground arith),
)

-- The jobs of the run have stopped: some of its units are pending and none failed, the run is not over
-- budget, its report can be made, and no query fails.
pub record Stuck {Report : Type 0} (assemble_report : String → Db → Option Report) (run_id : String)
    (db : Db) : Type 0 where
  pub quiet : db.faults ≡ []
  pub waiting : 0 < (counts_of run_id db.units).pending
  pub no_error : (counts_of run_id db.units).error ≡ 0
  pub run : RunRow
  pub found : find_run_row run_id db.runs ≡ some run
  pub within : is_over_budget run.status ≡ false
  pub report : Report
  pub made : assemble_report run_id db ≡ some report
