-- ===== src/Pipeline/Cycle/Writes.antt =====
-- What every write of a cycle keeps: src/pipeline/runCycle.ts.
use aeo_geo_optimization.Common.{
  ℕ, ◌+◌, String, Bool, true, false, not, ◌||◌, Option, none, some, List, [], ◌∷◌, if◌then◌else◌,
  Bool-cases, inl, inr, ◌==◌,
}
use aeo_geo_optimization.Domain.{RunKind, baseline, operating, DensityTier}
use aeo_geo_optimization.Sampling.Rotation.{RotationState}
use aeo_geo_optimization.Sampling.Plan.{PlannedWorkUnit, PlanOutput, plan_temperature}
use aeo_geo_optimization.Pipeline.Store.{
  Db, UnitKey, RunRow, CursorRow, Job, RunStatus, completed, over_budget, with_unit,
  insert_work_unit,
}
use aeo_geo_optimization.Pipeline.Store.Cycles.{
  update_run, to_finished, to_running, with_n_total, create_run, snapshot_n_total, start_run,
  finish_run, Resumable, find_resumable_run, find_pending_work_unit_keys, read_rotation_state,
  advance_rotation_state, set_cursor, enqueue,
}
use aeo_geo_optimization.Pipeline.Store.Runs.{Keeps, AnyFaults, bind-Keeps, next-Keeps, query-Keeps}
use aeo_geo_optimization.Pipeline.Loop.{
  RunCycleDeps, Executor, inline, queued, nowhere, unit_key, execute_units,
}
use aeo_geo_optimization.Pipeline.Cycle.{
  report_and_finish, enqueue_units, execute, preflight_ok, read_rotation_states, plan_of,
  insert_work_units, cursor_of, advance_cursors, advance_if, report_of, complete_empty, begin,
  fresh_cycle, is_empty, resume_units, resume_cycle, by_resumable, find_resumable, run_cycle,
}

-- A condition that an execution of units keeps: the loop, the jobs and the end of the run.
pub record ExecutionKept {ℓ} {Report : Type 0} (d : RunCycleDeps Report) (P : Db → Type ℓ)
    : Type ℓ where
  pub faults : AnyFaults P
  pub loop :
      (run_id : String) (units : List PlannedWorkUnit)
      → Keeps P (execute_units d run_id units false)
  pub finish :
      (db : Db) (id : String) (status : RunStatus) (now : ℕ)
      → P db
      → P (record db { runs = update_run id (to_finished status now) db.runs })
  pub jobs : (db : Db) (job : Job) → P db → P (record db { jobs = job ∷ db.jobs })

module _ {ℓ} {Report : Type 0} (d : RunCycleDeps Report) (P : Db → Type ℓ)
    (kept : ExecutionKept d P) where
  finish-Keeps : (id : String) (status : RunStatus) → Keeps P (finish_run id status)
  unfolding finish_run
  finish-Keeps id status = query-Keeps P _ kept.faults (λ db. kept.finish db id status db.clock)

  report_and_finish-Keeps :
      (run_id : String) (status : RunStatus) → Keeps P (report_and_finish d run_id status)
  unfolding report_and_finish
  report_and_finish-Keeps run_id status =
      bind-Keeps P _ _ (λ db h. h) (λ later. next-Keeps P _ _ (finish-Keeps run_id _) (λ db h. h))

  enqueue-Keeps : (job : Job) → Keeps P (enqueue job)
  unfolding enqueue
  enqueue-Keeps job = query-Keeps P _ kept.faults (λ db. kept.jobs db job)

  enqueue_units-Keeps :
      (run_id : String) (units : List PlannedWorkUnit) → Keeps P (enqueue_units d run_id units)
  unfolding enqueue_units
  enqueue_units-Keeps run_id [] db h = h
  enqueue_units-Keeps run_id (wu ∷ units) db h =
      next-Keeps P _ _ (enqueue-Keeps _) (enqueue_units-Keeps run_id units) db h

  execute-Keeps :
      (executor : Executor) (run_id : String) (units : List PlannedWorkUnit)
      → Keeps P (execute d executor run_id units)
  unfolding execute
  execute-Keeps inline run_id units db h =
      bind-Keeps P _ _ (kept.loop run_id units) (report_and_finish-Keeps run_id) db h
  execute-Keeps queued run_id units db h =
      next-Keeps P _ _ (enqueue_units-Keeps run_id units)
        (next-Keeps P _ _ (enqueue-Keeps _) (λ later g. g)) db h
  execute-Keeps nowhere run_id units db h = h

  resume_units-Keeps :
      (run_id : String) (units : List PlannedWorkUnit) → Keeps P (resume_units d run_id units)
  unfolding resume_units
  resume_units-Keeps run_id units db h =
      elim (Bool-cases (is_empty units || not (preflight_ok d units))) [
        | inl stops ↦ rw stops h
        | inr goes ↦ rw goes (execute-Keeps d.executor run_id units db h)
      ]

  states-Keeps : (customer : String) → Keeps P (read_rotation_states customer)
  unfolding read_rotation_states read_rotation_state
  states-Keeps customer = bind-Keeps P _ _ (query-Keeps P _ kept.faults (λ db h. h)) λ a.
      bind-Keeps P _ _ (query-Keeps P _ kept.faults (λ db h. h))
        (λ b. bind-Keeps P _ _ (query-Keeps P _ kept.faults (λ db h. h)) (λ c db h. h))

  -- A cycle that goes on with a run keeps it.
  pub resume-Keeps : (r : Resumable) → Keeps P (by_resumable d (some r))
  unfolding by_resumable resume_cycle find_pending_work_unit_keys
  resume-Keeps r = bind-Keeps P _ _ (states-Keeps d.customer_id) λ states.
      bind-Keeps P _ _ (query-Keeps P _ kept.faults (λ db h. h)) (λ keys. resume_units-Keeps r.id _)

-- A condition that a cycle of a new run keeps.
pub record CycleKept {ℓ} {Report : Type 0} (d : RunCycleDeps Report) (P : Db → Type ℓ)
    : Type ℓ where
  pub execution : ExecutionKept d P
  pub units : (db : Db) (k : UnitKey) → P db → P (record db { units = with_unit k db.units })
  pub runs : (db : Db) (rs : List RunRow) (n : ℕ) → P db → P (record db { runs = rs; next_id = n })
  pub cursors : (db : Db) (cs : List CursorRow) → P db → P (record db { cursors = cs })

module _ {ℓ} {Report : Type 0} (d : RunCycleDeps Report) (P : Db → Type ℓ)
    (kept : CycleKept d P) where
  create-Keeps :
      (customer : String) (kind : RunKind) (n t : ℕ) → Keeps P (create_run d.uuid customer kind n t)
  unfolding create_run
  create-Keeps customer kind n t =
      query-Keeps P _ kept.execution.faults (λ db. kept.runs db (_ ∷ db.runs) (db.next_id + 1))

  snapshot-Keeps : (id : String) (n : ℕ) → Keeps P (snapshot_n_total id n)
  unfolding snapshot_n_total
  snapshot-Keeps id n =
      query-Keeps P _ kept.execution.faults
        (λ db. kept.runs db (update_run id (with_n_total n) db.runs) db.next_id)

  start-Keeps : (id : String) → Keeps P (start_run id)
  unfolding start_run
  start-Keeps id =
      query-Keeps P _ kept.execution.faults
        (λ db. kept.runs db (update_run id (to_running db.clock) db.runs) db.next_id)

  insert_work_units-Keeps :
      (run_id : String) (units : List PlannedWorkUnit) → Keeps P (insert_work_units run_id units)
  unfolding insert_work_units insert_work_unit
  insert_work_units-Keeps run_id [] db h = h
  insert_work_units-Keeps run_id (wu ∷ units) db h =
      next-Keeps P _ _
        (query-Keeps P _ kept.execution.faults (λ later. kept.units later (unit_key run_id wu)))
        (insert_work_units-Keeps run_id units) db h

  advance_cursors-Keeps :
      (customer : String) (states : List (DensityTier × RotationState))
      → Keeps P (advance_cursors customer states)
  unfolding advance_cursors advance_rotation_state
  advance_cursors-Keeps customer [] db h = h
  advance_cursors-Keeps customer ((tier, state) ∷ states) db h =
      next-Keeps P _ _
        (query-Keeps P _ kept.execution.faults (λ later.
          kept.cursors later
            (set_cursor customer tier (cursor_of state.last_cycle_index) later.cursors)))
        (advance_cursors-Keeps customer states) db h

  advance_if-Keeps : (kind : RunKind) (plan : PlanOutput) → Keeps P (advance_if d kind plan)
  unfolding advance_if
  advance_if-Keeps baseline plan db h = h
  advance_if-Keeps operating plan db h =
      advance_cursors-Keeps d.customer_id plan.next_rotation_states db h

  report_of-Keeps : (report : Option Report) → Keeps P (report_of report)
  unfolding report_of
  report_of-Keeps none db h = h
  report_of-Keeps (some r) db h = h

  pub complete_empty-Keeps : (run_id : String) → Keeps P (complete_empty d run_id)
  unfolding complete_empty
  complete_empty-Keeps run_id =
      next-Keeps P _ _ (finish-Keeps d P kept.execution run_id completed)
        (bind-Keeps P _ _ (λ db h. h) (λ db. report_of-Keeps (d.assemble_report run_id db)))

  begin-Keeps : (run_id : String) (plan : PlanOutput) → Keeps P (begin d run_id plan)
  unfolding begin
  begin-Keeps run_id plan = next-Keeps P _ _ (insert_work_units-Keeps run_id plan.work_units) (
      next-Keeps P _ _ (advance_if-Keeps d.kind plan) (
        next-Keeps P _ _ (start-Keeps run_id)
          (execute-Keeps d P kept.execution d.executor run_id plan.work_units)))

  by_total-Keeps :
      (run_id : String) (plan : PlanOutput) (empty : Bool)
      → Keeps P (if empty then complete_empty d run_id else begin d run_id plan)
  by_total-Keeps run_id plan true = complete_empty-Keeps run_id
  by_total-Keeps run_id plan false = begin-Keeps run_id plan

  fresh_cycle-Keeps : (run_id : String) (plan : PlanOutput) → Keeps P (fresh_cycle d run_id plan)
  unfolding fresh_cycle
  fresh_cycle-Keeps run_id plan db h = elim (Bool-cases (preflight_ok d plan.work_units)) [
    | inl goes ↦ rw goes (
        next-Keeps P _ _ (snapshot-Keeps run_id plan.n_total)
          (by_total-Keeps run_id plan (plan.n_total == 0)) db h)
    | inr stops ↦
        rw stops (
          next-Keeps P _ _ (finish-Keeps d P kept.execution run_id over_budget) (λ later g. g) db h)
  ]

  by_resumable-Keeps : (found : Option Resumable) → Keeps P (by_resumable d found)
  unfolding by_resumable
  by_resumable-Keeps none db h =
      bind-Keeps P _ _ (create-Keeps d.customer_id d.kind d.budget.max_samples plan_temperature)
        (λ run_id.
          bind-Keeps P _ _ (states-Keeps d P kept.execution d.customer_id)
            (λ states. fresh_cycle-Keeps run_id (plan_of d run_id states)))
        db h
  by_resumable-Keeps (some r) db h = resume-Keeps d P kept.execution r db h

  find_resumable-Keeps :
      (customer : String) (kind : RunKind) → Keeps P (find_resumable customer kind)
  unfolding find_resumable find_resumable_run
  find_resumable-Keeps customer baseline db h =
      query-Keeps P _ kept.execution.faults (λ later g. g) db h
  find_resumable-Keeps customer operating db h = h

  -- The whole cycle keeps it.
  pub run_cycle-Keeps : Keeps P (run_cycle d)
  unfolding run_cycle
  run_cycle-Keeps = bind-Keeps P _ _ (find_resumable-Keeps d.customer_id d.kind) by_resumable-Keeps
