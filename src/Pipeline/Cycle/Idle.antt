-- ===== src/Pipeline/Cycle/Idle.antt =====
-- The operating cycle as it is called: src/pipeline/runCycle.ts with the cursors of src/db/repo.ts.
use aeo_geo_optimization.Common.{
  ℕ, ◌≡◌, refl, ap, String, false, Option, none, some, List, [], ◌∷◌, Bool-cases, inl, inr, arith,
  flat_map,
}
use aeo_geo_optimization.Common.Int.{◌-ℤ◌}
use aeo_geo_optimization.Common.OrderedMap.{get}
use aeo_geo_optimization.Domain.{
  RunKind, baseline, operating, DensityTier, core, secondary, longtail, Question,
}
use aeo_geo_optimization.Sampling.Rotation.{RotationState}
use aeo_geo_optimization.Sampling.Plan.{
  PlanOutput, tier_due, due_of_tier, due_questions, questions_by_tier, build_plan,
}
use aeo_geo_optimization.Pipeline.Store.{
  Db, Result, returned, threw, WorkUnitRow, RawRow, LlmCallRow, JudgmentRow, GenerateRequest,
  CursorRow, Job, RunStatus, completed, over_budget,
}
use aeo_geo_optimization.Pipeline.Store.Cycles.{
  create_run, snapshot_n_total, finish_run, find_cursor, read_rotation_state, Resumable,
}
use aeo_geo_optimization.Pipeline.Store.Runs.{
  Runs, Keeps, bind-Runs, bind-Keeps, next-Keeps, query-Runs, query-Keeps,
}
use aeo_geo_optimization.Pipeline.Loop.{RunCycleDeps}
use aeo_geo_optimization.Pipeline.Cycle.{
  state_at, read_rotation_states, plan_input, plan_of, preflight_ok, read_db, report_of,
  complete_empty, fresh_cycle, by_resumable, find_resumable, run_cycle,
}

-- The states that are read where a customer has no cursor past 0.
abbrev zero_states : String → List (DensityTier × RotationState)
zero_states customer =
    state_at customer core 0 ∷ state_at customer secondary 0 ∷ state_at customer longtail 0 ∷ []

module _ {Report : Type 0} (d : RunCycleDeps Report) (kind : d.kind ≡ operating)
    (index : d.current_cycle_index ≡ 0) where
  zero-tier_due :
      (run_id : String) (tier : DensityTier)
      → tier_due (plan_input d run_id (zero_states d.customer_id)) tier ≡ false
  unfolding get ◌-ℤ◌
  zero-tier_due run_id core = rw index refl
  zero-tier_due run_id secondary = rw index refl
  zero-tier_due run_id longtail = rw index refl

  zero-due_of_tier :
      (run_id : String) (group : DensityTier × List Question)
      → due_of_tier d.runtime (plan_input d run_id (zero_states d.customer_id)) group ≡ []
  unfolding due_of_tier
  zero-due_of_tier run_id (tier, questions) = rw (kind, zero-tier_due run_id tier) refl

  zero-flat_map :
      (run_id : String) (groups : List (DensityTier × List Question))
      → flat_map (due_of_tier d.runtime (plan_input d run_id (zero_states d.customer_id))) groups
        ≡ []
  zero-flat_map run_id [] = refl
  zero-flat_map run_id (g ∷ groups) =
      rw (zero-due_of_tier run_id g, zero-flat_map run_id groups) refl

  zero-n_total : (run_id : String) → (plan_of d run_id (zero_states d.customer_id)).n_total ≡ 0
  unfolding plan_of build_plan due_questions
  zero-n_total run_id = rw (zero-flat_map run_id (questions_by_tier d.questions)) refl

baseline-operating : baseline ≡ operating → ⊥
baseline-operating e = ground arith

some-none {ℓ} : {A : Type ℓ} {a : A} → some a ≡ none → ⊥
some-none e = ground arith

-- What a cycle does: the requests it makes, the jobs it leaves, the units, calls, answers and
-- judgments it writes, and the cursors it moves.
abbrev pub activity :
    Db
    → List GenerateRequest
      × List Job
      × List WorkUnitRow
      × List LlmCallRow
      × List RawRow
      × List JudgmentRow
      × List CursorRow
activity db = (db.requests, db.jobs, db.units, db.calls, db.raws, db.judgments, db.cursors)

module _ {Report : Type 0} (d : RunCycleDeps Report) (kind : d.kind ≡ operating)
    (index : d.current_cycle_index ≡ 0) (db : Db)
    (cursors : (tier : DensityTier) → find_cursor d.customer_id tier db.cursors ≡ 0) where
  abbrev Quiet : Db → Type 0
  Quiet later = activity later ≡ activity db

  Quiet-find_cursor :
      (tier : DensityTier) (later : Db)
      → Quiet later
      → find_cursor d.customer_id tier later.cursors ≡ 0
  Quiet-find_cursor tier later quiet = let same = ap (λ a. a.6) quiet in rw same (cursors tier)

  abbrev Zero : Result ℕ → Db → Type 0
  Zero (returned n) later = (n ≡ 0) × Quiet later
  Zero (threw e) later = Quiet later

  read-Zero : (tier : DensityTier) → Runs Quiet (read_rotation_state d.customer_id tier) Zero
  unfolding read_rotation_state
  read-Zero tier =
      query-Runs Quiet Zero _ (λ later fs g. g) (λ later g. g)
        (λ later g. (Quiet-find_cursor tier later g, g))

  abbrev ZeroStates : Result (List (DensityTier × RotationState)) → Db → Type 0
  ZeroStates (returned s) later = (s ≡ zero_states d.customer_id) × Quiet later
  ZeroStates (threw e) later = Quiet later

  states-Zero : Runs Quiet (read_rotation_states d.customer_id) ZeroStates
  unfolding read_rotation_states
  states-Zero =
      bind-Runs Quiet Zero ZeroStates _ _ (read-Zero core)
        (λ a la (a0, ga).
          bind-Runs Quiet Zero ZeroStates _ _ (read-Zero secondary)
            (λ b lb (b0, gb).
              bind-Runs Quiet Zero ZeroStates _ _ (read-Zero longtail)
                (λ c lc (c0, gc). (rw (a0, b0, c0) refl, gc)) (λ e later g. g) lb gb)
            (λ e later g. g) la ga)
        (λ e later g. g)

  finish-Quiet : (run_id : String) (status : RunStatus) → Keeps Quiet (finish_run run_id status)
  unfolding finish_run
  finish-Quiet run_id status = query-Keeps Quiet _ (λ later fs g. g) (λ later g. g)

  report_of-Quiet : (report : Option Report) → Keeps Quiet (report_of report)
  unfolding report_of
  report_of-Quiet none later g = g
  report_of-Quiet (some r) later g = g

  complete_empty-Quiet : (run_id : String) → Keeps Quiet (complete_empty d run_id)
  unfolding complete_empty read_db
  complete_empty-Quiet run_id = next-Keeps Quiet _ _ (finish-Quiet run_id completed) (
      bind-Keeps Quiet _ _ (λ later g. g)
        (λ later. report_of-Quiet (d.assemble_report run_id later)))

  fresh_cycle-Quiet :
      (run_id : String) (plan : PlanOutput)
      → plan.n_total ≡ 0
      → Keeps Quiet (fresh_cycle d run_id plan)
  unfolding fresh_cycle snapshot_n_total
  fresh_cycle-Quiet run_id plan empty later g = elim (Bool-cases (preflight_ok d plan.work_units)) [
    | inl goes ↦
        rw (goes, empty)
          (next-Keeps Quiet _ _ (query-Keeps Quiet _ (λ after fs h. h) (λ after h. h))
            (complete_empty-Quiet run_id) later g)
    | inr stops ↦
        rw stops (next-Keeps Quiet _ _ (finish-Quiet run_id over_budget) (λ after h. h) later g)
  ]

  by_states-Quiet :
      (run_id : String) (states : List (DensityTier × RotationState))
      → states ≡ zero_states d.customer_id
      → Keeps Quiet (fresh_cycle d run_id (plan_of d run_id states))
  by_states-Quiet run_id states zero =
      fresh_cycle-Quiet run_id (plan_of d run_id states)
        (rw zero (zero-n_total d kind index run_id))

  by_resumable-Quiet : Keeps Quiet (by_resumable d none)
  unfolding by_resumable create_run
  by_resumable-Quiet =
      bind-Keeps Quiet _ _ (query-Keeps Quiet _ (λ later fs g. g) (λ later g. g)) λ run_id.
        bind-Runs Quiet ZeroStates (λ _. Quiet) _ _ states-Zero
          (λ states later (zero, g). by_states-Quiet run_id states zero later g) (λ e later g. g)

  -- Only a baseline looks for a run to go on with.
  abbrev NoRun : Result (Option Resumable) → Db → Type 0
  NoRun (returned r) later = (r ≡ none) × Quiet later
  NoRun (threw e) later = Quiet later

  find_resumable-NoRun :
      (k : RunKind) → k ≡ operating → Runs Quiet (find_resumable d.customer_id k) NoRun
  unfolding find_resumable
  find_resumable-NoRun operating e later g = (refl, g)
  find_resumable-NoRun baseline e later g = elim (baseline-operating e) [ ]

  run_cycle-Quiet : Keeps Quiet (run_cycle d)
  unfolding run_cycle
  run_cycle-Quiet =
      bind-Runs Quiet NoRun (λ _. Quiet) _ _ (find_resumable-NoRun d.kind kind)
        (λ r later (none_found, g). by_found r none_found later g) (λ e later g. g)
    where
      by_found : (r : Option Resumable) → r ≡ none → Keeps Quiet (by_resumable d r)
      by_found none e = by_resumable-Quiet
      by_found (some r) e = elim (some-none e) [ ]

-- An operating cycle at index 0, the index it has when its caller names none, of a customer whose
-- cursors are 0 or not there yet, does nothing: it makes no request, leaves no job, writes no unit,
-- answer, judgment or call and moves no cursor, so that the next cycle finds them as they were.
pub operating_cycle-idle :
    {Report : Type 0} (d : RunCycleDeps Report) (db : Db)
    → d.kind ≡ operating
    → d.current_cycle_index ≡ 0
    → ((tier : DensityTier) → find_cursor d.customer_id tier db.cursors ≡ 0)
    → activity (run_cycle d db).1 ≡ activity db
operating_cycle-idle d db kind index cursors = run_cycle-Quiet d kind index db cursors db refl
