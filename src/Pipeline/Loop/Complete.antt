-- ===== src/Pipeline/Loop/Complete.antt =====
-- The loop leaves no unit behind: src/pipeline/runCycle.ts.
use aeo_geo_optimization.Common.{
  ◌≡◌, ◌≢◌, refl, String, Bool, true, false, List, [], ◌∷◌, All, All-weaken,
}
use aeo_geo_optimization.Sampling.Plan.{PlannedWorkUnit}
use aeo_geo_optimization.Pipeline.Store.{Db, M, Result, returned, RunStatus, over_budget}
use aeo_geo_optimization.Pipeline.Store.Runs.{
  Runs, Keeps, NoFaults, Returned, is_returned, bind-Runs,
}
use aeo_geo_optimization.Pipeline.Response.Settled.{HasUnit}
use aeo_geo_optimization.Pipeline.Loop.{
  RunCycleDeps, unit_key, UnitEnd, ended, broke, out_of_budget, execute_unit, after_unit,
  execute_units,
}
use aeo_geo_optimization.Pipeline.Loop.Writes.{execute_unit-Keeps, execute_units-Keeps}
use aeo_geo_optimization.Pipeline.Loop.Returns.{execute_unit-Returns, execute_units-Returns}
use aeo_geo_optimization.Pipeline.Loop.Rows.{Over, Over-LoopKept, has-LoopKept}
use aeo_geo_optimization.Pipeline.Loop.Ends.{execute_unit-Over, false-true}

module _ {Report : Type 0} (d : RunCycleDeps Report) (run_id : String) where
  abbrev pub AllHave : List PlannedWorkUnit → Db → Type 0
  AllHave units db = All (λ wu. HasUnit (unit_key run_id wu) db) units

  abbrev pub AllOver : List PlannedWorkUnit → Db → Type 0
  AllOver units db = All (λ wu. Over (unit_key run_id wu) db) units

  execute_unit-AllHave :
      (wu : PlannedWorkUnit) (units : List PlannedWorkUnit)
      → Keeps (AllHave units) (execute_unit d run_id wu)
  execute_unit-AllHave wu units db have =
      All-weaken _ _ units
        (λ w h.
          execute_unit-Keeps d (λ _. Unit {0}) (HasUnit (unit_key run_id w))
            (has-LoopKept d (unit_key run_id w)) run_id wu db h)
        have

  -- What the turn of a unit leaves for the others.
  abbrev Turned : PlannedWorkUnit → List PlannedWorkUnit → Result UnitEnd → Db → Type 0
  Turned wu units r db = Returned r db × Over (unit_key run_id wu) db × AllHave units db

  execute_unit-Turned :
      (wu : PlannedWorkUnit) (units : List PlannedWorkUnit)
      → Runs
          (λ db. NoFaults db × AllHave (wu ∷ units) db)
          (execute_unit d run_id wu)
          (Turned wu units)
  execute_unit-Turned wu units db (clean, have) = (
    execute_unit-Returns d run_id wu db clean,
    execute_unit-Over d run_id wu db (clean, have.0),
    execute_unit-AllHave wu units db have.1,
  )

  -- The units are over, if the loop did not stop for the budget.
  abbrev Complete : List PlannedWorkUnit → Result RunStatus → Db → Type 0
  Complete units r db = r ≢ returned over_budget → AllOver units db

  after_unit-Complete :
      (wu : PlannedWorkUnit) (units : List PlannedWorkUnit) (rest : Bool → M RunStatus)
      (had_error : Bool) (end : UnitEnd) (db : Db)
      → ((b : Bool) → Complete units (rest b db).0 (rest b db).1)
      → ((b : Bool) → Over (unit_key run_id wu) (rest b db).1)
      → Complete
          (wu ∷ units)
          (after_unit rest had_error end db).0
          (after_unit rest had_error end db).1
  unfolding after_unit
  after_unit-Complete wu units rest had_error ended db k over goes =
      (over had_error, k had_error goes)
  after_unit-Complete wu units rest had_error broke db k over goes = (over true, k true goes)
  after_unit-Complete wu units rest had_error out_of_budget db k over goes = elim (goes refl) [ ]

  execute_units-Complete :
      (units : List PlannedWorkUnit) (had_error : Bool)
      → Runs
          (λ db. NoFaults db × AllHave units db)
          (execute_units d run_id units had_error)
          (Complete units)
  unfolding execute_units
  execute_units-Complete [] had_error db ready = λ goes. tt
  execute_units-Complete (wu ∷ units) had_error db ready =
      bind-Runs (λ later. NoFaults later × AllHave (wu ∷ units) later) (Turned wu units)
        (Complete (wu ∷ units)) _ _ (execute_unit-Turned wu units)
        (λ end later (back, over, have).
          after_unit-Complete wu units (execute_units d run_id units) had_error end later
            (λ b. execute_units-Complete units b later (back.1, have))
            (λ b.
              execute_units-Keeps d (λ _. Unit {0}) (Over (unit_key run_id wu))
                (Over-LoopKept d (unit_key run_id wu)) run_id units b later over))
        (λ e later turned. elim (false-true turned.0.0) [ ]) db ready

-- When no query fails, the loop over units that have their rows returns a status, and unless that is
-- over_budget it leaves every one of the units done, skipped or error, whatever the providers and the
-- judge answer and whatever a unit throws.
pub execute_units-completes :
    {Report : Type 0} (d : RunCycleDeps Report) (run_id : String) (units : List PlannedWorkUnit)
    (db : Db)
    → NoFaults db
    → AllHave d run_id units db
    → (execute_units d run_id units false db).0 ≢ returned over_budget
    → (is_returned (execute_units d run_id units false db).0 ≡ true)
      × AllOver d run_id units (execute_units d run_id units false db).1
execute_units-completes d run_id units db clean have goes = (
  (execute_units-Returns d run_id units false db clean).0,
  execute_units-Complete d run_id units false db (clean, have) goes,
)
