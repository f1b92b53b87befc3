-- ===== src/Pipeline/Loop/Ends.antt =====
-- Every unit that the loop comes to is over after it: src/pipeline/runCycle.ts.
use aeo_geo_optimization.Common.{
  ℕ, ◌≡◌, refl, String, true, false, not, ◌&&◌, Option, none, some, Bool-cases, inl, inr, text_eq,
  arith,
}
use aeo_geo_optimization.Domain.{ModelRef, skipped}
use aeo_geo_optimization.Sampling.Plan.{PlannedWorkUnit}
use aeo_geo_optimization.Pipeline.Store.{
  Db, M, Result, returned, threw, Failure, query_failed, no_executor, over_cap, retryable_job, ◌>>◌,
  pure, UnitKey, find_unit, to_done, to_status, mark_work_unit_done, mark_work_unit_skipped,
  insert_response_raw, insert_judgment, insert_llm_call, check_cache,
}
use aeo_geo_optimization.Pipeline.Store.Runs.{
  Runs, Keeps, NoFaults, Outcome, Returned, bind-Runs, next-Keeps, bind-Outcome, next-Outcome,
  query-Outcome, next-Resolves, settle-Runs, Resolves,
}
use aeo_geo_optimization.Pipeline.Response.Settled.{HasUnit, Settled, run_response-Settled}
use aeo_geo_optimization.Pipeline.Response.Resolves.{run_response-Resolves}
use aeo_geo_optimization.Pipeline.Loop.{
  Adapter, PriorJudgment, RunCycleDeps, handle, catching, unit_key, payload_of, response_deps,
  is_surface, ended, respond, prior_judgment, carry_forward, on_surface, execute_with, execute_unit,
}
use aeo_geo_optimization.Pipeline.Loop.Rows.{
  Over, settled_row-ended_row, Over-LoopKept, has-LoopKept, update_unit-own,
}
use aeo_geo_optimization.Pipeline.Loop.Writes.{error-Keeps, check_cache-Keeps, catching-Keeps}
use aeo_geo_optimization.Pipeline.Loop.Returns.{
  skipped-Resolves, check_cache-Returns, carry_forward-Resolves,
}

pub false-true : false ≡ true → ⊥
false-true e = ground arith

module _ {Report : Type 0} (d : RunCycleDeps Report) (run_id : String) (wu : PlannedWorkUnit) where
  abbrev key : UnitKey
  key = unit_key run_id wu

  -- What holds before the unit is run, without failing queries.
  abbrev Ready : Db → Type 0
  Ready db = NoFaults db × HasUnit key db

  skipped-Outcome :
      Runs (HasUnit key) (mark_work_unit_skipped key) (Outcome (λ _. Over key) (Over key))
  unfolding mark_work_unit_skipped
  skipped-Outcome =
      query-Outcome (HasUnit key) (λ _. Over key) (Over key) _ (λ db fs g. g)
        (λ db g. update_unit-own key (to_status skipped) db.units (λ u. refl) (λ u. refl) g)

  done-Outcome :
      (raw_id : ℕ)
      → Runs (HasUnit key) (mark_work_unit_done key raw_id) (Outcome (λ _. Over key) (Over key))
  unfolding mark_work_unit_done
  done-Outcome raw_id =
      query-Outcome (HasUnit key) (λ _. Over key) (Over key) _ (λ db fs g. g)
        (λ db g. update_unit-own key (to_done raw_id) db.units (λ u. refl) (λ u. refl) g)

  -- A settled unit is over.
  Settled-Outcome :
      {A : Type 0} (r : Result A) (db : Db)
      → Outcome (λ _. Settled key) (Settled key) r db
      → Outcome (λ _. Over key) (Over key) r db
  Settled-Outcome (returned a) db h = settled_row-ended_row (find_unit key db.units) h
  Settled-Outcome (threw query_failed) db h = tt
  Settled-Outcome (threw no_executor) db h = settled_row-ended_row (find_unit key db.units) h
  Settled-Outcome (threw (over_cap check)) db h = settled_row-ended_row (find_unit key db.units) h
  Settled-Outcome (threw (retryable_job code)) db h =
      settled_row-ended_row (find_unit key db.units) h

  then_ended-Over :
      (m : M (Unit {0}))
      → Resolves m
      → Runs (HasUnit key) m (Outcome (λ _. Over key) (Over key))
      → Runs Ready (m >> pure ended) (λ _ db. Over key db)
  then_ended-Over m resolves outcome =
      settle-Runs (HasUnit key) (Over key) (m >> pure ended)
        (next-Resolves _ _ resolves (λ db g. (refl, g)))
        (next-Outcome (HasUnit key) (Over key) (λ _. Over key) (Over key) _ _ outcome (λ db g. g))

  handle-Over :
      {A : Type 0} (f : Failure → M A) (ran : Result A × Db)
      → ((e : Failure) → Keeps (Over key) (f e))
      → Over key ran.1
      → Over key (handle f ran).1
  unfolding handle
  handle-Over f (returned a, db) k h = h
  handle-Over f (threw e, db) k h = k e db h

  catching-Over :
      {A : Type 0} (m : M A) (f : Failure → M A)
      → Runs Ready m (λ _ db. Over key db)
      → ((e : Failure) → Keeps (Over key) (f e))
      → Runs Ready (catching m f) (λ _ db. Over key db)
  unfolding catching
  catching-Over m f first k db ready = handle-Over f (m db) k (first db ready)

  respond-Over :
      (adapter : Adapter) → Runs Ready (respond d run_id wu adapter) (λ _ db. Over key db)
  unfolding respond
  respond-Over adapter =
      let p = payload_of d run_id wu in
      let deps = response_deps d adapter in
      catching-Over _ _
        (then_ended-Over _ (run_response-Resolves p deps)
          (λ db has. Settled-Outcome _ _ (run_response-Settled p deps db has)))
        (λ e db h. h)

  prior-Outcome :
      (find : Option (String → String → Db → Option PriorJudgment)) (hash run : String)
      → Runs (HasUnit key) (prior_judgment d find hash run) (Outcome (λ _. HasUnit key) (Over key))
  unfolding prior_judgment
  prior-Outcome none hash run db g = g
  prior-Outcome (some find) hash run db g =
      query-Outcome (HasUnit key) (λ _. HasUnit key) (Over key) _ (λ later fs h. h) (λ later h. h)
        db g

  carry_forward-Outcome :
      (answer : String)
      → Runs
          (HasUnit key)
          (carry_forward d (payload_of d run_id wu) answer)
          (Outcome (λ _. Over key) (Over key))
  unfolding carry_forward insert_response_raw insert_llm_call insert_judgment
  carry_forward-Outcome answer =
      let Has = HasUnit key in
      bind-Outcome Has (λ _. Has) (λ _. Over key) (Over key) _ _
        (query-Outcome Has (λ _. Has) (Over key) _ (λ db fs g. g) (λ db g. g))
        λ raw_id.
          next-Outcome Has Has (λ _. Over key) (Over key) _ _
            (query-Outcome Has (λ _. Has) (Over key) _ (λ db fs g. g) (λ db g. g))
            (bind-Outcome Has (λ _. Has) (λ _. Over key) (Over key) _ _
              (prior-Outcome d.find_prior_judgment_by_hash wu.request_hash run_id)
              λ j.
                next-Outcome Has Has (λ _. Over key) (Over key) _ _
                  (query-Outcome Has (λ _. Has) (Over key) _ (λ db fs g. g) (λ db g. g))
                  (done-Outcome raw_id))

  on_surface-Over :
      (adapter : Adapter) (found : Option String)
      → Runs Ready (on_surface d run_id wu adapter found) (λ _ db. Over key db)
  unfolding on_surface
  on_surface-Over adapter none db ready = respond-Over adapter db ready
  on_surface-Over adapter (some answer) db ready =
      catching-Over _ _
        (then_ended-Over _ (carry_forward-Resolves d (payload_of d run_id wu) answer)
          (carry_forward-Outcome answer))
        (λ e.
          next-Keeps (Over key) _ _
            (catching-Keeps (Over key) _ _
              (error-Keeps d (λ _. Unit {0}) (Over key) (Over-LoopKept d key) key) (λ _ later g. g))
            (λ later g. g))
        db ready

  -- The cache is asked, and the unit keeps its row.
  abbrev Asked : Result (Option String) → Db → Type 0
  Asked r db = Returned r db × HasUnit key db

  check_cache-Asked :
      (cutoff : Option ℕ) (hash run : String) → Runs Ready (check_cache cutoff hash run) Asked
  check_cache-Asked cutoff hash run db (clean, has) = (
    check_cache-Returns cutoff hash run db clean,
    check_cache-Keeps d (λ _. Unit {0}) (HasUnit key) (has-LoopKept d key) cutoff hash run db has,
  )

  execute_with-Over :
      (found : Option (ModelRef × Adapter))
      → Runs Ready (execute_with d run_id wu found) (λ _ db. Over key db)
  unfolding execute_with
  execute_with-Over none db ready =
      then_ended-Over _ (skipped-Resolves key) skipped-Outcome db ready
  execute_with-Over (some (model, adapter)) db ready =
      elim (Bool-cases (is_surface model.modality && not (text_eq wu.request_hash ""))) [
        | inl surface ↦ rw surface (
            bind-Runs Ready Asked (λ _ later. Over key later) _ _
              (check_cache-Asked d.cache_cutoff wu.request_hash run_id)
              (λ found later asked. on_surface-Over adapter found later (asked.0.1, asked.1))
              (λ e later asked. elim (false-true asked.0.0) [ ]) db ready)
        | inr other ↦ rw other (respond-Over adapter db ready)
      ]

  -- A unit that has a row is over after its turn.
  pub execute_unit-Over : Runs Ready (execute_unit d run_id wu) (λ _ db. Over key db)
  unfolding execute_unit
  execute_unit-Over = execute_with-Over _
