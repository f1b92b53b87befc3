-- ===== src/Pipeline/Loop/Writes.antt =====
-- What every write of the loop over the units keeps: src/pipeline/runCycle.ts.
use aeo_geo_optimization.Common.{
  ℕ, ◌≡◌, refl, String, Bool, true, not, ◌&&◌, Option, none, some, List, [], ◌∷◌, Bool-cases, inl,
  inr, text_eq,
}
use aeo_geo_optimization.Domain.{ModelRef, WorkUnitStatus, skipped}
use aeo_geo_optimization.Sampling.Plan.{PlannedWorkUnit}
use aeo_geo_optimization.Pipeline.Store.{
  Db, M, Result, returned, threw, Failure, UnitKey, Payload, WorkUnitRow, RawRow, LlmCallRow,
  RunStatus, update_unit, to_done, to_status, not_pending, was_seen, mark_work_unit_done,
  mark_work_unit_skipped, mark_work_unit_error, insert_response_raw, insert_judgment,
  insert_llm_call, check_cache,
}
use aeo_geo_optimization.Pipeline.Store.Runs.{
  Runs, Keeps, AnyFaults, bind-Runs, bind-Keeps, next-Keeps, query-Runs, query-Keeps,
}
use aeo_geo_optimization.Pipeline.Response.Writes.{Kept, run_response-Keeps}
use aeo_geo_optimization.Pipeline.Loop.{
  Adapter, PriorJudgment, RunCycleDeps, handle, catching, unit_key, payload_of, response_deps,
  is_surface, UnitEnd, ended, broke, out_of_budget, respond, no_judgment, or_no_judgment,
  prior_judgment, carried_row, carry_forward, on_surface, execute_with, execute_unit, after_unit,
  execute_units,
}

handle-Keeps {ℓ κ} :
    {A : Type ℓ} (P : Db → Type κ) (f : Failure → M A) (ran : Result A × Db)
    → ((e : Failure) → Keeps P (f e))
    → P ran.1
    → P (handle f ran).1
unfolding handle
handle-Keeps P f (returned a, db) k h = h
handle-Keeps P f (threw e, db) k h = k e db h

pub catching-Keeps {ℓ κ} :
    {A : Type ℓ} (P : Db → Type κ) (m : M A) (f : Failure → M A)
    → Keeps P m
    → ((e : Failure) → Keeps P (f e))
    → Keeps P (catching m f)
unfolding catching
catching-Keeps P m f first k db h = handle-Keeps P f (m db) k (first db h)

-- A condition that the writes of the loop keep; `Good` holds of the judgments that are carried forward.
pub record LoopKept {ℓ} {Report : Type 0} (d : RunCycleDeps Report) (Good : PriorJudgment → Type ℓ)
    (P : Db → Type ℓ) : Type ℓ where
  pub response :
      (adapter : Adapter) (run_id : String) (wu : PlannedWorkUnit)
      → Kept (payload_of d run_id wu) (response_deps d adapter) P
  pub no_prior : Good no_judgment
  pub prior :
      (find : String → String → Db → Option PriorJudgment) (hash run_id : String) (db : Db)
      → d.find_prior_judgment_by_hash ≡ some find
      → P db
      → Good (or_no_judgment (find hash run_id db))
  pub faults : AnyFaults P
  pub units :
      (db : Db) (k : UnitKey) (f : WorkUnitRow → WorkUnitRow)
      → ((u : WorkUnitRow) → (f u).key ≡ u.key)
      → ((u : WorkUnitRow) → not_pending (f u).status ≡ true)
      → P db
      → P (record db { units = update_unit k f db.units })
  pub raws :
      (db : Db) (r : RawRow) (n : ℕ) → P db → P (record db { raws = r ∷ db.raws; next_id = n })
  pub calls : (db : Db) (c : LlmCallRow) → P db → P (record db { calls = c ∷ db.calls })
  pub carried :
      (db : Db) (k : UnitKey) (j : PriorJudgment) (raw_id : ℕ)
      → Good j
      → P db
      → P (record db { judgments = carried_row d k j raw_id ∷ db.judgments })
  pub seen : (db : Db) (ss : List (String × String)) → P db → P (record db { seen_in_run = ss })

module _ {ℓ} {Report : Type 0} (d : RunCycleDeps Report) (Good : PriorJudgment → Type ℓ)
    (P : Db → Type ℓ) (kept : LoopKept d Good P) where
  respond-Keeps :
      (run_id : String) (wu : PlannedWorkUnit) (adapter : Adapter)
      → Keeps P (respond d run_id wu adapter)
  unfolding respond
  respond-Keeps run_id wu adapter =
      catching-Keeps P _ _
        (next-Keeps P _ _
          (run_response-Keeps (payload_of d run_id wu) (response_deps d adapter) P
            (kept.response adapter run_id wu))
          (λ db h. h))
        (λ e db h. h)

  pub error-Keeps : (k : UnitKey) → Keeps P (mark_work_unit_error k)
  unfolding mark_work_unit_error
  error-Keeps k =
      query-Keeps P _ kept.faults
        (λ db. kept.units db k (to_status WorkUnitStatus.error) (λ u. refl) (λ u. refl))

  skipped-Keeps : (k : UnitKey) → Keeps P (mark_work_unit_skipped k)
  unfolding mark_work_unit_skipped
  skipped-Keeps k =
      query-Keeps P _ kept.faults
        (λ db. kept.units db k (to_status skipped) (λ u. refl) (λ u. refl))

  done-Keeps : (k : UnitKey) (raw_id : ℕ) → Keeps P (mark_work_unit_done k raw_id)
  unfolding mark_work_unit_done
  done-Keeps k raw_id =
      query-Keeps P _ kept.faults (λ db. kept.units db k (to_done raw_id) (λ u. refl) (λ u. refl))

  raw-Keeps : (row : ℕ → RawRow) → Keeps P (insert_response_raw row)
  unfolding insert_response_raw
  raw-Keeps row = query-Keeps P _ kept.faults (λ db. kept.raws db (row db.next_id) _)

  call-Keeps : (c : LlmCallRow) → Keeps P (insert_llm_call c)
  unfolding insert_llm_call
  call-Keeps c = query-Keeps P _ kept.faults (λ db. kept.calls db c)

  carried-Keeps :
      (k : UnitKey) (j : PriorJudgment) (raw_id : ℕ)
      → Good j
      → Keeps P (insert_judgment (carried_row d k j raw_id))
  unfolding insert_judgment
  carried-Keeps k j raw_id good =
      query-Keeps P _ kept.faults (λ db. kept.carried db k j raw_id good)

  -- A judgment that is found is good, and the tables stay.
  abbrev GoodPrior : Result PriorJudgment → Db → Type ℓ
  GoodPrior (returned j) db = Good j × P db
  GoodPrior (threw e) db = P db

  prior_judgment-Good :
      (find : Option (String → String → Db → Option PriorJudgment)) (hash run_id : String)
      → d.find_prior_judgment_by_hash ≡ find
      → Runs P (prior_judgment d find hash run_id) GoodPrior
  unfolding prior_judgment
  prior_judgment-Good none hash run_id e db h = (kept.no_prior, h)
  prior_judgment-Good (some find) hash run_id e db h =
      query-Runs P GoodPrior _ kept.faults (λ later g. g)
        (λ later g. (kept.prior find hash run_id later e g, g)) db h

  carry_forward-Keeps : (p : Payload) (answer : String) → Keeps P (carry_forward d p answer)
  unfolding carry_forward
  carry_forward-Keeps p answer = bind-Keeps P _ _ (raw-Keeps _) λ raw_id.
      next-Keeps P _ _ (call-Keeps _) (
        bind-Runs P GoodPrior (λ _ db. P db) _ _
          (prior_judgment-Good d.find_prior_judgment_by_hash p.request_hash p.key.run_id refl)
          (λ j db g.
            next-Keeps P _ _ (carried-Keeps p.key j raw_id g.0) (done-Keeps p.key raw_id) db g.1)
          (λ e db g. g))

  on_surface-Keeps :
      (run_id : String) (wu : PlannedWorkUnit) (adapter : Adapter) (found : Option String)
      → Keeps P (on_surface d run_id wu adapter found)
  unfolding on_surface
  on_surface-Keeps run_id wu adapter none db h = respond-Keeps run_id wu adapter db h
  on_surface-Keeps run_id wu adapter (some answer) db h =
      catching-Keeps P _ _
        (next-Keeps P _ _ (carry_forward-Keeps (payload_of d run_id wu) answer) (λ later g. g))
        (λ e.
          next-Keeps P _ _
            (catching-Keeps P _ _ (error-Keeps (unit_key run_id wu)) (λ _ later g. g))
            (λ later g. g))
        db h

  pub check_cache-Keeps :
      (cutoff : Option ℕ) (hash run : String) → Keeps P (check_cache cutoff hash run)
  unfolding check_cache
  check_cache-Keeps cutoff hash run db h = elim (Bool-cases (was_seen run hash db.seen_in_run)) [
    | inl seen ↦ rw seen h
    | inr new ↦ rw new (query-Keeps P _ kept.faults (λ later g. g) _ (kept.seen db _ h))
  ]

  execute_with-Keeps :
      (run_id : String) (wu : PlannedWorkUnit) (found : Option (ModelRef × Adapter))
      → Keeps P (execute_with d run_id wu found)
  unfolding execute_with
  execute_with-Keeps run_id wu none db h =
      next-Keeps P _ _ (skipped-Keeps (unit_key run_id wu)) (λ later g. g) db h
  execute_with-Keeps run_id wu (some (model, adapter)) db h =
      elim (Bool-cases (is_surface model.modality && not (text_eq wu.request_hash ""))) [
        | inl surface ↦ rw surface (
            bind-Keeps P _ _ (check_cache-Keeps d.cache_cutoff wu.request_hash run_id)
              (on_surface-Keeps run_id wu adapter) db h)
        | inr other ↦ rw other (respond-Keeps run_id wu adapter db h)
      ]

  pub execute_unit-Keeps :
      (run_id : String) (wu : PlannedWorkUnit) → Keeps P (execute_unit d run_id wu)
  unfolding execute_unit
  execute_unit-Keeps run_id wu = execute_with-Keeps run_id wu _

  after_unit-Keeps :
      (rest : Bool → M RunStatus) (had_error : Bool) (end : UnitEnd)
      → ((b : Bool) → Keeps P (rest b))
      → Keeps P (after_unit rest had_error end)
  unfolding after_unit
  after_unit-Keeps rest had_error ended k db h = k had_error db h
  after_unit-Keeps rest had_error broke k db h = k true db h
  after_unit-Keeps rest had_error out_of_budget k db h = h

  -- The whole loop keeps it.
  pub execute_units-Keeps :
      (run_id : String) (units : List PlannedWorkUnit) (had_error : Bool)
      → Keeps P (execute_units d run_id units had_error)
  unfolding execute_units
  execute_units-Keeps run_id [] had_error db h = h
  execute_units-Keeps run_id (wu ∷ units) had_error db h =
      bind-Keeps P _ _ (execute_unit-Keeps run_id wu)
        (λ end.
          after_unit-Keeps (execute_units d run_id units) had_error end
            (execute_units-Keeps run_id units))
        db h
