-- ===== src/Pipeline/Loop/Returns.antt =====
-- The loop over the units comes to its end when no query fails: src/pipeline/runCycle.ts.
use aeo_geo_optimization.Common.{
  ℕ, refl, String, Bool, true, not, ◌&&◌, Option, none, some, List, [], ◌∷◌, Bool-cases, inl, inr,
  text_eq,
}
use aeo_geo_optimization.Domain.{ModelRef}
use aeo_geo_optimization.Sampling.Plan.{PlannedWorkUnit}
use aeo_geo_optimization.Pipeline.Store.{
  Db, M, Result, returned, threw, Failure, UnitKey, Payload, RunStatus, was_seen,
  mark_work_unit_done, mark_work_unit_skipped, mark_work_unit_error, insert_response_raw,
  insert_judgment, insert_llm_call, check_cache,
}
use aeo_geo_optimization.Pipeline.Store.Runs.{
  NoFaults, Resolves, Returned, Returns, bind-Resolves, next-Resolves, query-Resolves, bind-Returns,
  next-Returns, query-Returns,
}
use aeo_geo_optimization.Pipeline.Response.Resolves.{run_response-Resolves}
use aeo_geo_optimization.Pipeline.Loop.{
  Adapter, PriorJudgment, RunCycleDeps, handle, catching, unit_key, payload_of, response_deps,
  is_surface, UnitEnd, ended, broke, out_of_budget, respond, prior_judgment, carry_forward,
  on_surface, execute_with, execute_unit, after_unit, execute_units,
}

handle-Returns {ℓ} :
    {A : Type ℓ} (f : Failure → M A) (ran : Result A × Db)
    → ((e : Failure) → Returns (f e))
    → NoFaults ran.1
    → Returned (handle f ran).0 (handle f ran).1
unfolding handle
handle-Returns f (returned a, db) k clean = (refl, clean)
handle-Returns f (threw e, db) k clean = k e db clean

-- Exceptions that are caught end there.
catching-Returns {ℓ} :
    {A : Type ℓ} (m : M A) (f : Failure → M A)
    → Resolves m
    → ((e : Failure) → Returns (f e))
    → Returns (catching m f)
unfolding catching
catching-Returns m f first k db clean = handle-Returns f (m db) k (first db clean).1

error-Resolves : (k : UnitKey) → Resolves (mark_work_unit_error k)
unfolding mark_work_unit_error
error-Resolves k = query-Resolves _ (λ db. refl)

pub skipped-Resolves : (k : UnitKey) → Resolves (mark_work_unit_skipped k)
unfolding mark_work_unit_skipped
skipped-Resolves k = query-Resolves _ (λ db. refl)

skipped-Returns : (k : UnitKey) → Returns (mark_work_unit_skipped k)
unfolding mark_work_unit_skipped
skipped-Returns k = query-Returns _ (λ db. refl)

pub check_cache-Returns :
    (cutoff : Option ℕ) (hash run : String) → Returns (check_cache cutoff hash run)
unfolding check_cache
check_cache-Returns cutoff hash run db g = elim (Bool-cases (was_seen run hash db.seen_in_run)) [
  | inl seen ↦ rw seen (refl, g)
  | inr new ↦ rw new (query-Returns _ (λ later. refl) _ g)
]

module _ {Report : Type 0} (d : RunCycleDeps Report) where
  prior-Resolves :
      (find : Option (String → String → Db → Option PriorJudgment)) (hash run_id : String)
      → Resolves (prior_judgment d find hash run_id)
  unfolding prior_judgment
  prior-Resolves none hash run_id db g = (refl, g)
  prior-Resolves (some find) hash run_id db g = query-Resolves _ (λ later. refl) db g

  pub carry_forward-Resolves : (p : Payload) (answer : String) → Resolves (carry_forward d p answer)
  unfolding carry_forward insert_response_raw insert_llm_call insert_judgment mark_work_unit_done
  carry_forward-Resolves p answer = bind-Resolves _ _ (query-Resolves _ (λ db. refl)) λ raw_id.
      next-Resolves _ _ (query-Resolves _ (λ db. refl)) (
        bind-Resolves _ _ (prior-Resolves d.find_prior_judgment_by_hash p.request_hash p.key.run_id)
          (λ j. next-Resolves _ _ (query-Resolves _ (λ db. refl)) (query-Resolves _ (λ db. refl))))

  respond-Returns :
      (run_id : String) (wu : PlannedWorkUnit) (adapter : Adapter)
      → Returns (respond d run_id wu adapter)
  unfolding respond
  respond-Returns run_id wu adapter =
      catching-Returns _ _
        (next-Resolves _ _
          (run_response-Resolves (payload_of d run_id wu) (response_deps d adapter))
          (λ db g. (refl, g)))
        (λ e db g. (refl, g))

  on_surface-Returns :
      (run_id : String) (wu : PlannedWorkUnit) (adapter : Adapter) (found : Option String)
      → Returns (on_surface d run_id wu adapter found)
  unfolding on_surface
  on_surface-Returns run_id wu adapter none db g = respond-Returns run_id wu adapter db g
  on_surface-Returns run_id wu adapter (some answer) db g =
      catching-Returns _ _
        (next-Resolves _ _ (carry_forward-Resolves (payload_of d run_id wu) answer)
          (λ later h. (refl, h)))
        (λ e.
          next-Returns _ _
            (catching-Returns _ _ (error-Resolves (unit_key run_id wu)) (λ _ later h. (refl, h)))
            (λ later h. (refl, h)))
        db g

  execute_with-Returns :
      (run_id : String) (wu : PlannedWorkUnit) (found : Option (ModelRef × Adapter))
      → Returns (execute_with d run_id wu found)
  unfolding execute_with
  execute_with-Returns run_id wu none db g =
      next-Returns _ _ (skipped-Returns (unit_key run_id wu)) (λ later h. (refl, h)) db g
  execute_with-Returns run_id wu (some (model, adapter)) db g =
      elim (Bool-cases (is_surface model.modality && not (text_eq wu.request_hash ""))) [
        | inl surface ↦ rw surface (
            bind-Returns _ _ (check_cache-Returns d.cache_cutoff wu.request_hash run_id)
              (on_surface-Returns run_id wu adapter) db g)
        | inr other ↦ rw other (respond-Returns run_id wu adapter db g)
      ]

  pub execute_unit-Returns :
      (run_id : String) (wu : PlannedWorkUnit) → Returns (execute_unit d run_id wu)
  unfolding execute_unit
  execute_unit-Returns run_id wu = execute_with-Returns run_id wu _

  after_unit-Returns :
      (rest : Bool → M RunStatus) (had_error : Bool) (end : UnitEnd)
      → ((b : Bool) → Returns (rest b))
      → Returns (after_unit rest had_error end)
  unfolding after_unit
  after_unit-Returns rest had_error ended k db g = k had_error db g
  after_unit-Returns rest had_error broke k db g = k true db g
  after_unit-Returns rest had_error out_of_budget k db g = (refl, g)

  -- The loop returns a status, whatever the units throw.
  pub execute_units-Returns :
      (run_id : String) (units : List PlannedWorkUnit) (had_error : Bool)
      → Returns (execute_units d run_id units had_error)
  unfolding execute_units
  execute_units-Returns run_id [] had_error db g = (refl, g)
  execute_units-Returns run_id (wu ∷ units) had_error db g =
      bind-Returns _ _ (execute_unit-Returns run_id wu)
        (λ end.
          after_unit-Returns (execute_units d run_id units) had_error end
            (execute_units-Returns run_id units))
        db g
