-- ===== src/Pipeline/Response/Resolves.antt =====
-- A unit of work comes to an end of its own when no query fails: src/pipeline/runResponse.ts.
use aeo_geo_optimization.Common.{
  ℕ, refl, Bool, true, false, Option, none, some, String, Bool-cases, inl, inr,
}
use aeo_geo_optimization.Cost.Budget.{CapCheck, within, budget_exceeded, cost_data_missing}
use aeo_geo_optimization.Pipeline.Store.{
  Payload, WorkUnitRow, RawRow, LlmCallRow, Db, find_work_unit, mark_work_unit_done,
  mark_work_unit_error, insert_response_raw, insert_judgment, insert_llm_call, check_cache,
  store_cache, was_seen,
}
use aeo_geo_optimization.Pipeline.Store.Runs.{
  Resolves, NoFaults, own_result-Outcome, bind-Resolves, next-Resolves, query-Resolves,
}
use aeo_geo_optimization.Pipeline.Response.{
  AdapterUsage, ErrorCode, GenerateResult, generated, unconfigured, failed, RunResponseDeps, Served,
  mention_of, retry_or_stop, on_failed, cache_answer, on_generated, call_provider, generate_answer,
  serve, answer_of, judgment_row, record_judge, finish, guarded, cap_check, is_done, unless_done,
  run_response,
}
use aeo_geo_optimization.Pipeline.Response.Settled.{HasUnit, Settled, run_response-Settled}

module _ (p : Payload) (d : RunResponseDeps) where
  error-Resolves : Resolves (mark_work_unit_error p.key)
  unfolding mark_work_unit_error
  error-Resolves = query-Resolves _ (λ db. refl)

  done-Resolves : (raw_id : ℕ) → Resolves (mark_work_unit_done p.key raw_id)
  unfolding mark_work_unit_done
  done-Resolves raw_id = query-Resolves _ (λ db. refl)

  raw-Resolves : (row : ℕ → RawRow) → Resolves (insert_response_raw row)
  unfolding insert_response_raw
  raw-Resolves row = query-Resolves _ (λ db. refl)

  call-Resolves : (c : LlmCallRow) → Resolves (insert_llm_call c)
  unfolding insert_llm_call
  call-Resolves c = query-Resolves _ (λ db. refl)

  judgment-Resolves :
      (s : Served) (raw_id : ℕ) → Resolves (insert_judgment (judgment_row p d s raw_id))
  unfolding insert_judgment
  judgment-Resolves s raw_id = query-Resolves _ (λ db. refl)

  retry_or_stop-Resolves : (again : Bool) (code : ErrorCode) → Resolves (retry_or_stop again code)
  unfolding retry_or_stop
  retry_or_stop-Resolves true code db g = (refl, g)
  retry_or_stop-Resolves false code db g = (refl, g)

  on_failed-Resolves :
      (code : ErrorCode) (again : Bool) (usage : Option AdapterUsage)
      → Resolves (on_failed p d code again usage)
  unfolding on_failed
  on_failed-Resolves code again usage = bind-Resolves _ _ (raw-Resolves _) λ id.
      next-Resolves _ _ (call-Resolves _)
        (next-Resolves _ _ error-Resolves (retry_or_stop-Resolves again code))

  cache_answer-Resolves :
      (grounded : Bool) (answer : String) → Resolves (cache_answer grounded p answer)
  unfolding cache_answer store_cache
  cache_answer-Resolves true answer db g = (refl, g)
  cache_answer-Resolves false answer db g = query-Resolves _ (λ later. refl) db g

  on_generated-Resolves :
      (grounded : Bool) (r : GenerateResult) → Resolves (on_generated p d grounded r)
  unfolding on_generated
  on_generated-Resolves grounded (generated answer usage) db g =
      next-Resolves _ _ (cache_answer-Resolves grounded answer) (λ later h. (refl, h)) db g
  on_generated-Resolves grounded unconfigured db g = (refl, g)
  on_generated-Resolves grounded (failed code again usage) db g =
      on_failed-Resolves code again usage db g

  generate_answer-Resolves : (grounded : Bool) → Resolves (generate_answer p d grounded)
  unfolding generate_answer call_provider
  generate_answer-Resolves grounded =
      bind-Resolves _ _ (λ db g. (refl, g)) (on_generated-Resolves grounded)

  serve-Resolves : (found : Option String) → Resolves (serve p d found)
  unfolding serve
  serve-Resolves (some answer) db g = (refl, g)
  serve-Resolves none db g = generate_answer-Resolves false db g

  check_cache-Resolves :
      (cutoff : Option ℕ) (hash run : String) → Resolves (check_cache cutoff hash run)
  unfolding check_cache
  check_cache-Resolves cutoff hash run db g = elim (Bool-cases (was_seen run hash db.seen_in_run)) [
    | inl seen ↦ rw seen (refl, g)
    | inr new ↦ rw new (query-Resolves _ (λ later. refl) _ g)
  ]

  answer_of-Resolves : (grounded : Bool) → Resolves (answer_of grounded p d)
  unfolding answer_of
  answer_of-Resolves true db g = generate_answer-Resolves true db g
  answer_of-Resolves false db g =
      bind-Resolves _ _ (check_cache-Resolves d.cache_cutoff p.request_hash p.key.run_id)
        serve-Resolves db g

  record_judge-Resolves :
      (model : Option String) (usage : Option AdapterUsage) (raw_id : ℕ)
      → Resolves (record_judge p d model usage raw_id)
  unfolding record_judge
  record_judge-Resolves model none raw_id db g = (refl, g)
  record_judge-Resolves model (some u) raw_id db g = call-Resolves _ db g

  store-Resolves : (s : Served) → Resolves (finish p d (some s))
  unfolding finish
  store-Resolves s =
      let mention = mention_of d s in
      bind-Resolves _ _ (raw-Resolves _) λ id. next-Resolves _ _ (call-Resolves _) (
        next-Resolves _ _ (judgment-Resolves s id) (
          next-Resolves _ _
            (record_judge-Resolves (mention id).judge_model_id (mention id).judge_usage id)
            (done-Resolves id)))

  finish-Resolves : (found : Option Served) → Resolves (finish p d found)
  unfolding finish
  finish-Resolves none db g = (refl, g)
  finish-Resolves (some s) db g = store-Resolves s db g

  guarded-Resolves : (check : CapCheck) → Resolves (guarded p d check)
  unfolding guarded
  guarded-Resolves within =
      bind-Resolves _ _ (answer_of-Resolves (d.should_ground p.key)) finish-Resolves
  guarded-Resolves (budget_exceeded type) = next-Resolves _ _ error-Resolves (λ db g. (refl, g))
  guarded-Resolves (cost_data_missing message) =
      next-Resolves _ _ error-Resolves (λ db g. (refl, g))

  unless_done-Resolves : (found : Option WorkUnitRow) → Resolves (unless_done p d found)
  unfolding unless_done
  unless_done-Resolves found db g = elim (Bool-cases (is_done found)) [
    | inl finished ↦ rw finished (refl, g)
    | inr other ↦ rw other (guarded-Resolves (cap_check p d) db g)
  ]

  pub run_response-Resolves : Resolves (run_response p d)
  unfolding run_response find_work_unit
  run_response-Resolves = bind-Resolves _ _ (query-Resolves _ (λ db. refl)) unless_done-Resolves

-- When no query fails, a unit that has a row is done or error after it is run, whatever the provider,
-- the judge and the budget say, and no query fails later either.
pub run_response-settles :
    (p : Payload) (d : RunResponseDeps) (db : Db)
    → NoFaults db
    → HasUnit p.key db
    → Settled p.key (run_response p d db).1 × NoFaults (run_response p d db).1
run_response-settles p d db clean has =
    let resolved = run_response-Resolves p d db clean in
    (
      own_result-Outcome (Settled p.key) (run_response p d db).0 (run_response p d db).1 resolved.0
          (run_response-Settled p d db has),
      resolved.1,
    )
