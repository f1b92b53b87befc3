-- ===== src/Pipeline/Response/Writes.antt =====
-- What every write of a unit keeps: src/pipeline/runResponse.ts.
use aeo_geo_optimization.Common.{
  ℕ, ◌≡◌, refl, String, Bool, true, false, Option, none, some, List, ◌∷◌, Bool-cases, inl, inr,
}
use aeo_geo_optimization.Domain.{WorkUnitStatus}
use aeo_geo_optimization.Cost.Budget.{CapCheck, within, budget_exceeded, cost_data_missing}
use aeo_geo_optimization.Pipeline.Store.{
  Payload, WorkUnitRow, RawRow, LlmCallRow, CacheEntry, GenerateRequest, Db, was_seen, not_pending,
  update_unit, to_status, to_done, find_work_unit, mark_work_unit_done, mark_work_unit_error,
  insert_response_raw, insert_judgment, insert_llm_call, check_cache, store_cache,
}
use aeo_geo_optimization.Pipeline.Store.Runs.{Keeps, AnyFaults, bind-Keeps, next-Keeps, query-Keeps}
use aeo_geo_optimization.Pipeline.Response.{
  AdapterUsage, ErrorCode, GenerateResult, generated, unconfigured, failed, RunResponseDeps, Served,
  mention_of, call_provider, on_failed, on_generated, generate_answer, serve, answer_of,
  judgment_row, record_judge, finish, guarded, is_done, cap_check, retry_or_stop, cache_answer,
  unless_done, run_response,
}

-- A condition that the writes of one unit keep. Only a unit that the budget guard lets through writes
-- more than its own status, and only an ungrounded one reads or writes the cache.
pub record Kept {ℓ} (p : Payload) (d : RunResponseDeps) (P : Db → Type ℓ) : Type ℓ where
  pub faults : AnyFaults P
  pub units :
      (db : Db) (f : WorkUnitRow → WorkUnitRow)
      → ((u : WorkUnitRow) → (f u).key ≡ u.key)
      → ((u : WorkUnitRow) → not_pending (f u).status ≡ true)
      → P db
      → P (record db { units = update_unit p.key f db.units })
  pub raws :
      cap_check p d ≡ within
      → (db : Db) (r : RawRow) (n : ℕ) → P db
      → P (record db { raws = r ∷ db.raws; next_id = n })
  pub calls :
      cap_check p d ≡ within
      → (db : Db) (c : LlmCallRow) → P db
      → P (record db { calls = c ∷ db.calls })
  pub judgments :
      cap_check p d ≡ within
      → (db : Db) (s : Served) (raw_id : ℕ) → P db
      → P (record db { judgments = judgment_row p d s raw_id ∷ db.judgments })
  pub requests :
      cap_check p d ≡ within
      → (db : Db) (req : GenerateRequest) → P db
      → P (record db { requests = req ∷ db.requests })
  pub cache :
      cap_check p d ≡ within
      → d.should_ground p.key ≡ false
      → (db : Db) (es : List CacheEntry) → P db
      → P (record db { cache = es })
  pub seen :
      cap_check p d ≡ within
      → d.should_ground p.key ≡ false
      → (db : Db) (ss : List (String × String)) → P db
      → P (record db { seen_in_run = ss })

module _ {ℓ} (p : Payload) (d : RunResponseDeps) (P : Db → Type ℓ) (kept : Kept p d P) where
  error-Keeps : Keeps P (mark_work_unit_error p.key)
  unfolding mark_work_unit_error
  error-Keeps =
      query-Keeps P _ kept.faults
        (λ db. kept.units db (to_status WorkUnitStatus.error) (λ u. refl) (λ u. refl))

  module _ (ok : cap_check p d ≡ within) where
    raw-Keeps : (row : ℕ → RawRow) → Keeps P (insert_response_raw row)
    unfolding insert_response_raw
    raw-Keeps row = query-Keeps P _ kept.faults (λ db. kept.raws ok db (row db.next_id) _)

    call-Keeps : (c : LlmCallRow) → Keeps P (insert_llm_call c)
    unfolding insert_llm_call
    call-Keeps c = query-Keeps P _ kept.faults (λ db. kept.calls ok db c)

    retry_or_stop-Keeps : (again : Bool) (code : ErrorCode) → Keeps P (retry_or_stop again code)
    unfolding retry_or_stop
    retry_or_stop-Keeps true code db h = h
    retry_or_stop-Keeps false code db h = h

    on_failed-Keeps :
        (code : ErrorCode) (again : Bool) (usage : Option AdapterUsage)
        → Keeps P (on_failed p d code again usage)
    unfolding on_failed
    on_failed-Keeps code again usage = bind-Keeps P _ _ (raw-Keeps _) λ raw_id.
        next-Keeps P _ _ (call-Keeps _)
          (next-Keeps P _ _ error-Keeps (retry_or_stop-Keeps again code))

    cache_answer-Keeps :
        (grounded : Bool) (answer : String)
        → d.should_ground p.key ≡ grounded
        → Keeps P (cache_answer grounded p answer)
    unfolding cache_answer store_cache
    cache_answer-Keeps true answer e db h = h
    cache_answer-Keeps false answer e db h =
        query-Keeps P _ kept.faults (λ later. kept.cache ok e later _) db h

    on_generated-Keeps :
        (grounded : Bool) (r : GenerateResult)
        → d.should_ground p.key ≡ grounded
        → Keeps P (on_generated p d grounded r)
    unfolding on_generated
    on_generated-Keeps grounded (generated answer usage) e db h =
        next-Keeps P _ _ (cache_answer-Keeps grounded answer e) (λ later g. g) db h
    on_generated-Keeps grounded unconfigured e db h = h
    on_generated-Keeps grounded (failed code again usage) e db h =
        on_failed-Keeps code again usage db h

    generate_answer-Keeps :
        (grounded : Bool)
        → d.should_ground p.key ≡ grounded
        → Keeps P (generate_answer p d grounded)
    unfolding generate_answer call_provider
    generate_answer-Keeps grounded e =
        bind-Keeps P _ _ (λ db h. kept.requests ok db _ h) (λ r. on_generated-Keeps grounded r e)

    serve-Keeps :
        (found : Option String) → d.should_ground p.key ≡ false → Keeps P (serve p d found)
    unfolding serve
    serve-Keeps (some answer) e db h = h
    serve-Keeps none e db h = generate_answer-Keeps false e db h

    check_cache-Keeps :
        (cutoff : Option ℕ) (hash run : String)
        → d.should_ground p.key ≡ false
        → Keeps P (check_cache cutoff hash run)
    unfolding check_cache
    check_cache-Keeps cutoff hash run e db h =
        elim (Bool-cases (was_seen run hash db.seen_in_run)) [
          | inl seen ↦ rw seen h
          | inr new ↦ rw new (query-Keeps P _ kept.faults (λ later g. g) _ (kept.seen ok e db _ h))
        ]

    answer_of-Keeps :
        (grounded : Bool) → d.should_ground p.key ≡ grounded → Keeps P (answer_of grounded p d)
    unfolding answer_of
    answer_of-Keeps true e = generate_answer-Keeps true e
    answer_of-Keeps false e =
        bind-Keeps P _ _ (check_cache-Keeps d.cache_cutoff p.request_hash p.key.run_id e)
          (λ found. serve-Keeps found e)

    record_judge-Keeps :
        (model : Option String) (usage : Option AdapterUsage) (raw_id : ℕ)
        → Keeps P (record_judge p d model usage raw_id)
    unfolding record_judge
    record_judge-Keeps model none raw_id db h = h
    record_judge-Keeps model (some u) raw_id db h = call-Keeps _ db h

    judgment-Keeps :
        (s : Served) (raw_id : ℕ) → Keeps P (insert_judgment (judgment_row p d s raw_id))
    unfolding insert_judgment
    judgment-Keeps s raw_id = query-Keeps P _ kept.faults (λ db. kept.judgments ok db s raw_id)

    done-Keeps : (raw_id : ℕ) → Keeps P (mark_work_unit_done p.key raw_id)
    unfolding mark_work_unit_done
    done-Keeps raw_id =
        query-Keeps P _ kept.faults (λ db. kept.units db (to_done raw_id) (λ u. refl) (λ u. refl))

    stored-Keeps : (s : Served) → Keeps P (finish p d (some s))
    unfolding finish
    stored-Keeps s = bind-Keeps P _ _ (raw-Keeps _) λ raw_id. next-Keeps P _ _ (call-Keeps _) (
        next-Keeps P _ _ (judgment-Keeps s raw_id) (
          next-Keeps P _ _
            (record_judge-Keeps (mention_of d s raw_id).judge_model_id
              (mention_of d s raw_id).judge_usage raw_id)
            (done-Keeps raw_id)))

    finish-Keeps : (served : Option Served) → Keeps P (finish p d served)
    unfolding finish
    finish-Keeps none db h = h
    finish-Keeps (some s) db h = stored-Keeps s db h

  guarded-Keeps : (check : CapCheck) → cap_check p d ≡ check → Keeps P (guarded p d check)
  unfolding guarded
  guarded-Keeps within ok =
      bind-Keeps P _ _ (answer_of-Keeps ok (d.should_ground p.key) refl) (finish-Keeps ok)
  guarded-Keeps (budget_exceeded cap) ok = next-Keeps P _ _ error-Keeps (λ db h. h)
  guarded-Keeps (cost_data_missing message) ok = next-Keeps P _ _ error-Keeps (λ db h. h)

  unless_done-Keeps : (found : Option WorkUnitRow) → Keeps P (unless_done p d found)
  unfolding unless_done
  unless_done-Keeps found db h = elim (Bool-cases (is_done found)) [
    | inl finished ↦ rw finished h
    | inr other ↦ rw other (guarded-Keeps (cap_check p d) refl db h)
  ]

  -- The whole of a unit keeps it.
  pub run_response-Keeps : Keeps P (run_response p d)
  unfolding run_response find_work_unit
  run_response-Keeps = bind-Keeps P _ _ (query-Keeps P _ kept.faults (λ db h. h)) unless_done-Keeps
