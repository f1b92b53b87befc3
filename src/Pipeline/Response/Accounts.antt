-- ===== src/Pipeline/Response/Accounts.antt =====
-- The ledger against the answers and the requests: src/pipeline/runResponse.ts and src/cost/ledger.ts.
use aeo_geo_optimization.Common.{
  ℕ, ◌+◌, ◌≡◌, refl, Bool, true, false, Option, none, some, List, [], ◌∷◌, map, keep, length,
  String, arith, Bool-cases, inl, inr,
}
use aeo_geo_optimization.Cost.Budget.{CapCheck, within, budget_exceeded, cost_data_missing}
use aeo_geo_optimization.Pipeline.Store.{
  Payload, ResponseStatus, ok, not_configured, error, cached, WorkUnitRow, RawRow, LlmCallRow,
  LlmCallPurpose, generation, judge, GenerateRequest, Db, find_work_unit, mark_work_unit_done,
  mark_work_unit_error, insert_response_raw, insert_judgment, insert_llm_call, check_cache,
  store_cache, was_seen,
}
use aeo_geo_optimization.Pipeline.Store.Runs.{
  Runs, Outcome, bind-Outcome, next-Outcome, query-Outcome,
}
use aeo_geo_optimization.Pipeline.Response.{
  AdapterUsage, ErrorCode, GenerateResult, generated, unconfigured, failed, RunResponseDeps, Served,
  from_cache, from_provider, from_none, served_status, mention_of, retry_or_stop, on_failed,
  cache_answer, on_generated, call_provider, request_of, generate_answer, serve, answer_of,
  judgment_row, record_judge, finish, guarded, cap_check, is_done, unless_done, run_response,
}

abbrev pub is_generation : LlmCallPurpose → Bool
is_generation generation = true
is_generation judge = false

-- The answers that the ledger has a generation for, and the answers, the last one first.
abbrev pub generation_ids : List LlmCallRow → List (Option ℕ)
generation_ids calls = map (λ c. c.response_raw_id) (keep (λ c. is_generation c.purpose) calls)

abbrev pub raw_ids : List RawRow → List (Option ℕ)
raw_ids raws = map (λ r. some r.id) raws

abbrev pub fetched_by : ResponseStatus → ℕ
fetched_by cached = 0
fetched_by ok = 1
fetched_by not_configured = 1
fetched_by error = 1

-- The number of answers that are not from the cache.
abbrev pub fetched : List RawRow → ℕ
fetched [] = 0
fetched (r ∷ raws) = fetched_by r.status + fetched raws

-- Each stored answer has one generation in the ledger, in the same order, and each request of a
-- provider one stored answer that is not from the cache.
abbrev pub Accounted : Db → Type 0
Accounted db = (generation_ids db.calls ≡ raw_ids db.raws) × (length db.requests ≡ fetched db.raws)

-- As many requests as `n` still wait for their answer to be stored.
abbrev Requested : ℕ → Db → Type 0
Requested n db =
    (generation_ids db.calls ≡ raw_ids db.raws) × (length db.requests ≡ n + fetched db.raws)

-- The answer with this id waits for its generation in the ledger.
abbrev Stored : ℕ → Db → Type 0
Stored id db =
    (some id ∷ generation_ids db.calls ≡ raw_ids db.raws) × (length db.requests ≡ fetched db.raws)

abbrev owed : Served → ℕ
owed (from_cache a) = 0
owed (from_provider a u) = 1
owed from_none = 1

abbrev owed_after : Option Served → ℕ
owed_after none = 0
owed_after (some s) = owed s

raw-Stored :
    (n : ℕ) (row : ℕ → RawRow)
    → ((id : ℕ) → (row id).id ≡ id)
    → ((id : ℕ) → fetched_by (row id).status ≡ n)
    → Runs (Requested n) (insert_response_raw row) (Outcome Stored Accounted)
unfolding insert_response_raw
raw-Stored n row same count =
    query-Outcome (Requested n) Stored Accounted _ (λ db fs g. g)
      λ db g.
        let counted = count db.next_id in
        let total = g.1 in (rw (same db.next_id, g.0) refl, omega arith)

generation-Accounted :
    (id : ℕ) (c : LlmCallRow)
    → c.purpose ≡ generation
    → c.response_raw_id ≡ some id
    → Runs (Stored id) (insert_llm_call c) (Outcome (λ _. Accounted) Accounted)
unfolding insert_llm_call
generation-Accounted id c is_gen same =
    query-Outcome (Stored id) (λ _. Accounted) Accounted _ (λ db fs g. g)
      λ db g. (rw (is_gen, same) g.0, g.1)

judge-Accounted :
    (c : LlmCallRow)
    → c.purpose ≡ judge
    → Runs Accounted (insert_llm_call c) (Outcome (λ _. Accounted) Accounted)
unfolding insert_llm_call
judge-Accounted c is_judge =
    query-Outcome Accounted (λ _. Accounted) Accounted _ (λ db fs g. g)
      λ db g. (rw is_judge g.0, g.1)

error-Accounted :
    (p : Payload) → Runs Accounted (mark_work_unit_error p.key) (Outcome (λ _. Accounted) Accounted)
unfolding mark_work_unit_error
error-Accounted p = query-Outcome Accounted (λ _. Accounted) Accounted _ (λ db fs g. g) (λ db g. g)

none_Requested : (db : Db) → Accounted db → Requested 0 db
none_Requested db (pairs, total) = (pairs, omega arith)

request-Requested :
    (db : Db) (req : GenerateRequest)
    → Accounted db
    → Requested 1 (record db { requests = req ∷ db.requests })
request-Requested db req (pairs, total) = (pairs, omega arith)

Requested-none : (db : Db) → Requested 0 db → Accounted db
Requested-none db (pairs, total) = (pairs, omega arith)

module _ (p : Payload) (d : RunResponseDeps) where
  -- What the result of the generation leaves to store.
  abbrev Answered : Option Served → Db → Type 0
  Answered found = Requested (owed_after found)

  retry_or_stop-Accounted :
      (again : Bool) (code : ErrorCode)
      → Runs Accounted (retry_or_stop again code) (Outcome Answered Accounted)
  unfolding retry_or_stop
  retry_or_stop-Accounted true code db g = g
  retry_or_stop-Accounted false code db g = none_Requested db g

  on_failed-Accounted :
      (code : ErrorCode) (again : Bool) (usage : Option AdapterUsage)
      → Runs (Requested 1) (on_failed p d code again usage) (Outcome Answered Accounted)
  unfolding on_failed
  on_failed-Accounted code again usage =
      bind-Outcome (Requested 1) Stored Answered Accounted _ _
        (raw-Stored 1 _ (λ id. refl) (λ id. refl))
        λ id.
          next-Outcome (Stored id) Accounted Answered Accounted _ _
            (generation-Accounted id _ refl refl)
            (next-Outcome Accounted Accounted Answered Accounted _ _ (error-Accounted p)
              (retry_or_stop-Accounted again code))

  cache_answer-Requested :
      (grounded : Bool) (answer : String)
      → Runs (Requested 1) (cache_answer grounded p answer) (Outcome (λ _. Requested 1) Accounted)
  unfolding cache_answer store_cache
  cache_answer-Requested true answer db g = g
  cache_answer-Requested false answer db g =
      query-Outcome (Requested 1) (λ _. Requested 1) Accounted _ (λ later fs h. h) (λ later h. h) db
        g

  on_generated-Accounted :
      (grounded : Bool) (r : GenerateResult)
      → Runs (Requested 1) (on_generated p d grounded r) (Outcome Answered Accounted)
  unfolding on_generated
  on_generated-Accounted grounded (generated answer usage) db g =
      next-Outcome (Requested 1) (Requested 1) Answered Accounted _ _
        (cache_answer-Requested grounded answer) (λ later h. h) db g
  on_generated-Accounted grounded unconfigured db g = g
  on_generated-Accounted grounded (failed code again usage) db g =
      on_failed-Accounted code again usage db g

  generate_answer-Accounted :
      (grounded : Bool) → Runs Accounted (generate_answer p d grounded) (Outcome Answered Accounted)
  unfolding generate_answer call_provider
  generate_answer-Accounted grounded =
      bind-Outcome Accounted (λ _. Requested 1) Answered Accounted _ _
        (λ db. request-Requested db (request_of p grounded)) (on_generated-Accounted grounded)

  serve-Accounted :
      (found : Option String) → Runs Accounted (serve p d found) (Outcome Answered Accounted)
  unfolding serve
  serve-Accounted (some answer) db g = none_Requested db g
  serve-Accounted none db g = generate_answer-Accounted false db g

  check_cache-Accounted :
      (cutoff : Option ℕ) (hash run : String)
      → Runs Accounted (check_cache cutoff hash run) (Outcome (λ _. Accounted) Accounted)
  unfolding check_cache
  check_cache-Accounted cutoff hash run db g =
      elim (Bool-cases (was_seen run hash db.seen_in_run)) [
        | inl seen ↦ rw seen g
        | inr new ↦ rw new (
            query-Outcome Accounted (λ _. Accounted) Accounted _ (λ later fs h. h) (λ later h. h) _
              g)
      ]

  answer_of-Accounted :
      (grounded : Bool) → Runs Accounted (answer_of grounded p d) (Outcome Answered Accounted)
  unfolding answer_of
  answer_of-Accounted true db g = generate_answer-Accounted true db g
  answer_of-Accounted false db g =
      bind-Outcome Accounted (λ _. Accounted) Answered Accounted _ _
        (check_cache-Accounted d.cache_cutoff p.request_hash p.key.run_id) serve-Accounted db g

  record_judge-Accounted :
      (model : Option String) (usage : Option AdapterUsage) (raw_id : ℕ)
      → Runs Accounted (record_judge p d model usage raw_id) (Outcome (λ _. Accounted) Accounted)
  unfolding record_judge
  record_judge-Accounted model none raw_id db g = g
  record_judge-Accounted model (some u) raw_id db g = judge-Accounted _ refl db g

  judgment-Accounted :
      (s : Served) (raw_id : ℕ)
      → Runs Accounted
          (insert_judgment (judgment_row p d s raw_id))
          (Outcome (λ _. Accounted) Accounted)
  unfolding insert_judgment
  judgment-Accounted s raw_id =
      query-Outcome Accounted (λ _. Accounted) Accounted _ (λ db fs g. g) (λ db g. g)

  done-Accounted :
      (raw_id : ℕ)
      → Runs Accounted (mark_work_unit_done p.key raw_id) (Outcome (λ _. Accounted) Accounted)
  unfolding mark_work_unit_done
  done-Accounted raw_id =
      query-Outcome Accounted (λ _. Accounted) Accounted _ (λ db fs g. g) (λ db g. g)

  served-fetched_by : (s : Served) → fetched_by (served_status s) ≡ owed s
  served-fetched_by (from_cache a) = refl
  served-fetched_by (from_provider a u) = refl
  served-fetched_by from_none = refl

  finish-Accounted :
      (s : Served)
      → Runs (Requested (owed s)) (finish p d (some s)) (Outcome (λ _. Accounted) Accounted)
  unfolding finish
  finish-Accounted s =
      let mention = mention_of d s in
      bind-Outcome (Requested (owed s)) Stored (λ _. Accounted) Accounted _ _
        (raw-Stored (owed s) _ (λ id. refl) (λ id. served-fetched_by s))
        λ id.
          next-Outcome (Stored id) Accounted (λ _. Accounted) Accounted _ _
            (generation-Accounted id _ refl refl)
            (next-Outcome Accounted Accounted (λ _. Accounted) Accounted _ _
              (judgment-Accounted s id)
              (next-Outcome Accounted Accounted (λ _. Accounted) Accounted _ _
                (record_judge-Accounted (mention id).judge_model_id (mention id).judge_usage id)
                (done-Accounted id)))

  any_finish-Accounted :
      (found : Option Served)
      → Runs (Answered found) (finish p d found) (Outcome (λ _. Accounted) Accounted)
  unfolding finish
  any_finish-Accounted none db g = Requested-none db g
  any_finish-Accounted (some s) db g = finish-Accounted s db g

  guarded-Accounted :
      (check : CapCheck) → Runs Accounted (guarded p d check) (Outcome (λ _. Accounted) Accounted)
  unfolding guarded
  guarded-Accounted within =
      bind-Outcome Accounted Answered (λ _. Accounted) Accounted _ _
        (answer_of-Accounted (d.should_ground p.key)) any_finish-Accounted
  guarded-Accounted (budget_exceeded cap) =
      next-Outcome Accounted Accounted (λ _. Accounted) Accounted _ _ (error-Accounted p)
        (λ db g. g)
  guarded-Accounted (cost_data_missing message) =
      next-Outcome Accounted Accounted (λ _. Accounted) Accounted _ _ (error-Accounted p)
        (λ db g. g)

  unless_done-Accounted :
      (found : Option WorkUnitRow)
      → Runs Accounted (unless_done p d found) (Outcome (λ _. Accounted) Accounted)
  unfolding unless_done
  unless_done-Accounted found db g = elim (Bool-cases (is_done found)) [
    | inl finished ↦ rw finished g
    | inr other ↦ rw other (guarded-Accounted (cap_check p d) db g)
  ]

-- Unless a query fails, a unit of work keeps the ledger in step: each stored answer has one generation
-- in the ledger, in the same order, and each request of a provider one stored answer that is not from
-- the cache. This holds when it returns and when it throws for the budget or to be tried again.
pub run_response-Accounted :
    (p : Payload) (d : RunResponseDeps) (db : Db)
    → Accounted db
    → Outcome (λ _. Accounted) Accounted (run_response p d db).0 (run_response p d db).1
unfolding run_response find_work_unit
run_response-Accounted p d =
    bind-Outcome Accounted (λ _. Accounted) (λ _. Accounted) Accounted _ _
      (query-Outcome Accounted (λ _. Accounted) Accounted _ (λ db fs g. g) (λ db g. g))
      (unless_done-Accounted p d)
