-- ===== src/Pipeline/Response/Settled.antt =====
-- A unit of work is over once it has been run: src/pipeline/runResponse.ts.
use aeo_geo_optimization.Common.{
  ℕ, ◌≡◌, refl, Bool, true, false, Option, none, some, List, [], ◌∷◌, any, String, arith,
  Bool-cases, inl, inr,
}
use aeo_geo_optimization.Domain.{WorkUnitStatus, done, error}
use aeo_geo_optimization.Cost.Budget.{CapCheck, within, budget_exceeded, cost_data_missing}
use aeo_geo_optimization.Pipeline.Store.{
  Payload, UnitKey, WorkUnitRow, same_unit, find_unit, update_unit, to_done, to_status, Db, RawRow,
  LlmCallRow, find_work_unit, mark_work_unit_done, mark_work_unit_error, insert_response_raw,
  insert_judgment, insert_llm_call, check_cache, store_cache, was_seen,
}
use aeo_geo_optimization.Pipeline.Store.Runs.{
  Runs, Outcome, bind-Outcome, next-Outcome, query-Outcome,
}
use aeo_geo_optimization.Pipeline.Response.{
  AdapterUsage, ErrorCode, GenerateResult, generated, unconfigured, failed, RunResponseDeps, Served,
  mention_of, retry_or_stop, on_failed, cache_answer, on_generated, call_provider, generate_answer,
  serve, answer_of, judgment_row, record_judge, finish, guarded, cap_check, is_done, has_done,
  unless_done, run_response,
}

abbrev pub is_settled : WorkUnitStatus → Bool
is_settled done = true
is_settled error = true
is_settled _ = false

abbrev pub settled_row : Option WorkUnitRow → Bool
settled_row none = false
settled_row (some u) = is_settled u.status

-- The unit has a row.
abbrev pub HasUnit : UnitKey → Db → Type 0
HasUnit k db = any (λ (u : WorkUnitRow). same_unit u.key k) db.units ≡ true

-- The unit's row is done or error.
abbrev pub Settled : UnitKey → Db → Type 0
Settled k db = settled_row (find_unit k db.units) ≡ true

update_unit-settled_row :
    (k : UnitKey) (f : WorkUnitRow → WorkUnitRow)
    → ((u : WorkUnitRow) → (f u).key ≡ u.key)
    → ((u : WorkUnitRow) → is_settled (f u).status ≡ true)
    → (units : List WorkUnitRow) → any (λ (u : WorkUnitRow). same_unit u.key k) units ≡ true
    → settled_row (find_unit k (update_unit k f units)) ≡ true
unfolding find_unit
update_unit-settled_row k f same over [] h = ground arith
update_unit-settled_row k f same over (u ∷ units) h = elim (Bool-cases (same_unit u.key k)) [
  | inl own ↦ simp (own, same u, over u) refl
  | inr other ↦ rw (other, other) (update_unit-settled_row k f same over units (rw other at h))
]

has_done-is_settled : (s : WorkUnitStatus) → has_done s ≡ true → is_settled s ≡ true
has_done-is_settled s h = ground arith

is_done-settled_row : (found : Option WorkUnitRow) → is_done found ≡ true → settled_row found ≡ true
is_done-settled_row none h = h
is_done-settled_row (some u) h = has_done-is_settled u.status h

module _ (p : Payload) (d : RunResponseDeps) where
  abbrev Has : Db → Type 0
  Has = HasUnit p.key

  abbrev Over : Db → Type 0
  Over = Settled p.key

  -- Without an answer to store the unit is settled.
  abbrev Answered : Option Served → Db → Type 0
  Answered none = Over
  Answered (some s) = Has

  error-Settled : Runs Has (mark_work_unit_error p.key) (Outcome (λ _. Over) Over)
  unfolding mark_work_unit_error
  error-Settled =
      query-Outcome Has (λ _. Over) Over _ (λ db fs g. g)
        λ db g. update_unit-settled_row p.key (to_status error) (λ u. refl) (λ u. refl) db.units g

  done-Settled :
      (raw_id : ℕ) → Runs Has (mark_work_unit_done p.key raw_id) (Outcome (λ _. Over) Over)
  unfolding mark_work_unit_done
  done-Settled raw_id =
      query-Outcome Has (λ _. Over) Over _ (λ db fs g. g)
        λ db g. update_unit-settled_row p.key (to_done raw_id) (λ u. refl) (λ u. refl) db.units g

  raw-Has : (row : ℕ → RawRow) → Runs Has (insert_response_raw row) (Outcome (λ _. Has) Over)
  unfolding insert_response_raw
  raw-Has row = query-Outcome Has (λ _. Has) Over _ (λ db fs g. g) (λ db g. g)

  call-Has : (c : LlmCallRow) → Runs Has (insert_llm_call c) (Outcome (λ _. Has) Over)
  unfolding insert_llm_call
  call-Has c = query-Outcome Has (λ _. Has) Over _ (λ db fs g. g) (λ db g. g)

  judgment-Has :
      (s : Served) (raw_id : ℕ)
      → Runs Has (insert_judgment (judgment_row p d s raw_id)) (Outcome (λ _. Has) Over)
  unfolding insert_judgment
  judgment-Has s raw_id = query-Outcome Has (λ _. Has) Over _ (λ db fs g. g) (λ db g. g)

  retry_or_stop-Settled :
      (again : Bool) (code : ErrorCode)
      → Runs Over (retry_or_stop again code) (Outcome Answered Over)
  unfolding retry_or_stop
  retry_or_stop-Settled true code db g = g
  retry_or_stop-Settled false code db g = g

  on_failed-Settled :
      (code : ErrorCode) (again : Bool) (usage : Option AdapterUsage)
      → Runs Has (on_failed p d code again usage) (Outcome Answered Over)
  unfolding on_failed
  on_failed-Settled code again usage =
      bind-Outcome Has (λ _. Has) Answered Over _ _ (raw-Has _)
        λ id.
          next-Outcome Has Has Answered Over _ _ (call-Has _) (
            next-Outcome Has Over Answered Over _ _ error-Settled
              (retry_or_stop-Settled again code))

  cache_answer-Has :
      (grounded : Bool) (answer : String)
      → Runs Has (cache_answer grounded p answer) (Outcome (λ _. Has) Over)
  unfolding cache_answer store_cache
  cache_answer-Has true answer db g = g
  cache_answer-Has false answer db g =
      query-Outcome Has (λ _. Has) Over _ (λ later fs h. h) (λ later h. h) db g

  on_generated-Settled :
      (grounded : Bool) (r : GenerateResult)
      → Runs Has (on_generated p d grounded r) (Outcome Answered Over)
  unfolding on_generated
  on_generated-Settled grounded (generated answer usage) db g =
      next-Outcome Has Has Answered Over _ _ (cache_answer-Has grounded answer) (λ later h. h) db g
  on_generated-Settled grounded unconfigured db g = g
  on_generated-Settled grounded (failed code again usage) db g =
      on_failed-Settled code again usage db g

  generate_answer-Settled :
      (grounded : Bool) → Runs Has (generate_answer p d grounded) (Outcome Answered Over)
  unfolding generate_answer call_provider
  generate_answer-Settled grounded =
      bind-Outcome Has (λ _. Has) Answered Over _ _ (λ db g. g) (on_generated-Settled grounded)

  serve-Settled : (found : Option String) → Runs Has (serve p d found) (Outcome Answered Over)
  unfolding serve
  serve-Settled (some answer) db g = g
  serve-Settled none db g = generate_answer-Settled false db g

  check_cache-Has :
      (cutoff : Option ℕ) (hash run : String)
      → Runs Has (check_cache cutoff hash run) (Outcome (λ _. Has) Over)
  unfolding check_cache
  check_cache-Has cutoff hash run db g = elim (Bool-cases (was_seen run hash db.seen_in_run)) [
    | inl seen ↦ rw seen g
    | inr new ↦ rw new (query-Outcome Has (λ _. Has) Over _ (λ later fs h. h) (λ later h. h) _ g)
  ]

  answer_of-Settled : (grounded : Bool) → Runs Has (answer_of grounded p d) (Outcome Answered Over)
  unfolding answer_of
  answer_of-Settled true db g = generate_answer-Settled true db g
  answer_of-Settled false db g =
      bind-Outcome Has (λ _. Has) Answered Over _ _
        (check_cache-Has d.cache_cutoff p.request_hash p.key.run_id) serve-Settled db g

  record_judge-Has :
      (model : Option String) (usage : Option AdapterUsage) (raw_id : ℕ)
      → Runs Has (record_judge p d model usage raw_id) (Outcome (λ _. Has) Over)
  unfolding record_judge
  record_judge-Has model none raw_id db g = g
  record_judge-Has model (some u) raw_id db g = call-Has _ db g

  store-Settled : (s : Served) → Runs Has (finish p d (some s)) (Outcome (λ _. Over) Over)
  unfolding finish
  store-Settled s =
      let mention = mention_of d s in
      bind-Outcome Has (λ _. Has) (λ _. Over) Over _ _ (raw-Has _)
        λ id.
          next-Outcome Has Has (λ _. Over) Over _ _ (call-Has _)
            (next-Outcome Has Has (λ _. Over) Over _ _ (judgment-Has s id)
              (next-Outcome Has Has (λ _. Over) Over _ _
                (record_judge-Has (mention id).judge_model_id (mention id).judge_usage id)
                (done-Settled id)))

  finish-Settled :
      (found : Option Served) → Runs (Answered found) (finish p d found) (Outcome (λ _. Over) Over)
  unfolding finish
  finish-Settled none db g = g
  finish-Settled (some s) db g = store-Settled s db g

  guarded-Settled : (check : CapCheck) → Runs Has (guarded p d check) (Outcome (λ _. Over) Over)
  unfolding guarded
  guarded-Settled within =
      bind-Outcome Has Answered (λ _. Over) Over _ _ (answer_of-Settled (d.should_ground p.key))
        finish-Settled
  guarded-Settled (budget_exceeded cap) =
      next-Outcome Has Over (λ _. Over) Over _ _ error-Settled (λ db g. g)
  guarded-Settled (cost_data_missing message) =
      next-Outcome Has Over (λ _. Over) Over _ _ error-Settled (λ db g. g)

  -- The row that was found is the unit's.
  abbrev Found : Option WorkUnitRow → Db → Type 0
  Found found db = Has db × (find_unit p.key db.units ≡ found)

  unless_done-Settled :
      (found : Option WorkUnitRow)
      → Runs (Found found) (unless_done p d found) (Outcome (λ _. Over) Over)
  unfolding unless_done
  unless_done-Settled found db (has, same) = elim (Bool-cases (is_done found)) [
    | inl finished ↦ rw finished (rw same (is_done-settled_row found finished))
    | inr other ↦ rw other (guarded-Settled (cap_check p d) db has)
  ]

-- A unit that has a row is done or error after it is run, whatever it was before and whatever the
-- provider and the judge answer, when the run returns and when it throws for the budget or to be tried
-- again; only a query that fails leaves it open.
pub run_response-Settled :
    (p : Payload) (d : RunResponseDeps) (db : Db)
    → HasUnit p.key db
    → Outcome (λ _. Settled p.key) (Settled p.key) (run_response p d db).0 (run_response p d db).1
unfolding run_response find_work_unit
run_response-Settled p d =
    bind-Outcome (HasUnit p.key) (Found p d) (λ _. Settled p.key) (Settled p.key) _ _
      (query-Outcome (HasUnit p.key) (Found p d) (Settled p.key) _ (λ db fs g. g)
        (λ db g. (g, refl)))
      (unless_done-Settled p d)
