-- ===== src/Pipeline/Store.antt =====
-- The tables of a run and the queries on them: src/db/repo.ts, src/cost/ledger.ts and
-- src/cost/cache.ts. A query may fail: then it throws and changes nothing, and `faults` says which
-- of the next ones do. What was written before an exception stays. A row's id is a number.
-- `seen_in_run` is what one cache has met: that of a cycle in one process, or of one job of the worker.

pub mod Runs
pub mod Cursors
pub mod Cycles
pub mod Cache
use aeo_geo_optimization.Common.{
  ℕ, ◌+◌, String, Bool, true, false, not, ◌&&◌, ◌||◌, Option, none, some, List, [], ◌∷◌, map, keep,
  any, ltb, leb, ◌==◌, text_eq, if◌then◌else◌, ◌-◌,
}
use aeo_geo_optimization.Domain.{
  WorkUnitStatus, pending, done, skipped, RunKind, DensityTier, tier_eq,
}
use aeo_geo_optimization.Guardrails.{Sentiment, Provenance, GuardrailStatus, Span}
use aeo_geo_optimization.Cost.Budget.{CapCheck}

pub data ResponseStatus : Type 0 where
  ok not_configured error cached : ResponseStatus

pub data RetryCode : Type 0 where
  rate_limited timeout transient : RetryCode

-- What an operation throws: a query of the database or of the job queue fails, or the code throws.
pub data Failure : Type 0 where
  query_failed no_executor : Failure
  over_cap : CapCheck → Failure
  retryable_job : RetryCode → Failure

-- The unit of work that a row or a payload is about.
pub record UnitKey : Type 0 where
  pub run_id : String
  pub question_id : String
  pub model_id : String
  pub language : String
  pub sample_idx : ℕ

pub record WorkUnitRow : Type 0 where
  pub key : UnitKey
  pub status : WorkUnitStatus
  pub response_raw_id : Option ℕ

pub record RawRow : Type 0 where
  pub id : ℕ
  pub key : UnitKey
  pub customer_id : String
  pub request_hash : String
  pub answer_text : Option String
  pub status : ResponseStatus

pub data LlmCallPurpose : Type 0 where
  generation judge : LlmCallPurpose

pub record LlmCallRow : Type 0 where
  pub customer_id : String
  pub run_id : String
  pub purpose : LlmCallPurpose
  pub provider : String
  pub model_id : String
  pub input_tokens : ℕ
  pub output_tokens : ℕ
  pub usd : ℕ
  pub cache_hit : Bool
  pub response_raw_id : Option ℕ

pub record JudgmentRow : Type 0 where
  pub response_raw_id : ℕ
  pub key : UnitKey
  pub customer_id : String
  pub response_status : ResponseStatus
  pub brand_mentioned : Bool
  pub brand_rank : Option ℕ
  pub sentiment : Option Sentiment
  pub competitors_found : List (String × Option ℕ)
  pub evidence : Option Span
  pub citation_present : Bool
  pub recommendation_present : Bool
  pub provenance : Provenance
  pub judge_model : Option String
  pub guardrail_status : GuardrailStatus

pub record CacheEntry : Type 0 where
  pub request_hash : String
  pub answer_text : String
  pub created_at : ℕ

pub record GenerateRequest : Type 0 where
  pub prompt : String
  pub model_id : String
  pub temperature : ℕ
  pub prompt_version : String
  pub language : String
  pub grounded : Bool

pub data RunStatus : Type 0 where
  planned running completed failed over_budget : RunStatus

pub record RunRow : Type 0 where
  pub id : String
  pub customer_id : String
  pub kind : RunKind
  pub status : RunStatus
  pub n_samples : ℕ
  pub temperature : ℕ
  pub n_total : Option ℕ
  pub started_at : Option ℕ
  pub finished_at : Option ℕ

pub record CursorRow : Type 0 where
  pub customer_id : String
  pub density_tier : DensityTier
  pub last_cycle_index : ℕ

-- The payload of a `response.run` job.
pub record Payload : Type 0 where
  pub key : UnitKey
  pub customer_id : String
  pub request_hash : String
  pub prompt : String
  pub prompt_version : String
  pub temperature : ℕ

pub data Job : Type 0 where
  response_run : Payload → Job
  cycle_aggregate : String → String → Job

-- The tables, the job queue, the set `seenInRun` of the shared cache, the requests made of providers, which
-- queries fail and the time.
pub record Db : Type 0 where
  pub runs : List RunRow
  pub cursors : List CursorRow
  pub jobs : List Job
  pub units : List WorkUnitRow
  pub raws : List RawRow
  pub calls : List LlmCallRow
  pub judgments : List JudgmentRow
  pub cache : List CacheEntry
  pub seen_in_run : List (String × String)
  pub requests : List GenerateRequest
  pub next_id : ℕ
  pub faults : List Bool
  pub clock : ℕ

pub data Result {ℓ} (A : Type ℓ) : Type ℓ where
  returned : A → Result A
  threw : Failure → Result A

abbrev pub M {ℓ} : Type ℓ → Type ℓ
M A = Db → Result A × Db

abbrev pub and_then {ℓ κ} : {A : Type ℓ} {B : Type κ} → (A → M B) → Result A × Db → Result B × Db
and_then f (returned a, db) = f a db
and_then f (threw e, db) = (threw e, db)

infixl 5 ◌>>=◌ ◌>>◌
unfoldable pub ◌>>=◌ {ℓ κ} : {A : Type ℓ} {B : Type κ} → M A → (A → M B) → M B
◌>>=◌ m f db = and_then f (m db)

unfoldable pub ◌>>◌ {ℓ} : {B : Type ℓ} → M (Unit {0}) → M B → M B
m >> k = m >>= λ _. k

abbrev pub pure {ℓ} : {A : Type ℓ} → A → M A
pure a db = (returned a, db)

abbrev pub throw {ℓ} : {A : Type ℓ} → Failure → M A
throw e db = (threw e, db)

abbrev pub fault : List Bool → Bool
fault [] = false
fault (f ∷ fs) = f

abbrev pub other_faults : List Bool → List Bool
other_faults [] = []
other_faults (f ∷ fs) = fs

-- One query.
unfoldable pub query {ℓ} : {A : Type ℓ} → (Db → A × Db) → M A
query run db =
    let later = record db { faults = other_faults db.faults } in
    if fault db.faults then (threw query_failed, later) else (returned (run later).0, (run later).1)

abbrev pub same_unit : UnitKey → UnitKey → Bool
same_unit a b =
    text_eq a.run_id b.run_id
    && text_eq a.question_id b.question_id
    && text_eq a.model_id b.model_id
    && text_eq a.language b.language
    && a.sample_idx == b.sample_idx

-- The first row of the run with the unit's question, model, language and sample.
unfoldable pub find_unit : UnitKey → List WorkUnitRow → Option WorkUnitRow
find_unit k [] = none
find_unit k (u ∷ units) = let rest = find_unit k units in if same_unit u.key k then some u else rest

-- `INSERT ... ON CONFLICT DO NOTHING` on the unit's key.
abbrev pub with_unit : UnitKey → List WorkUnitRow → List WorkUnitRow
with_unit k units =
    if any (λ (u : WorkUnitRow). same_unit u.key k) units
    then units
    else record { key = k; status = pending; response_raw_id = none } ∷ units

unfoldable pub insert_work_unit : UnitKey → M (Unit {0})
insert_work_unit k = query λ db. (tt, record db { units = with_unit k db.units })

abbrev pub update_unit : UnitKey → (WorkUnitRow → WorkUnitRow) → List WorkUnitRow → List WorkUnitRow
update_unit k f units = map (λ u. if same_unit u.key k then f u else u) units

abbrev pub not_pending : WorkUnitStatus → Bool
not_pending pending = false
not_pending _ = true

abbrev pub to_done : ℕ → WorkUnitRow → WorkUnitRow
to_done raw_id u = record u { status = done; response_raw_id = some raw_id }

abbrev pub to_status : WorkUnitStatus → WorkUnitRow → WorkUnitRow
to_status s u = record u { status = s }

unfoldable pub mark_work_unit_done : UnitKey → ℕ → M (Unit {0})
mark_work_unit_done k raw_id =
    query λ db. (tt, record db { units = update_unit k (to_done raw_id) db.units })

unfoldable pub mark_work_unit_skipped : UnitKey → M (Unit {0})
mark_work_unit_skipped k =
    query λ db. (tt, record db { units = update_unit k (to_status skipped) db.units })

unfoldable pub mark_work_unit_error : UnitKey → M (Unit {0})
mark_work_unit_error k =
    query λ db. (tt, record db { units = update_unit k (to_status WorkUnitStatus.error) db.units })

unfoldable pub find_work_unit : UnitKey → M (Option WorkUnitRow)
unfolding find_unit
find_work_unit k = query λ db. (find_unit k db.units, db)

-- The id that the database gives the row is the result.
unfoldable pub insert_response_raw : (ℕ → RawRow) → M ℕ
insert_response_raw row =
    query
      λ db. (db.next_id, record db { raws = row db.next_id ∷ db.raws; next_id = db.next_id + 1 })

unfoldable pub insert_judgment : JudgmentRow → M (Unit {0})
insert_judgment j = query λ db. (tt, record db { judgments = j ∷ db.judgments })

unfoldable pub insert_llm_call : LlmCallRow → M (Unit {0})
insert_llm_call c = query λ db. (tt, record db { calls = c ∷ db.calls })

-- `Ledger.recordGeneration`
abbrev pub generation_row : String → String → String → String → ℕ → ℕ → ℕ → Bool → ℕ → LlmCallRow
generation_row customer run provider model input output usd cache_hit raw_id = record {
  customer_id = customer;
  run_id = run;
  purpose = generation;
  provider = provider;
  model_id = model;
  input_tokens = input;
  output_tokens = output;
  usd = usd;
  cache_hit = cache_hit;
  response_raw_id = some raw_id;
}

abbrev pub find_hash : String → List CacheEntry → Option CacheEntry
find_hash h [] = none
find_hash h (e ∷ es) =
    let rest = find_hash h es in if text_eq e.request_hash h then some e else rest

-- 24 hours.
abbrev pub cache_ttl_ms : ℕ
cache_ttl_ms = 86_400_000

-- `findByHash` with the cutoff: none reads all entries, a time those before it.
abbrev pub before_cutoff : Option ℕ → CacheEntry → Bool
before_cutoff none e = true
before_cutoff (some t) e = ltb e.created_at t

-- The lookup of an entry, by its age.
abbrev pub fresh_answer : Option ℕ → ℕ → Option CacheEntry → Option String
fresh_answer cutoff now none = none
fresh_answer cutoff now (some e) =
    if before_cutoff cutoff e && leb now (e.created_at + cache_ttl_ms)
    then some e.answer_text
    else none

abbrev pub was_seen : String → String → List (String × String) → Bool
was_seen run h seen = any (λ (s : String × String). text_eq s.0 run && text_eq s.1 h) seen

-- `ResponseCache.check`: a hash that the run has met is a miss, else it is met now and looked up.
unfoldable pub check_cache : Option ℕ → String → String → M (Option String)
check_cache cutoff request_hash run_id db =
    if was_seen run_id request_hash db.seen_in_run
    then (returned none, db)
    else query
        (λ later. (fresh_answer cutoff later.clock (find_hash request_hash later.cache), later))
        (record db { seen_in_run = (run_id, request_hash) ∷ db.seen_in_run })

-- `ResponseCache.store`: `ON CONFLICT (request_hash) DO NOTHING`.
abbrev pub with_entry : CacheEntry → List CacheEntry → List CacheEntry
with_entry e cache =
    if any (λ (o : CacheEntry). text_eq o.request_hash e.request_hash) cache
    then cache
    else e ∷ cache

unfoldable pub store_cache : String → String → M (Unit {0})
store_cache request_hash answer = query λ db. (
  tt,
  record db {
    cache =
        with_entry
          (record { request_hash = request_hash; answer_text = answer; created_at = db.clock })
          db.cache;
  },
)
