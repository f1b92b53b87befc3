-- ===== src/Pipeline/Response.antt =====
-- One unit of work: `runResponse` of src/pipeline/runResponse.ts. The provider, the judge pipeline
-- of src/judge/extractMention.ts and the choice of grounded units are passed: the provider answers
-- by the requests made before, the judge by the id of the stored answer, so that the same question
-- may be answered differently. A rate limiter only delays the provider's call and is left out, and
-- so are log lines and the providers' raw data.
pub mod Writes
pub mod Resume
pub mod Resolves
pub mod Settled
pub mod Accounts
pub mod Guarantees
use aeo_geo_optimization.Common.{
  ℕ, ◌+◌, String, Bool, true, false, not, ◌&&◌, ◌||◌, Option, none, some, List, [], ◌∷◌,
  if◌then◌else◌,
}
use aeo_geo_optimization.Domain.{WorkUnitStatus, done, Budget}
use aeo_geo_optimization.Guardrails.{
  Gate, GateContext, MutableVerdict, Provenance, GuardrailStatus, measurement, run_gates,
}
use aeo_geo_optimization.Cost.Budget.{CapCheck, within, CostReadPort, assert_within_cap_or_new}
use aeo_geo_optimization.Pipeline.Store.{
  Payload, ResponseStatus, ok, not_configured, error, cached, RetryCode, transient, Failure,
  over_cap, retryable_job, UnitKey, WorkUnitRow, RawRow, LlmCallRow, LlmCallPurpose, generation,
  judge, JudgmentRow, GenerateRequest, Db, Result, returned, threw, M, and_then, ◌>>=◌, ◌>>◌, pure,
  throw, find_work_unit, mark_work_unit_done, mark_work_unit_error, insert_response_raw,
  insert_judgment, insert_llm_call, generation_row, check_cache, store_cache,
}

pub record AdapterUsage : Type 0 where
  pub input_tokens : ℕ
  pub output_tokens : ℕ
  pub usd : ℕ
  pub cache_hit : Bool

pub data ErrorCode : Type 0 where
  rate_limited timeout provider_error : ErrorCode

pub data GenerateResult : Type 0 where
  generated : String → AdapterUsage → GenerateResult
  unconfigured : GenerateResult
  failed : ErrorCode → Bool → Option AdapterUsage → GenerateResult

-- What the judge pipeline finds: the verdict with its provenance, and the judge's model and usage.
pub record Mention : Type 0 where
  pub verdict : MutableVerdict
  pub citation_present : Bool
  pub recommendation_present : Bool
  pub judge_model_id : Option String
  pub judge_usage : Option AdapterUsage

pub record RunResponseDeps : Type 0 where
  pub provider : String
  pub generate : List GenerateRequest → GenerateRequest → GenerateResult
  pub judge_provider : String
  pub extract_mention : ℕ → ResponseStatus → Option String → Mention
  pub should_ground : UnitKey → Bool
  pub budget : Budget
  pub is_new_customer : Bool
  pub cost_reader : CostReadPort
  pub cache_cutoff : Option ℕ
  pub gates : List Gate
  pub brand_name : String
  pub brand_aliases : List String

-- The answer that is stored: from the cache, from the provider, or none if it is not configured.
pub data Served : Type 0 where
  from_cache : String → Served
  from_provider : String → AdapterUsage → Served
  from_none : Served

abbrev pub served_status : Served → ResponseStatus
served_status (from_cache a) = cached
served_status (from_provider a u) = ok
served_status from_none = not_configured

abbrev pub served_answer : Served → Option String
served_answer (from_cache a) = some a
served_answer (from_provider a u) = some a
served_answer from_none = none

abbrev pub raw_row : Payload → Option String → ResponseStatus → ℕ → RawRow
raw_row p answer status id = record {
  id = id;
  key = p.key;
  customer_id = p.customer_id;
  request_hash = p.request_hash;
  answer_text = answer;
  status = status;
}

abbrev pub call_row : Payload → RunResponseDeps → AdapterUsage → ℕ → LlmCallRow
call_row p d u raw_id =
    generation_row p.customer_id p.key.run_id d.provider p.key.model_id u.input_tokens
      u.output_tokens u.usd u.cache_hit raw_id

abbrev pub no_usage : Bool → AdapterUsage
no_usage cache_hit = record { input_tokens = 0; output_tokens = 0; usd = 0; cache_hit = cache_hit }

-- `recordCacheHit`, `recordGeneration` or `recordNotConfigured`.
abbrev pub served_usage : Served → AdapterUsage
served_usage (from_cache a) = no_usage true
served_usage (from_provider a u) = u
served_usage from_none = no_usage false

abbrev pub or_no_usage : Option AdapterUsage → AdapterUsage
or_no_usage none = no_usage false
or_no_usage (some u) = record u { cache_hit = false }

abbrev pub retry_code : ErrorCode → RetryCode
retry_code ErrorCode.rate_limited = RetryCode.rate_limited
retry_code ErrorCode.timeout = RetryCode.timeout
retry_code provider_error = transient

-- The provider is called; the request is kept.
unfoldable pub call_provider : RunResponseDeps → GenerateRequest → M GenerateResult
call_provider d req db =
    (returned (d.generate db.requests req), record db { requests = req ∷ db.requests })

unfoldable pub retry_or_stop : Bool → ErrorCode → M (Option Served)
retry_or_stop true code = throw (retryable_job (retry_code code))
retry_or_stop false code = pure none

-- A failed generation is stored and recorded, the unit is marked, and a retryable one throws.
unfoldable pub on_failed :
    Payload → RunResponseDeps → ErrorCode → Bool → Option AdapterUsage → M (Option Served)
unfolding insert_response_raw insert_llm_call mark_work_unit_error retry_or_stop
on_failed p d code again usage = do
  raw_id ← insert_response_raw (raw_row p none error)
  insert_llm_call (call_row p d (or_no_usage usage) raw_id)
  mark_work_unit_error p.key
  retry_or_stop again code

-- A grounded answer is never stored in the cache.
unfoldable pub cache_answer : Bool → Payload → String → M (Unit {0})
unfolding store_cache
cache_answer true p answer = pure tt
cache_answer false p answer = store_cache p.request_hash answer

unfoldable pub on_generated : Payload → RunResponseDeps → Bool → GenerateResult → M (Option Served)
unfolding on_failed cache_answer
on_generated p d grounded (generated answer usage) =
    cache_answer grounded p answer >> pure (some (from_provider answer usage))
on_generated p d grounded unconfigured = pure (some from_none)
on_generated p d grounded (failed code again usage) = on_failed p d code again usage

abbrev pub request_of : Payload → Bool → GenerateRequest
request_of p grounded = record {
  prompt = p.prompt;
  model_id = p.key.model_id;
  temperature = p.temperature;
  prompt_version = p.prompt_version;
  language = p.key.language;
  grounded = grounded;
}

unfoldable pub generate_answer : Payload → RunResponseDeps → Bool → M (Option Served)
unfolding on_generated call_provider
generate_answer p d grounded = call_provider d (request_of p grounded) >>= on_generated p d grounded

unfoldable pub serve : Payload → RunResponseDeps → Option String → M (Option Served)
unfolding generate_answer
serve p d (some answer) = pure (some (from_cache answer))
serve p d none = generate_answer p d false

-- A grounded unit neither reads nor writes the cache.
unfoldable pub answer_of : Bool → Payload → RunResponseDeps → M (Option Served)
unfolding generate_answer serve check_cache
answer_of true p d = generate_answer p d true
answer_of false p d = check_cache d.cache_cutoff p.request_hash p.key.run_id >>= serve p d

-- The verdict before the gates has passed none yet.
abbrev pub gate_context : Payload → RunResponseDeps → Served → MutableVerdict → GateContext
gate_context p d s verdict = record {
  verdict = record verdict { guardrail_status = GuardrailStatus.pass; downgrade_reason = none };
  answer_text = served_answer s;
  brand_aliases = d.brand_name ∷ d.brand_aliases;
  run_id = p.key.run_id;
  response_raw_id = "";
}

abbrev pub mention_of : RunResponseDeps → Served → ℕ → Mention
mention_of d s raw_id = d.extract_mention raw_id (served_status s) (served_answer s)

unfoldable pub final_verdict : Payload → RunResponseDeps → Served → ℕ → MutableVerdict
final_verdict p d s raw_id =
    run_gates d.gates measurement (gate_context p d s (mention_of d s raw_id).verdict)

-- The row of the judgment: the verdict after the gates, and citation and recommendation before them.
unfoldable pub judgment_row : Payload → RunResponseDeps → Served → ℕ → JudgmentRow
unfolding final_verdict
judgment_row p d s raw_id =
    let mention = mention_of d s raw_id in
    let v = final_verdict p d s raw_id in
    record {
      response_raw_id = raw_id;
      key = p.key;
      customer_id = p.customer_id;
      response_status = served_status s;
      brand_mentioned = v.brand_mentioned;
      brand_rank = v.brand_rank;
      sentiment = v.sentiment;
      competitors_found = v.competitors_found;
      evidence = v.evidence;
      citation_present = mention.citation_present;
      recommendation_present = mention.recommendation_present;
      provenance = v.provenance;
      judge_model = mention.judge_model_id;
      guardrail_status = v.guardrail_status;
    }

abbrev pub or_else : Option String → String → String
or_else none s = s
or_else (some t) s = t

-- `Ledger.recordJudge`, if a judge was called.
unfoldable pub record_judge :
    Payload → RunResponseDeps → Option String → Option AdapterUsage → ℕ → M (Unit {0})
unfolding insert_llm_call
record_judge p d model none raw_id = pure tt
record_judge p d model (some u) raw_id = insert_llm_call record {
  customer_id = p.customer_id;
  run_id = p.key.run_id;
  purpose = judge;
  provider = d.judge_provider;
  model_id = or_else model d.judge_provider;
  input_tokens = u.input_tokens;
  output_tokens = u.output_tokens;
  usd = u.usd;
  cache_hit = u.cache_hit;
  response_raw_id = some raw_id;
}

-- The answer is stored, recorded, judged and passed through the gates, and the unit is done.
unfoldable pub finish : Payload → RunResponseDeps → Option Served → M (Unit {0})
unfolding insert_response_raw insert_llm_call judgment_row insert_judgment record_judge
    mark_work_unit_done
finish p d none = pure tt
finish p d (some s) = do
  raw_id ← insert_response_raw (raw_row p (served_answer s) (served_status s))
  let mention = mention_of d s raw_id
  insert_llm_call (call_row p d (served_usage s) raw_id)
  insert_judgment (judgment_row p d s raw_id)
  record_judge p d mention.judge_model_id mention.judge_usage raw_id
  mark_work_unit_done p.key raw_id

-- The budget guard's decision: a call that is blocked marks the unit and throws.
unfoldable pub guarded : Payload → RunResponseDeps → CapCheck → M (Unit {0})
unfolding answer_of finish mark_work_unit_error
guarded p d within = answer_of (d.should_ground p.key) p d >>= finish p d
guarded p d blocked = mark_work_unit_error p.key >> throw (over_cap blocked)

abbrev pub has_done : WorkUnitStatus → Bool
has_done done = true
has_done _ = false

abbrev pub is_done : Option WorkUnitRow → Bool
is_done none = false
is_done (some u) = has_done u.status

abbrev pub cap_check : Payload → RunResponseDeps → CapCheck
cap_check p d = assert_within_cap_or_new p.customer_id d.budget d.cost_reader d.is_new_customer

unfoldable pub unless_done : Payload → RunResponseDeps → Option WorkUnitRow → M (Unit {0})
unfolding guarded assert_within_cap_or_new
unless_done p d found = if is_done found then pure tt else guarded p d (cap_check p d)

unfoldable pub run_response : Payload → RunResponseDeps → M (Unit {0})
unfolding find_work_unit unless_done
run_response p d = find_work_unit p.key >>= unless_done p d
