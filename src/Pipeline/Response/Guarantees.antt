-- ===== src/Pipeline/Response/Guarantees.antt =====
-- What a unit of work never does, whichever queries fail: src/pipeline/runResponse.ts with the gate of
-- src/guardrails/evidenceRequiredGate.ts and the caps of src/cost/budget.ts.
use aeo_geo_optimization.Common.{ℕ, ◌≡◌, ◌≢◌, refl, true, List, ◌∷◌, All, String, arith}
use aeo_geo_optimization.Guardrails.{Gate, evidence_required_gate, has_locatable_span}
use aeo_geo_optimization.Guardrails.Evidence.{KeepsEvidence, run_gates-evidence_required_gate}
use aeo_geo_optimization.Cost.Budget.{within}
use aeo_geo_optimization.Pipeline.Store.{
  Payload, Db, RawRow, LlmCallRow, JudgmentRow, CacheEntry, GenerateRequest,
}
use aeo_geo_optimization.Pipeline.Response.{
  RunResponseDeps, Served, mention_of, gate_context, final_verdict, judgment_row, cap_check,
  run_response,
}
use aeo_geo_optimization.Pipeline.Response.Writes.{run_response-Keeps}

-- A stored judgment that mentions the brand quotes a span of the answer.
abbrev pub HasEvidence : JudgmentRow → Type 0
HasEvidence j = j.brand_mentioned ≡ true → has_locatable_span j.evidence ≡ true

pub judgment_row-HasEvidence :
    (p : Payload) (d : RunResponseDeps) (after : List Gate)
    → d.gates ≡ evidence_required_gate ∷ after
    → All KeepsEvidence after
    → (s : Served) (raw_id : ℕ) → HasEvidence (judgment_row p d s raw_id)
unfolding judgment_row final_verdict
judgment_row-HasEvidence p d after gates keeps s raw_id = rw gates (
    run_gates-evidence_required_gate after (gate_context p d s (mention_of d s raw_id).verdict)
      keeps)

-- If every stored judgment that mentions the brand has a located span of evidence, so has every one
-- after a unit of work, whatever the provider and the judge answer and whichever queries fail, when
-- the evidence gate is the first gate and the gates after it keep such verdicts so.
pub run_response-HasEvidence :
    (p : Payload) (d : RunResponseDeps) (after : List Gate) (db : Db)
    → d.gates ≡ evidence_required_gate ∷ after
    → All KeepsEvidence after
    → All HasEvidence db.judgments
    → All HasEvidence (run_response p d db).1.judgments
run_response-HasEvidence p d after db gates keeps h =
    run_response-Keeps p d (λ db. All HasEvidence db.judgments)
      (record {
        faults = λ db fs g. g;
        units = λ db f same over g. g;
        raws = λ ok db r n g. g;
        calls = λ ok db c g. g;
        judgments =
            λ ok db s raw_id g. (judgment_row-HasEvidence p d after gates keeps s raw_id, g);
        requests = λ ok db req g. g;
        cache = λ ok e db es g. g;
        seen = λ ok e db ss g. g;
      })
      db h

-- What a unit of work may spend or learn: the requests made of providers, the ledger, the stored
-- answers and judgments, and the cache.
abbrev pub spending :
    Db
    → List GenerateRequest
      × List LlmCallRow
      × List RawRow
      × List JudgmentRow
      × List CacheEntry
      × List (String × String)
spending db = (db.requests, db.calls, db.raws, db.judgments, db.cache, db.seen_in_run)

-- A unit whose customer the budget guard does not let through makes no request of a provider and
-- writes no answer, judgment, ledger row or cache entry, whichever queries fail.
pub run_response-not_within :
    (p : Payload) (d : RunResponseDeps) (db : Db)
    → cap_check p d ≢ within
    → spending (run_response p d db).1 ≡ spending db
run_response-not_within p d db over =
    run_response-Keeps p d (λ later. spending later ≡ spending db)
      (record {
        faults = λ _ fs g. g;
        units = λ _ f same over g. g;
        raws = λ ok. elim (over ok) [ ];
        calls = λ ok. elim (over ok) [ ];
        judgments = λ ok. elim (over ok) [ ];
        requests = λ ok. elim (over ok) [ ];
        cache = λ ok. elim (over ok) [ ];
        seen = λ ok. elim (over ok) [ ];
      })
      db refl

-- A unit of work that is grounded leaves the cache of answers and the set of its seen hashes as they
-- are, whichever queries fail.
pub run_response-grounded :
    (p : Payload) (d : RunResponseDeps) (db : Db)
    → d.should_ground p.key ≡ true
    → (run_response p d db).1.cache ≡ db.cache
      × (run_response p d db).1.seen_in_run ≡ db.seen_in_run
run_response-grounded p d db grounded =
    run_response-Keeps p d (λ later. later.cache ≡ db.cache × later.seen_in_run ≡ db.seen_in_run)
      (record {
        faults = λ _ fs g. g;
        units = λ _ f same over g. g;
        raws = λ ok _ r n g. g;
        calls = λ ok _ c g. g;
        judgments = λ ok _ s raw_id g. g;
        requests = λ ok _ req g. g;
        cache = λ ok e _ es g. ground arith;
        seen = λ ok e _ ss g. ground arith;
      })
      db (refl, refl)
