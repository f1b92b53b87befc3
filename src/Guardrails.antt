-- ===== src/Guardrails.antt =====
-- The gates that a judge's verdict passes: src/guardrails/gate.ts and evidenceRequiredGate.ts. A
-- gate returns the context it may have changed with its result. Positions in a text are integers.

pub mod Evidence
mod Tests
use Prim.Native.String
use aeo_geo_optimization.Common.{
  ℕ, String, Bool, true, false, not, ◌&&◌, ◌||◌, Option, none, some, List, [], ◌∷◌, ◌++◌,
  if◌then◌else◌,
}
use aeo_geo_optimization.Common.Int.{ℤ, pos, leb_ℤ}
use aeo_geo_optimization.Common.Text.{is_blank}

pub data GatePhase : Type 0 where
  measurement publish content : GatePhase

pub data Provenance : Type 0 where
  judge fallback abstain : Provenance

pub data Sentiment : Type 0 where
  positive neutral negative : Sentiment

pub data GuardrailStatus : Type 0 where
  pass downgraded_abstain : GuardrailStatus

pub record Span : Type 0 where
  pub quote : String
  pub start : ℤ
  pub end : ℤ

pub record MutableVerdict : Type 0 where
  pub brand_mentioned : Bool
  pub brand_rank : Option ℕ
  pub sentiment : Option Sentiment
  pub competitors_found : List (String × Option ℕ)
  pub evidence : Option Span
  pub provenance : Provenance
  pub guardrail_status : GuardrailStatus
  pub downgrade_reason : Option String

pub record GateContext : Type 0 where
  pub verdict : MutableVerdict
  pub answer_text : Option String
  pub brand_aliases : List String
  pub run_id : String
  pub response_raw_id : String

pub data GateResult : Type 0 where
  passes : Option String → GateResult
  downgrade : GuardrailStatus → String → GateResult

pub record Gate : Type 0 where
  pub name : String
  pub phase : GatePhase
  pub apply : GateContext → GateContext × GateResult

abbrev pub same_phase : GatePhase → GatePhase → Bool
same_phase measurement measurement = true
same_phase publish publish = true
same_phase content content = true
same_phase _ _ = false

-- What a gate's result does to the verdict: a downgrade ends the loop.
abbrev pub downgraded : GateContext → GuardrailStatus → String → MutableVerdict
downgraded ctx status reason = record ctx.verdict {
  guardrail_status = status;
  downgrade_reason = some reason;
}

abbrev pub continue_unless :
    (GateContext → MutableVerdict) → GateContext × GateResult → MutableVerdict
continue_unless rest (ctx, passes _) = rest ctx
continue_unless rest (ctx, downgrade status reason) = downgraded ctx status reason

unfoldable pub run_gates : List Gate → GatePhase → GateContext → MutableVerdict
run_gates [] phase ctx = ctx.verdict
run_gates (gate ∷ gates) phase ctx =
    if not (same_phase gate.phase phase)
    then run_gates gates phase ctx
    else continue_unless (run_gates gates phase) (gate.apply ctx)

unfoldable pub has_locatable_span : Option Span → Bool
has_locatable_span none = false
has_locatable_span (some ev) =
    if is_blank ev.quote
    then false
    else (if not (leb_ℤ (pos 0) ev.start) then false else not (leb_ℤ ev.end ev.start))

abbrev evidence_reason : String
evidence_reason =
    "brand_mentioned=true but no alias-normalized evidence span could be located in answer_text; downgraded to abstain (§7#7). Row persisted, excluded from SMR numerator."

abbrev pub abstained : MutableVerdict → MutableVerdict
abstained v = record v {
  brand_mentioned = false;
  brand_rank = none;
  evidence = none;
  provenance = abstain;
}

unfoldable pub apply_evidence_required : GateContext → GateContext × GateResult
unfolding has_locatable_span
apply_evidence_required ctx =
    if not ctx.verdict.brand_mentioned
    then (ctx, passes none)
    else (if has_locatable_span ctx.verdict.evidence then (ctx, passes none) else (
      record ctx { verdict = abstained ctx.verdict },
      downgrade downgraded_abstain evidence_reason,
    ))

unfoldable pub evidence_required_gate : Gate
unfolding apply_evidence_required
evidence_required_gate = record {
  name = "evidenceRequiredGate";
  phase = measurement;
  apply = apply_evidence_required;
}
