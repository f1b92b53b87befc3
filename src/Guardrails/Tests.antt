-- ===== src/Guardrails/Tests.antt =====
-- A verdict without evidence, and the theorems of src/guardrails at it.
use aeo_geo_optimization.Common.{◌≡◌, refl, true, some, none, [], ◌∷◌}
use aeo_geo_optimization.Common.Int.{pos}
use aeo_geo_optimization.Common.Text.{is_blank}
use aeo_geo_optimization.Guardrails.{
  MutableVerdict, GateContext, Gate, run_gates, measurement, publish, evidence_required_gate,
  passes, judge, abstain, pass, has_locatable_span,
}
use aeo_geo_optimization.Guardrails.Evidence.{Evidenced, run_gates-evidence_required_gate}

abbrev verdict : MutableVerdict
verdict = record {
  brand_mentioned = true;
  brand_rank = some 2;
  sentiment = none;
  competitors_found = [];
  evidence = some (record { quote = "Acme"; start = pos 7; end = pos 7 });
  provenance = judge;
  guardrail_status = pass;
  downgrade_reason = none;
}

abbrev context : GateContext
context = record {
  verdict = verdict;
  answer_text = some "I like Acme";
  brand_aliases = "Acme" ∷ [];
  run_id = "r";
  response_raw_id = "x";
}

-- A gate of another phase.
abbrev publish_stub : Gate
publish_stub = record { name = "stub"; phase = publish; apply = λ ctx. (ctx, passes none) }

-- The empty span is no evidence, so the verdict abstains.
verdict-abstains :
    (run_gates (publish_stub ∷ evidence_required_gate ∷ []) measurement context).provenance
    ≡ abstain
unfolding run_gates evidence_required_gate has_locatable_span is_blank
verdict-abstains = refl

run_gates-evidence_required_gate_example :
    Evidenced (run_gates (evidence_required_gate ∷ publish_stub ∷ []) measurement context)
run_gates-evidence_required_gate_example =
    run_gates-evidence_required_gate (publish_stub ∷ []) context ((λ ctx e. e), tt)
