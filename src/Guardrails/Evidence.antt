-- ===== src/Guardrails/Evidence.antt =====
-- What the evidence gate guarantees of a verdict: src/guardrails.
use aeo_geo_optimization.Common.{
  ◌≡◌, refl, true, false, not, List, [], ◌∷◌, if◌then◌else◌, Bool-cases, inl, inr, arith, All, keep,
}
use aeo_geo_optimization.Guardrails.{
  GatePhase, measurement, MutableVerdict, GateContext, GateResult, passes, downgrade, Gate,
  same_phase, continue_unless, run_gates, has_locatable_span, apply_evidence_required,
  evidence_required_gate,
}

-- A verdict that mentions the brand has a span of evidence.
abbrev pub Evidenced : MutableVerdict → Type 0
Evidenced v = v.brand_mentioned ≡ true → has_locatable_span v.evidence ≡ true

-- A gate keeps an evidenced verdict so.
abbrev pub KeepsEvidence : Gate → Type 0
KeepsEvidence g = (ctx : GateContext) → Evidenced ctx.verdict → Evidenced (g.apply ctx).0.verdict

continue-Evidenced :
    (rest : GateContext → MutableVerdict) (step : GateContext × GateResult)
    → ((ctx : GateContext) → Evidenced ctx.verdict → Evidenced (rest ctx))
    → Evidenced step.0.verdict
    → Evidenced (continue_unless rest step)
continue-Evidenced rest (ctx, passes _) h e = h ctx e
continue-Evidenced rest (ctx, downgrade status reason) h e = e

run_gates-Evidenced :
    (gates : List Gate) (phase : GatePhase) (ctx : GateContext)
    → All KeepsEvidence gates
    → Evidenced ctx.verdict
    → Evidenced (run_gates gates phase ctx)
unfolding run_gates
run_gates-Evidenced [] phase ctx keeps e = e
run_gates-Evidenced (g ∷ gates) phase ctx (keep, keeps) e =
    elim (same_phase g.phase phase)
      as (λ t. Evidenced (
        if not t
        then run_gates gates phase ctx
        else continue_unless (run_gates gates phase) (g.apply ctx))) [
          | true ↦
              continue-Evidenced (run_gates gates phase) (g.apply ctx)
                (λ later h. run_gates-Evidenced gates phase later keeps h) (keep ctx e)
          | false ↦ run_gates-Evidenced gates phase ctx keeps e
        ]

gate-Evidenced : (ctx : GateContext) → Evidenced (apply_evidence_required ctx).0.verdict
unfolding apply_evidence_required
gate-Evidenced ctx = elim (Bool-cases ctx.verdict.brand_mentioned) [
  | inr absent ↦ simp absent (λ h. ground (arith, absent, h))
  | inl present ↦ elim (Bool-cases (has_locatable_span ctx.verdict.evidence)) [
    | inl located ↦ simp (present, located) (λ h. refl)
    | inr missing ↦ simp (present, missing) (λ h. ground (arith, h))
  ]
]

-- Once the evidence gate ran first, whatever the verdict was, a verdict that mentions the brand has a
-- located span of evidence after the gates of the measurement, if the gates after it keep such
-- verdicts so.
pub run_gates-evidence_required_gate :
    (after : List Gate) (ctx : GateContext)
    → All KeepsEvidence after
    → Evidenced (run_gates (evidence_required_gate ∷ after) measurement ctx)
unfolding run_gates evidence_required_gate
run_gates-evidence_required_gate after ctx keeps =
    continue-Evidenced (run_gates after measurement) (apply_evidence_required ctx)
      (λ later h. run_gates-Evidenced after measurement later keeps h) (gate-Evidenced ctx)

continue-same :
    {f g : GateContext → MutableVerdict} (step : GateContext × GateResult)
    → ((ctx : GateContext) → f ctx ≡ g ctx)
    → continue_unless f step ≡ continue_unless g step
continue-same (ctx, passes _) h = h ctx
continue-same (ctx, downgrade status reason) h = refl

-- The gates of other phases change nothing: a run is the run of the gates of its phase alone.
pub run_gates-keep :
    (gates : List Gate) (phase : GatePhase) (ctx : GateContext)
    → run_gates gates phase ctx
      ≡ run_gates (keep (λ (g : Gate). same_phase g.phase phase) gates) phase ctx
unfolding run_gates
run_gates-keep [] phase ctx = refl
run_gates-keep (g ∷ gates) phase ctx = elim (Bool-cases (same_phase g.phase phase)) [
  | inl same ↦
      rw (same, same) (continue-same (g.apply ctx) (λ later. run_gates-keep gates phase later))
  | inr other ↦ rw other (run_gates-keep gates phase ctx)
]
