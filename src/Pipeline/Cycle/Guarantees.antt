-- ===== src/Pipeline/Cycle/Guarantees.antt =====
-- What a cycle never does, whichever queries fail: src/pipeline/runCycle.ts.
use aeo_geo_optimization.Common.{
  ℕ, ◌≡◌, refl, String, true, false, Option, some, List, [], ◌∷◌, All, map, text_eq, Bool-cases,
  inl, inr, arith,
}
use aeo_geo_optimization.Guardrails.{Gate, evidence_required_gate, has_locatable_span}
use aeo_geo_optimization.Guardrails.Evidence.{KeepsEvidence}
use aeo_geo_optimization.Pipeline.Store.{
  Db, UnitKey, WorkUnitRow, RunRow, RunStatus, same_unit, update_unit,
}
use aeo_geo_optimization.Pipeline.Store.Cycles.{Resumable, update_run, to_finished}
use aeo_geo_optimization.Pipeline.Response.Guarantees.{HasEvidence, judgment_row-HasEvidence}
use aeo_geo_optimization.Pipeline.Loop.{
  RunCycleDeps, PriorJudgment, or_no_judgment, carried_row, payload_of, response_deps,
}
use aeo_geo_optimization.Pipeline.Loop.Writes.{LoopKept, execute_units-Keeps}
use aeo_geo_optimization.Pipeline.Cycle.{by_resumable, run_cycle}
use aeo_geo_optimization.Pipeline.Cycle.Writes.{
  ExecutionKept, CycleKept, resume-Keeps, run_cycle-Keeps,
}

-- A judgment of an earlier run that mentions the brand quotes a span of the answer.
abbrev pub PriorEvidence : PriorJudgment → Type 0
PriorEvidence j = j.brand_mentioned ≡ true → has_locatable_span j.evidence ≡ true

-- The search for an earlier judgment finds such ones only, in tables that hold such ones only.
abbrev pub FindsEvidence : {Report : Type 0} → RunCycleDeps Report → Type 0
FindsEvidence d =
    (find : String → String → Db → Option PriorJudgment) (hash run_id : String) (db : Db)
    → d.find_prior_judgment_by_hash ≡ some find
    → All HasEvidence db.judgments
    → PriorEvidence (or_no_judgment (find hash run_id db))

carried_row-HasEvidence :
    {Report : Type 0} (d : RunCycleDeps Report) (k : UnitKey) (j : PriorJudgment) (raw_id : ℕ)
    → PriorEvidence j
    → HasEvidence (carried_row d k j raw_id)
unfolding carried_row
carried_row-HasEvidence d k j raw_id h = h

module _ {Report : Type 0} (d : RunCycleDeps Report) (after : List Gate)
    (gates : d.gates ≡ evidence_required_gate ∷ after) (keeps : All KeepsEvidence after)
    (finds : FindsEvidence d) where
  evidence-LoopKept : LoopKept d PriorEvidence (λ db. All HasEvidence db.judgments)
  evidence-LoopKept = record {
    response = λ adapter run_id wu. record {
      faults = λ db fs g. g;
      units = λ db f same over g. g;
      raws = λ ok db r n g. g;
      calls = λ ok db c g. g;
      judgments = λ ok db s raw_id g. (
        judgment_row-HasEvidence (payload_of d run_id wu) (response_deps d adapter) after gates
            keeps s raw_id,
        g,
      );
      requests = λ ok db req g. g;
      cache = λ ok e db es g. g;
      seen = λ ok e db ss g. g;
    };
    no_prior = λ absent. ground arith;
    prior = finds;
    faults = λ db fs g. g;
    units = λ db k f same over g. g;
    raws = λ db r n g. g;
    calls = λ db c g. g;
    carried = λ db k j raw_id good g. (carried_row-HasEvidence d k j raw_id good, g);
    seen = λ db ss g. g;
  }

  evidence-CycleKept : CycleKept d (λ db. All HasEvidence db.judgments)
  evidence-CycleKept = record {
    execution = record {
      faults = λ db fs g. g;
      loop = λ run_id units.
          execute_units-Keeps d PriorEvidence (λ db. All HasEvidence db.judgments) evidence-LoopKept
            run_id units false;
      finish = λ db id status now g. g;
      jobs = λ db job g. g;
    };
    units = λ db k g. g;
    runs = λ db rs n g. g;
    cursors = λ db cs g. g;
  }

-- A cycle, new or resumed, stores no judgment that mentions the brand without a located span of
-- evidence, whichever queries fail, if the evidence gate is the first gate, the gates after it keep
-- such verdicts so, and the judgments that it finds of earlier runs have their evidence.
pub run_cycle-HasEvidence :
    {Report : Type 0} (d : RunCycleDeps Report) (after : List Gate) (db : Db)
    → d.gates ≡ evidence_required_gate ∷ after
    → All KeepsEvidence after
    → FindsEvidence d
    → All HasEvidence db.judgments
    → All HasEvidence (run_cycle d db).1.judgments
run_cycle-HasEvidence d after db gates keeps finds h =
    run_cycle-Keeps d (λ later. All HasEvidence later.judgments)
      (evidence-CycleKept d after gates keeps finds) db h

abbrev total_of : RunRow → String × Option ℕ
total_of r = (r.id, r.n_total)

-- The units of the runs and the runs' numbers of units.
abbrev pub denominators : Db → List UnitKey × List (String × Option ℕ)
denominators db = (map (λ (u : WorkUnitRow). u.key) db.units, map total_of db.runs)

update_unit-keys :
    (k : UnitKey) (f : WorkUnitRow → WorkUnitRow) (units : List WorkUnitRow)
    → ((u : WorkUnitRow) → (f u).key ≡ u.key)
    → map (λ (u : WorkUnitRow). u.key) (update_unit k f units)
      ≡ map (λ (u : WorkUnitRow). u.key) units
update_unit-keys k f [] same = refl
update_unit-keys k f (u ∷ units) same = elim (Bool-cases (same_unit u.key k)) [
  | inl own ↦ rw (own, same u, update_unit-keys k f units same) refl
  | inr other ↦ rw (other, update_unit-keys k f units same) refl
]

to_finished-totals :
    (id : String) (status : RunStatus) (now : ℕ) (runs : List RunRow)
    → map total_of (update_run id (to_finished status now) runs) ≡ map total_of runs
to_finished-totals id status now [] = refl
to_finished-totals id status now (r ∷ runs) = elim (Bool-cases (text_eq r.id id)) [
  | inl own ↦ rw (own, to_finished-totals id status now runs) refl
  | inr other ↦ rw (other, to_finished-totals id status now runs) refl
]

frozen_units :
    (db later : Db) (k : UnitKey) (f : WorkUnitRow → WorkUnitRow)
    → ((u : WorkUnitRow) → (f u).key ≡ u.key)
    → denominators later ≡ denominators db
    → denominators (record later { units = update_unit k f later.units }) ≡ denominators db
frozen_units db later k f same h = rw (update_unit-keys k f later.units same) h

module _ {Report : Type 0} (d : RunCycleDeps Report) (db : Db) where
  frozen-LoopKept : LoopKept d (λ _. Unit {0}) (λ later. denominators later ≡ denominators db)
  frozen-LoopKept = record {
    response = λ adapter run_id wu. record {
      faults = λ later fs g. g;
      units = λ later f same over g. frozen_units db later (payload_of d run_id wu).key f same g;
      raws = λ ok later r n g. g;
      calls = λ ok later c g. g;
      judgments = λ ok later s raw_id g. g;
      requests = λ ok later req g. g;
      cache = λ ok e later es g. g;
      seen = λ ok e later ss g. g;
    };
    no_prior = tt;
    prior = λ find hash run_id later e h. tt;
    faults = λ later fs g. g;
    units = λ later k f same over g. frozen_units db later k f same g;
    raws = λ later r n g. g;
    calls = λ later c g. g;
    carried = λ later k j raw_id good g. g;
    seen = λ later ss g. g;
  }

  frozen-ExecutionKept : ExecutionKept d (λ later. denominators later ≡ denominators db)
  frozen-ExecutionKept = record {
    faults = λ later fs g. g;
    loop = λ run_id units.
        execute_units-Keeps d (λ _. Unit {0}) (λ later. denominators later ≡ denominators db)
          frozen-LoopKept run_id units false;
    finish = λ later id status now g. rw (to_finished-totals id status now later.runs) g;
    jobs = λ later job g. g;
  }

-- A cycle that goes on with an unfinished run neither adds nor removes a unit of any run and changes no
-- run's number of units, whatever plan it has made again and whichever queries fail: the denominator
-- of the run's metrics stays as it was frozen.
pub resumed-frozen :
    {Report : Type 0} (d : RunCycleDeps Report) (r : Resumable) (db : Db)
    → denominators (by_resumable d (some r) db).1 ≡ denominators db
resumed-frozen d r db =
    resume-Keeps d (λ later. denominators later ≡ denominators db) (frozen-ExecutionKept d db) r db
      refl
