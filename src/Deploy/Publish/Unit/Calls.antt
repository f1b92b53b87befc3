-- ===== src/Deploy/Publish/Unit/Calls.antt =====
-- When a publish job calls the connector: src/deploy/publishUnit.ts.
use aeo_geo_optimization.Common.{
  ℕ, ◌≡◌, refl, String, Bool, true, false, Option, none, some, List, ◌∷◌, text_eq, text_eq_iff, any,
  Bool-cases, inl, inr, ◌⊎◌, arith,
}
use aeo_geo_optimization.Deploy.Rules.{
  DeployStatus, EligibilityResult, eligible, ineligible, is_publish_eligible, assert_disclosure,
  is_missing, is_leased,
}
use aeo_geo_optimization.Deploy.Queue.{QueueRow}
use aeo_geo_optimization.Deploy.Publish.Store.{
  World, PublishRequest, next_fault, holds_slot, set_status, mark_deploy_status, claim_url_registry,
}
use aeo_geo_optimization.Deploy.Publish.Store.Keeps.{attempt-keeps}
use aeo_geo_optimization.Deploy.Publish.Unit.{
  Payload, Deps, find_row, call_connector, after_claim, by_eligibility, by_run, claim_and_publish,
  publish_row, on_loaded, publish_unit, request_of,
}
use aeo_geo_optimization.Deploy.Publish.Unit.Slots.{Stable, after_reply-keeps}

-- The row that the job loads may be published, and its slot is free unless the run is a dry one.
pub record MayPublish (p : Payload) (w : World) (row : QueueRow) : Type 0 where
  pub loaded : find_row p.queue_id w.rows ≡ some row
  pub passed : row.gate_status ≡ "passed"
  pub approved : is_missing row.approved_by ≡ false
  pub leased : is_leased row.status ≡ true
  pub disclosed : assert_disclosure p.channel_class row.disclosure_tag ≡ true
  pub free : (p.dry_run ≡ true) ⊎ (any (holds_slot p.asset_id p.channel_class) w.registry ≡ false)

calls-Stable : (cs : List PublishRequest) → Stable (λ ds rows. ds ≡ cs)
calls-Stable cs = record { updates = λ ds rows id f a c h. h; dead_row = λ ds rows r dead h. h }

mark-calls :
    (q : String) (s : DeployStatus) (w : World) → (mark_deploy_status q s w).calls ≡ w.calls
unfolding mark_deploy_status
mark-calls q s w = attempt-keeps (λ cs rows. cs ≡ w.calls) w (set_status q s) (λ v h. h) refl

call_connector-calls :
    (deps : Deps) (p : Payload) (row : QueueRow) (id : Option ℕ) (w : World)
    → (call_connector deps p row id w).1.calls ≡ request_of p row ∷ w.calls
unfolding call_connector
call_connector-calls deps p row id w =
    after_reply-keeps (λ cs rows. cs ≡ request_of p row ∷ w.calls) (calls-Stable _) deps p row id _
      _ refl

after_claim-calls :
    (deps : Deps) (p : Payload) (row : QueueRow) (w : World)
    → ((after_claim deps p row (claim_url_registry row p.asset_id p.channel_class w)).1.calls
        ≡ w.calls)
      ⊎ ((any (holds_slot p.asset_id p.channel_class) w.registry ≡ false)
          × ((after_claim deps p row (claim_url_registry row p.asset_id p.channel_class w)).1.calls
              ≡ request_of p row ∷ w.calls))
unfolding claim_url_registry
after_claim-calls deps p row w = elim (Bool-cases (next_fault w.faults).0) [
  | inl fails ↦ rw fails (inl refl)
  | inr works ↦ elim (Bool-cases (any (holds_slot p.asset_id p.channel_class) w.registry)) [
    | inl held ↦ rw (works, held) (inl refl)
    | inr free ↦ rw (works, free) (inr (refl, call_connector-calls deps p row (some w.next_id) _))
  ]
]

by_run-calls :
    (dry : Bool) (deps : Deps) (p : Payload) (row : QueueRow) (w : World)
    → ((by_run dry deps p row w).1.calls ≡ w.calls)
      ⊎ (((dry ≡ true) ⊎ (any (holds_slot p.asset_id p.channel_class) w.registry ≡ false))
          × ((by_run dry deps p row w).1.calls ≡ request_of p row ∷ w.calls))
unfolding by_run
by_run-calls true deps p row w = inr (inl refl, call_connector-calls deps p row none w)
by_run-calls false deps p row w = elim (after_claim-calls deps p row w) [
  | inl same ↦ inl same
  | inr (free, once) ↦ inr (inr free, once)
]

-- Either the job makes no call, or exactly one, for a row that may be published.
abbrev pub CallsOnce : Payload → World → World → Type 0
CallsOnce p w later =
    (later.calls ≡ w.calls)
    ⊎ ((row : QueueRow) × MayPublish p w row × (later.calls ≡ request_of p row ∷ w.calls))

is_publish_eligible_lem :
    (gate : String) (by : Option String) (status : DeployStatus)
    → is_publish_eligible gate by status ≡ eligible
    → (text_eq gate "passed" ≡ true) × (is_missing by ≡ false) × (is_leased status ≡ true)
unfolding is_publish_eligible
is_publish_eligible_lem gate by status h = ground arith

by_eligibility-CallsOnce :
    (deps : Deps) (p : Payload) (row : QueueRow) (w : World) (e : EligibilityResult)
    → is_publish_eligible row.gate_status row.approved_by row.status ≡ e
    → find_row p.queue_id w.rows ≡ some row
    → CallsOnce p w (by_eligibility deps p row e w).1
unfolding by_eligibility claim_and_publish
by_eligibility-CallsOnce deps p row w (ineligible reason) e found =
    inl (mark-calls p.queue_id DeployStatus.queued w)
by_eligibility-CallsOnce deps p row w eligible e found =
    elim (Bool-cases (assert_disclosure p.channel_class row.disclosure_tag)) [
      | inr refused ↦ rw refused (inl (mark-calls p.queue_id DeployStatus.failed w))
      | inl allowed ↦
          let (gate, by, status) =
            is_publish_eligible_lem row.gate_status row.approved_by row.status e in
          elim (by_run-calls p.dry_run deps p row w) [
            | inl same ↦ inl (rw allowed same)
            | inr (free, once) ↦
                let may : MayPublish p w row = record {
                  loaded = found;
                  passed = (text_eq_iff row.gate_status "passed").0 gate;
                  approved = by;
                  leased = status;
                  disclosed = allowed;
                  free = free;
                } in
                inr (row, may, rw allowed once)
          ]
    ]

on_loaded-CallsOnce :
    (deps : Deps) (p : Payload) (w : World) (found : Option QueueRow)
    → find_row p.queue_id w.rows ≡ found
    → CallsOnce p w (on_loaded deps p found w).1
unfolding publish_row
on_loaded-CallsOnce deps p w none e = inl refl
on_loaded-CallsOnce deps p w (some row) e = by_eligibility-CallsOnce deps p row w _ refl e

-- A publish job either makes no call of a connector or makes exactly one, and then for a queue row
-- that it loaded, that passed the gate, has an approver who is not blank and is leased, whose
-- disclosure check succeeds, and whose asset and channel have no live row yet or whose run is dry.
-- This holds whatever the connector replies and whichever queries fail.
pub publish_unit-CallsOnce :
    (deps : Deps) (p : Payload) (w : World) → CallsOnce p w (publish_unit deps p w).1
unfolding publish_unit
publish_unit-CallsOnce deps p w = elim (Bool-cases (next_fault w.faults).0) [
  | inl fails ↦ rw fails (inl refl)
  | inr works ↦
      let later = record w { faults = (next_fault w.faults).1 } in
      elim (on_loaded-CallsOnce deps p later (find_row p.queue_id w.rows) refl) [
        | inl same ↦ inl (rw works same)
        | inr (row, may, once) ↦
            let here : MayPublish p w row = record {
              loaded = may.loaded;
              passed = may.passed;
              approved = may.approved;
              leased = may.leased;
              disclosed = may.disclosed;
              free = may.free;
            } in
            inr (row, here, rw works once)
      ]
]
