-- ===== src/Deploy/Publish/Unit/Slots.antt =====
-- The slots of the registry over a publish job: src/deploy/publishUnit.ts.
use aeo_geo_optimization.Common.{
  ℕ, ◌≤◌, ◌≡◌, refl, String, Bool, true, false, ◌&&◌, Option, none, some, List, ◌∷◌, text_eq,
  text_eq_iff, any, Bool-cases, and_left, and_right, inl, inr, arith,
}
use aeo_geo_optimization.Deploy.Rules.{
  DeployStatus, EligibilityResult, eligible, ineligible, is_publish_eligible, assert_disclosure,
}
use aeo_geo_optimization.Deploy.Queue.{QueueRow}
use aeo_geo_optimization.Deploy.Publish.Store.{
  World, PublishRequest, RegistryRow, ClaimResult, claimed, taken, raised, next_fault, is_live,
  holds_slot, claiming_row, update_publishing, set_status, set_failed, to_failed, set_published,
  to_published, add_dry_run, dry_run_row, add_verify, mark_deploy_status, claim_url_registry,
  mark_url_registry_published, mark_url_registry_failed, insert_url_registry_dry_run,
  enqueue_verify,
}
use aeo_geo_optimization.Deploy.Publish.Store.Keeps.{
  attempt-keeps, live_count, any-live_count, update_publishing-live_count,
}
use aeo_geo_optimization.Deploy.Publish.Unit.{
  ok, ok_dry_run, not_configured, throttled, error, Reply, returned, threw, Payload, Deps,
  is_blocklisted, find_row, fail_slot, publish_slot, verify_slot, after_reply, call_connector,
  after_claim, by_eligibility, by_run, claim_and_publish, publish_row, on_loaded, publish_unit,
}

-- What holds of the calls and the registry whatever happens to a row that is being published, and
-- whatever rows that are not live come.
pub record Stable {ℓ} (P : List PublishRequest → List RegistryRow → Type ℓ) : Type ℓ where
  pub updates :
      (cs : List PublishRequest) (rows : List RegistryRow) (id : ℕ) (f : RegistryRow → RegistryRow)
      → ((r : RegistryRow) → (f r).asset_id ≡ r.asset_id)
      → ((r : RegistryRow) → (f r).channel_class ≡ r.channel_class)
      → P cs rows
      → P cs (update_publishing id f rows)
  pub dead_row :
      (cs : List PublishRequest) (rows : List RegistryRow) (r : RegistryRow)
      → is_live r.publish_status ≡ false
      → P cs rows
      → P cs (r ∷ rows)

module _ {ℓ} (P : List PublishRequest → List RegistryRow → Type ℓ) (stable : Stable P) where
  abbrev Holds : World → Type ℓ
  Holds w = P w.calls w.registry

  mark-keeps :
      (q : String) (s : DeployStatus) (w : World) → Holds w → Holds (mark_deploy_status q s w)
  unfolding mark_deploy_status
  mark-keeps q s w p = attempt-keeps P w (set_status q s) (λ v h. h) p

  fail_slot-keeps : (id : Option ℕ) (w : World) → Holds w → Holds (fail_slot id w)
  unfolding mark_url_registry_failed
  fail_slot-keeps none w p = p
  fail_slot-keeps (some id) w p =
      attempt-keeps P w (set_failed id)
        (λ v h. stable.updates v.calls v.registry id to_failed (λ r. refl) (λ r. refl) h) p

  publish_slot-keeps :
      (id : Option ℕ) (url : String) (ref : Option String) (w : World)
      → Holds w
      → Holds (publish_slot id url ref w)
  unfolding mark_url_registry_published
  publish_slot-keeps none url ref w p = p
  publish_slot-keeps (some id) url ref w p =
      attempt-keeps P w (set_published id url ref)
        (λ v h.
          stable.updates v.calls v.registry id (to_published url ref v.clock) (λ r. refl)
            (λ r. refl) h)
        p

  verify_slot-keeps : (id : Option ℕ) (w : World) → Holds w → Holds (verify_slot id w)
  unfolding enqueue_verify
  verify_slot-keeps none w p = p
  verify_slot-keeps (some id) w p = attempt-keeps P w (add_verify id) (λ v h. h) p

  dry_run-keeps :
      (row : QueueRow) (a c url : String) (w : World)
      → Holds w
      → Holds (insert_url_registry_dry_run row a c url w)
  unfolding insert_url_registry_dry_run
  dry_run-keeps row a c url w p =
      attempt-keeps P w (add_dry_run row a c url)
        (λ v h. stable.dead_row v.calls v.registry (dry_run_row row a c url v.next_id) refl h) p

  -- Whatever the connector replies.
  pub after_reply-keeps :
      (deps : Deps) (p : Payload) (row : QueueRow) (id : Option ℕ) (reply : Reply) (w : World)
      → Holds w
      → Holds (after_reply deps p row id reply w).1
  unfolding after_reply
  after_reply-keeps deps p row id threw w h = fail_slot-keeps id w h
  after_reply-keeps deps p row id (returned (ok url ref)) w h =
      elim (Bool-cases (is_blocklisted deps url)) [
        | inl blocked ↦
            rw blocked (mark-keeps p.queue_id DeployStatus.failed _ (fail_slot-keeps id w h))
        | inr free ↦ rw free (
            verify_slot-keeps id _
              (mark-keeps p.queue_id DeployStatus.published _ (publish_slot-keeps id url ref w h)))
      ]
  after_reply-keeps deps p row id (returned (ok_dry_run url)) w h =
      mark-keeps p.queue_id DeployStatus.queued _
        (dry_run-keeps row p.asset_id p.channel_class url w h)
  after_reply-keeps deps p row id (returned not_configured) w h =
      mark-keeps p.queue_id DeployStatus.queued _ (fail_slot-keeps id w h)
  after_reply-keeps deps p row id (returned (throttled ms)) w h =
      mark-keeps p.queue_id DeployStatus.queued w h
  after_reply-keeps deps p row id (returned (error code message true)) w h =
      mark-keeps p.queue_id DeployStatus.queued _ (fail_slot-keeps id w h)
  after_reply-keeps deps p row id (returned (error code message false)) w h =
      mark-keeps p.queue_id DeployStatus.failed _ (fail_slot-keeps id w h)

  module _ (deps : Deps) (p : Payload)
      (claim : (row : QueueRow) (w : World)
        → Holds w
        → Holds (claim_and_publish deps p row w).1) where
    by_eligibility-keeps :
        (e : EligibilityResult) (row : QueueRow) (w : World)
        → Holds w
        → Holds (by_eligibility deps p row e w).1
    unfolding by_eligibility
    by_eligibility-keeps (ineligible reason) row w h = mark-keeps p.queue_id DeployStatus.queued w h
    by_eligibility-keeps eligible row w h =
        elim (Bool-cases (assert_disclosure p.channel_class row.disclosure_tag)) [
          | inl allowed ↦ rw allowed (claim row w h)
          | inr refused ↦ rw refused (mark-keeps p.queue_id DeployStatus.failed w h)
        ]

    on_loaded-keeps :
        (found : Option QueueRow) (w : World) → Holds w → Holds (on_loaded deps p found w).1
    unfolding publish_row
    on_loaded-keeps none w h = h
    on_loaded-keeps (some row) w h =
        by_eligibility-keeps (is_publish_eligible row.gate_status row.approved_by row.status) row w
          h

    -- A job whose claim and call keep it.
    pub publish_unit-keeps : (w : World) → Holds w → Holds (publish_unit deps p w).1
    unfolding publish_unit
    publish_unit-keeps w h = elim (Bool-cases (next_fault w.faults).0) [
      | inl fails ↦ rw fails h
      | inr works ↦ rw works (
          on_loaded-keeps (find_row p.queue_id w.rows)
            (record w { faults = (next_fault w.faults).1 }) h)
    ]

-- At most one row of any asset and channel is live.
abbrev pub OneLive : List RegistryRow → Type 0
OneLive rows = (asset_id channel_class : String) → live_count asset_id channel_class rows ≤ 1

OneLive-Stable : Stable (λ cs rows. OneLive rows)
OneLive-Stable = record {
  updates = λ cs rows id f asset channel h a c.
      let fewer = update_publishing-live_count a c id f asset channel rows in
      let one = h a c in omega arith;
  dead_row = λ cs rows r dead h a c. let one = h a c in rw dead one;
}

one≤one : 1 ≤ 1
one≤one = omega arith

insert_live-OneLive :
    (row : QueueRow) (asset_id channel_class : String) (w : World)
    → any (holds_slot asset_id channel_class) w.registry ≡ false
    → OneLive w.registry
    → OneLive (claiming_row row asset_id channel_class w.next_id ∷ w.registry)
insert_live-OneLive row asset_id channel_class w free h a c =
    elim (Bool-cases (text_eq asset_id a && text_eq channel_class c)) [
      | inl same ↦
          let asset = (text_eq_iff asset_id a).0 (and_left _ _ same) in
          let channel = (text_eq_iff channel_class c).0 (and_right _ _ same) in
          let nothing : live_count a c w.registry ≡ 0 =
            rw (← asset, ← channel) (any-live_count asset_id channel_class w.registry free) in
          rw (same, nothing) one≤one
      | inr other ↦ rw other (h a c)
    ]

call_connector-OneLive :
    (deps : Deps) (p : Payload) (row : QueueRow) (id : Option ℕ) (w : World)
    → OneLive w.registry
    → OneLive (call_connector deps p row id w).1.registry
unfolding call_connector
call_connector-OneLive deps p row id w h =
    after_reply-keeps (λ cs rows. OneLive rows) OneLive-Stable deps p row id _ _ h

after_claim-OneLive :
    (deps : Deps) (p : Payload) (row : QueueRow) (c : ClaimResult × World)
    → OneLive c.1.registry
    → OneLive (after_claim deps p row c).1.registry
after_claim-OneLive deps p row (claimed id, w) h = call_connector-OneLive deps p row (some id) w h
after_claim-OneLive deps p row (taken, w) h = h
after_claim-OneLive deps p row (raised, w) h = h

claim_url_registry-OneLive :
    (row : QueueRow) (a c : String) (w : World)
    → OneLive w.registry
    → OneLive (claim_url_registry row a c w).1.registry
unfolding claim_url_registry
claim_url_registry-OneLive row a c w h = elim (Bool-cases (next_fault w.faults).0) [
  | inl fails ↦ rw fails h
  | inr works ↦ elim (Bool-cases (any (holds_slot a c) w.registry)) [
    | inl held ↦ rw (works, held) h
    | inr free ↦ rw (works, free) (insert_live-OneLive row a c w free h)
  ]
]

by_run-OneLive :
    (dry : Bool) (deps : Deps) (p : Payload) (row : QueueRow) (w : World)
    → OneLive w.registry
    → OneLive (by_run dry deps p row w).1.registry
unfolding by_run
by_run-OneLive true deps p row w h = call_connector-OneLive deps p row none w h
by_run-OneLive false deps p row w h =
    after_claim-OneLive deps p row (claim_url_registry row p.asset_id p.channel_class w)
      (claim_url_registry-OneLive row p.asset_id p.channel_class w h)

claim_and_publish-OneLive :
    (deps : Deps) (p : Payload) (row : QueueRow) (w : World)
    → OneLive w.registry
    → OneLive (claim_and_publish deps p row w).1.registry
unfolding claim_and_publish
claim_and_publish-OneLive deps p row w h = by_run-OneLive p.dry_run deps p row w h

-- A publish job leaves at most one live row for each asset and channel if there was at most one
-- before, whatever the connector replies and whichever queries fail.
pub publish_unit-OneLive :
    (deps : Deps) (p : Payload) (w : World)
    → OneLive w.registry
    → OneLive (publish_unit deps p w).1.registry
publish_unit-OneLive deps p w h =
    publish_unit-keeps (λ cs rows. OneLive rows) OneLive-Stable deps p
      (claim_and_publish-OneLive deps p) w h
