-- ===== src/Deploy/Publish/Unit/Outcomes.antt =====
-- What a publish job does when no query fails: src/deploy/publishUnit.ts.
use aeo_geo_optimization.Common.{
  ℕ, ◌+◌, ◌<◌, ◌≡◌, refl, String, Bool, true, false, not, keep, map, Bool-cases, ◌⊎◌, Option, some,
  List, [], ◌∷◌, ◌==◌, text_eq, text_eq_refl, any, inl, inr, arith, All, text_eq_iff,
}
use aeo_geo_optimization.Deploy.Rules.{
  DeployStatus, eligible, is_publish_eligible, is_missing, is_leased,
}
use aeo_geo_optimization.Deploy.Queue.{QueueRow}
use aeo_geo_optimization.Deploy.Publish.Store.{
  World, RegistryRow, claimed, holds_slot, claiming_row, set_status, update_publishing,
  to_published, published, mark_deploy_status, claim_url_registry, mark_url_registry_published,
  enqueue_verify, to_failed, mark_url_registry_failed,
}
use aeo_geo_optimization.Deploy.Publish.Unit.{
  ok, ok_dry_run, not_configured, error, threw, throttled, Reply, returned, Outcome, Payload, Deps,
  after_reply, is_blocklisted, call_connector, by_eligibility, by_run, claim_and_publish,
  publish_row, publish_unit, request_of,
}
use aeo_geo_optimization.Deploy.Publish.Unit.Calls.{MayPublish, publish_unit-CallsOnce}

-- No query fails.
abbrev pub quiet : World → World
quiet w = record w { faults = [] }

eligible_lem :
    (gate : String) (by : Option String) (status : DeployStatus)
    → gate ≡ "passed"
    → is_missing by ≡ false
    → is_leased status ≡ true
    → is_publish_eligible gate by status ≡ eligible
unfolding is_publish_eligible
eligible_lem gate by status passed approved leased =
    let gate = (text_eq_iff gate "passed").1 passed in ground arith

-- A real job whose row may be published reaches the claim of its slot.
publish_unit-by_run :
    (deps : Deps) (p : Payload) (w : World) (row : QueueRow)
    → MayPublish p w row
    → publish_unit deps p (quiet w) ≡ by_run p.dry_run deps p row (quiet w)
unfolding publish_unit publish_row by_eligibility claim_and_publish
publish_unit-by_run deps p w row may =
    let pass =
      eligible_lem row.gate_status row.approved_by row.status may.passed may.approved may.leased in
    simp (may.loaded, pass, may.disclosed)

claim_url_registry-free :
    (row : QueueRow) (a c : String) (w : World)
    → any (holds_slot a c) w.registry ≡ false
    → claim_url_registry row a c (quiet w) ≡ (
      claimed w.next_id,
      record w {
        faults = [];
        registry = claiming_row row a c w.next_id ∷ w.registry;
        next_id = w.next_id + 1;
      },
    )
unfolding claim_url_registry
claim_url_registry-free row a c w free = rw free

update_publishing-fresh :
    (id : ℕ) (f : RegistryRow → RegistryRow) (rows : List RegistryRow)
    → All (λ r. r.id < id) rows
    → update_publishing id f rows ≡ rows
update_publishing-fresh id f [] fresh = refl
update_publishing-fresh id f (r ∷ rows) (below, fresh) =
    let other : (r.id == id) ≡ false = ground arith in
    rw (other, update_publishing-fresh id f rows fresh)

-- The registry's row of a publication.
abbrev pub published_row : Payload → QueueRow → String → Option String → World → RegistryRow
published_row p row url ref w = record {
  id = w.next_id;
  asset_id = p.asset_id;
  content_set_id = some row.content_set_id;
  customer_id = row.customer_id;
  channel_class = p.channel_class;
  published_url = url;
  external_ref = ref;
  disclosure_tag = row.disclosure_tag;
  language = row.language;
  publish_status = published;
  published_at = some w.clock;
}

abbrev pub has_id : String → QueueRow → Bool
has_id queue_id r = text_eq r.queue_id queue_id

-- What is stored once the connector has published: the registry's new row, the status of the queue's row
-- with the other rows as they were, and the job that verifies the new row.
pub record IsPublished (p : Payload) (row : QueueRow) (url : String) (ref : Option String)
    (w : World) (result : Outcome × World) : Type 0 where
  pub outcome : result.0 ≡ Outcome.resolved
  pub registry : result.1.registry ≡ published_row p row url ref w ∷ w.registry
  pub marked :
      All (λ r. (has_id p.queue_id r ≡ false) ⊎ (r.status ≡ DeployStatus.published)) result.1.rows
  pub ids :
      map (λ (r : QueueRow). r.queue_id) result.1.rows ≡ map (λ (r : QueueRow). r.queue_id) w.rows
  pub others :
      keep (λ r. not (has_id p.queue_id r)) result.1.rows
      ≡ keep (λ r. not (has_id p.queue_id r)) w.rows
  pub verify : result.1.verify_jobs ≡ w.next_id ∷ w.verify_jobs

set_status-marked :
    (id : String) (w : World) (rows : List QueueRow)
    → All
        (λ r. (has_id id r ≡ false) ⊎ (r.status ≡ DeployStatus.published))
        (set_status id DeployStatus.published (record w { rows = rows })).rows
set_status-marked id w [] = tt
set_status-marked id w (r ∷ rows) = elim (Bool-cases (has_id id r)) [
  | inl this ↦ rw this (inr refl, set_status-marked id w rows)
  | inr other ↦ rw other (inl other, set_status-marked id w rows)
]

set_status-ids :
    (id : String) (w : World) (rows : List QueueRow)
    → map
        (λ (r : QueueRow). r.queue_id)
        (set_status id DeployStatus.published (record w { rows = rows })).rows
      ≡ map (λ (r : QueueRow). r.queue_id) rows
set_status-ids id w [] = refl
set_status-ids id w (r ∷ rows) = elim (Bool-cases (has_id id r)) [
  | inl this ↦ rw (this, set_status-ids id w rows) refl
  | inr other ↦ rw (other, set_status-ids id w rows) refl
]

set_status-others :
    (id : String) (w : World) (rows : List QueueRow)
    → keep
        (λ r. not (has_id id r))
        (set_status id DeployStatus.published (record w { rows = rows })).rows
      ≡ keep (λ r. not (has_id id r)) rows
set_status-others id w [] = refl
set_status-others id w (r ∷ rows) = elim (Bool-cases (has_id id r)) [
  | inl this ↦ rw (this, this, set_status-others id w rows) refl
  | inr other ↦ rw (other, other, set_status-others id w rows) refl
]

by_run-IsPublished :
    (deps : Deps) (p : Payload) (row : QueueRow) (w : World) (url : String) (ref : Option String)
    → any (holds_slot p.asset_id p.channel_class) w.registry ≡ false
    → All (λ r. r.id < w.next_id) w.registry
    → deps.publish p.channel_class (request_of p row) ≡ returned (ok url ref)
    → is_blocklisted deps url ≡ false
    → IsPublished p row url ref w (by_run false deps p row (quiet w))
unfolding by_run call_connector after_reply mark_url_registry_published mark_deploy_status
    enqueue_verify
by_run-IsPublished deps p row w url ref free fresh reply allowed =
    let own : (w.next_id == w.next_id) ≡ true = ground arith in
    let others =
      update_publishing-fresh w.next_id (to_published url ref w.clock) w.registry fresh in
    rw (claim_url_registry-free row p.asset_id p.channel_class w free, reply, allowed)
      record {
        outcome = refl;
        registry = rw (own, others);
        marked = set_status-marked p.queue_id w w.rows;
        ids = set_status-ids p.queue_id w w.rows;
        others = set_status-others p.queue_id w w.rows;
        verify = refl;
      }

slot_free :
    (p : Payload) (w : World) (row : QueueRow)
    → MayPublish p w row
    → p.dry_run ≡ false
    → any (holds_slot p.asset_id p.channel_class) w.registry ≡ false
slot_free p w row may real = elim may.free [ inl dry ↦ ground (arith, dry, real) | inr free ↦ free ]

-- The replies that report a failure, except for `THROTTLED`.
abbrev pub is_failure : Reply → Bool
is_failure threw = true
is_failure (returned not_configured) = true
is_failure (returned (error code message again)) = true
is_failure _ = false

-- The slot after the reply to a real job.
abbrev pub slot_after : Deps → Payload → World → Bool
slot_after deps p w =
    any (holds_slot p.asset_id p.channel_class) (publish_unit deps p (quiet w)).1.registry

after_failure-slot :
    (deps : Deps) (p : Payload) (row : QueueRow) (reply : Reply) (id : ℕ) (w : World)
    → is_failure reply ≡ true
    → any (holds_slot p.asset_id p.channel_class) (update_publishing id to_failed w.registry)
      ≡ false
    → any
        (holds_slot p.asset_id p.channel_class)
        (after_reply deps p row (some id) reply (quiet w)).1.registry
      ≡ false
unfolding after_reply mark_url_registry_failed mark_deploy_status
after_failure-slot deps p row threw id w fails h = h
after_failure-slot deps p row (returned not_configured) id w fails h = h
after_failure-slot deps p row (returned (error code message true)) id w fails h = h
after_failure-slot deps p row (returned (error code message false)) id w fails h = h
after_failure-slot deps p row (returned (ok url ref)) id w fails h = ground (arith, fails)
after_failure-slot deps p row (returned (ok_dry_run url)) id w fails h = ground (arith, fails)
after_failure-slot deps p row (returned (throttled ms)) id w fails h = ground (arith, fails)

by_run-releases :
    (deps : Deps) (p : Payload) (row : QueueRow) (w : World)
    → any (holds_slot p.asset_id p.channel_class) w.registry ≡ false
    → All (λ r. r.id < w.next_id) w.registry
    → is_failure (deps.publish p.channel_class (request_of p row)) ≡ true
    → any (holds_slot p.asset_id p.channel_class) (by_run false deps p row (quiet w)).1.registry
      ≡ false
unfolding by_run call_connector
by_run-releases deps p row w free fresh fails =
    let own : (w.next_id == w.next_id) ≡ true = ground arith in
    let others = update_publishing-fresh w.next_id to_failed w.registry fresh in
    rw (claim_url_registry-free row p.asset_id p.channel_class w free) (
      after_failure-slot deps p row (deps.publish p.channel_class (request_of p row)) w.next_id
        (record w {
          registry = claiming_row row p.asset_id p.channel_class w.next_id ∷ w.registry;
          next_id = w.next_id + 1;
          calls = request_of p row ∷ w.calls;
        })
        fails (rw (own, others, free) refl))

-- After a real job whose row may be published and whose connector throws, is not configured or
-- returns an error, the asset and channel have no live row if no query fails and the ids of the
-- registry are below the next: the slot is free for a later job.
pub publish_unit-releases :
    (deps : Deps) (p : Payload) (row : QueueRow) (w : World)
    → MayPublish p w row
    → p.dry_run ≡ false
    → All (λ r. r.id < w.next_id) w.registry
    → is_failure (deps.publish p.channel_class (request_of p row)) ≡ true
    → slot_after deps p w ≡ false
publish_unit-releases deps p row w may real fresh fails =
    simp (publish_unit-by_run deps p w row may, real)
      (by_run-releases deps p row w (slot_free p w row may real) fresh fails)

by_run-throttled :
    (deps : Deps) (p : Payload) (row : QueueRow) (w : World) (ms : ℕ)
    → any (holds_slot p.asset_id p.channel_class) w.registry ≡ false
    → deps.publish p.channel_class (request_of p row) ≡ returned (throttled ms)
    → any (holds_slot p.asset_id p.channel_class) (by_run false deps p row (quiet w)).1.registry
      ≡ true
unfolding by_run call_connector after_reply mark_deploy_status
by_run-throttled deps p row w ms free reply = rw (
  claim_url_registry-free row p.asset_id p.channel_class w free,
  reply,
  text_eq_refl p.asset_id,
  text_eq_refl p.channel_class,
)

throttled_slot :
    (deps : Deps) (p : Payload) (row : QueueRow) (w : World) (ms : ℕ)
    → MayPublish p w row
    → p.dry_run ≡ false
    → deps.publish p.channel_class (request_of p row) ≡ returned (throttled ms)
    → slot_after deps p w ≡ true
throttled_slot deps p row w ms may real reply =
    simp (publish_unit-by_run deps p w row may, real)
      (by_run-throttled deps p row w ms (slot_free p w row may real) reply)

taken_slot :
    (deps : Deps) (p : Payload) (w : World)
    → p.dry_run ≡ false
    → any (holds_slot p.asset_id p.channel_class) w.registry ≡ true
    → (publish_unit deps p w).1.calls ≡ w.calls
taken_slot deps p w real held = elim (publish_unit-CallsOnce deps p w) [
  | inl same ↦ same
  | inr (row, may, once) ↦ ground (arith, slot_free p w row may real, held)
]

-- After a real job whose row may be published and whose connector replies `THROTTLED`, no real job
-- of the same asset and channel calls a connector, if no query of the first job fails.
pub throttled_never_retried :
    (deps : Deps) (p next : Payload) (row : QueueRow) (w : World) (ms : ℕ)
    → MayPublish p w row
    → p.dry_run ≡ false
    → deps.publish p.channel_class (request_of p row) ≡ returned (throttled ms)
    → next.asset_id ≡ p.asset_id
    → next.channel_class ≡ p.channel_class
    → next.dry_run ≡ false
    → (publish_unit deps next (publish_unit deps p (quiet w)).1).1.calls
      ≡ (publish_unit deps p (quiet w)).1.calls
throttled_never_retried deps p next row w ms may real reply asset channel real_next =
    taken_slot deps next (publish_unit deps p (quiet w)).1 real_next
      (rw (asset, channel) (throttled_slot deps p row w ms may real reply))

-- A real job whose row may be published, whose connector answers with a URL that is not blocked,
-- resolves when no query fails and the ids of the registry are below the next. Its new row in the
-- registry is `published` at that URL with the job's asset, channel and time, and the rest of the
-- registry stays; the queue's row is `published` and the other rows stay; `publish.verify` is enqueued
-- for the new row. After it, no real job of the same asset and channel calls a connector, whatever the
-- connectors then are and whichever of the later queries fail.
pub publish_unit-IsPublished :
    (deps later_deps : Deps) (p next : Payload) (row : QueueRow) (w : World) (url : String)
    (ref : Option String) (faults : List Bool)
    → MayPublish p w row
    → p.dry_run ≡ false
    → All (λ r. r.id < w.next_id) w.registry
    → deps.publish p.channel_class (request_of p row) ≡ returned (ok url ref)
    → is_blocklisted deps url ≡ false
    → next.asset_id ≡ p.asset_id
    → next.channel_class ≡ p.channel_class
    → next.dry_run ≡ false
    → IsPublished p row url ref w (publish_unit deps p (quiet w))
      × ((publish_unit later_deps next
            (record ((publish_unit deps p (quiet w)).1) { faults = faults })).1.calls
          ≡ (publish_unit deps p (quiet w)).1.calls)
publish_unit-IsPublished deps later_deps p next row w url ref faults may real fresh reply allowed
      asset channel real_next =
    let stored : IsPublished p row url ref w (publish_unit deps p (quiet w)) =
      simp (publish_unit-by_run deps p w row may, real)
        (by_run-IsPublished deps p row w url ref (slot_free p w row may real) fresh reply
          allowed) in
    let registry = stored.registry in
    let held =
      taken_slot later_deps next (record ((publish_unit deps p (quiet w)).1) { faults = faults })
        real_next
        (rw (registry, asset, channel, text_eq_refl p.asset_id, text_eq_refl p.channel_class)
          refl) in
    (stored, held)
