-- ===== src/Deploy/Publish/Unit.antt =====
-- The publish job: `publishUnit` of src/deploy/publishUnit.ts, and the host guard of
-- src/deploy/connectors/ownedNet.ts that it calls. The connectors and the parser of URLs are passed.
pub mod Calls
pub mod Slots
pub mod Outcomes
use aeo_geo_optimization.Common.{
  ℕ, String, Bool, true, false, not, ◌&&◌, ◌||◌, Option, none, some, List, [], ◌∷◌, ◌++◌, ◌==◌,
  text_eq, if◌then◌else◌, any, length,
}
use aeo_geo_optimization.Deploy.Rules.{
  DeployStatus, EligibilityResult, eligible, ineligible, is_publish_eligible, assert_disclosure,
}
use aeo_geo_optimization.Deploy.Queue.{QueueRow}
use aeo_geo_optimization.Deploy.Publish.Store.{
  World, PublishRequest, ClaimResult, claimed, taken, raised, next_fault, mark_deploy_status,
  claim_url_registry, mark_url_registry_published, mark_url_registry_failed,
  insert_url_registry_dry_run, enqueue_verify,
}

-- The result by its discriminant: one of `ok: false` with the code NOT_CONFIGURED or THROTTLED is
-- `not_configured` or `throttled`, whichever type it was made as, and `error` has any other code.
pub data PublishResult : Type 0 where
  ok : String → Option String → PublishResult
  ok_dry_run : String → PublishResult
  not_configured : PublishResult
  throttled : ℕ → PublishResult
  error : String → String → Bool → PublishResult

-- What `connector.publish` does: it returns a result, or throws.
pub data Reply : Type 0 where
  returned : PublishResult → Reply
  threw : Reply

-- How the job ends: resolved, with a `RetryableJobError`, or with another error.
pub data Outcome : Type 0 where
  resolved retryable unexpected : Outcome

pub record Payload : Type 0 where
  pub queue_id : String
  pub asset_id : String
  pub channel_class : String
  pub dry_run : Bool

-- The connector of each channel class, the host of a URL by its characters (none if it does not
-- parse), and the hosts that are blocked.
pub record Deps : Type 0 where
  pub publish : String → PublishRequest → Reply
  pub host_of : String → Option (List ℕ)
  pub blocklist : List (List ℕ)

abbrev same_codes : List ℕ → List ℕ → Bool
same_codes [] [] = true
same_codes (a ∷ s) (b ∷ t) = a == b && same_codes s t
same_codes _ _ = false

-- `s.endsWith(t)`
abbrev ends_with : List ℕ → List ℕ → Bool
ends_with [] t = same_codes [] t
ends_with (a ∷ s) t = same_codes (a ∷ s) t || ends_with s t

-- The host is a blocked one or below it.
abbrev is_under : List ℕ → List ℕ → Bool
is_under host blocked = same_codes host blocked || ends_with host (b'.' ∷ blocked)

abbrev host_blocked : Option (List ℕ) → List (List ℕ) → Bool
host_blocked none blocklist = true
host_blocked (some host) blocklist = any (is_under host) blocklist

-- Whether the host guard refuses the URL; with an empty list it refuses none.
unfoldable pub is_blocklisted : Deps → String → Bool
is_blocklisted deps url =
    if length deps.blocklist == 0 then false else host_blocked (deps.host_of url) deps.blocklist

unfoldable pub find_row : String → List QueueRow → Option QueueRow
find_row queue_id [] = none
find_row queue_id (r ∷ rows) =
    let rest = find_row queue_id rows in if text_eq r.queue_id queue_id then some r else rest

-- `if (registryId != null) await markUrlRegistryFailed(registryId)`
abbrev pub fail_slot : Option ℕ → World → World
fail_slot none w = w
fail_slot (some id) w = mark_url_registry_failed id w

abbrev pub publish_slot : Option ℕ → String → Option String → World → World
publish_slot none url external_ref w = w
publish_slot (some id) url external_ref w = mark_url_registry_published id url external_ref w

abbrev pub verify_slot : Option ℕ → World → World
verify_slot none w = w
verify_slot (some id) w = enqueue_verify id w

-- What follows the connector's reply, with the registry row that was claimed, if one was.
unfoldable pub after_reply : Deps → Payload → QueueRow → Option ℕ → Reply → World → Outcome × World
unfolding is_blocklisted
after_reply deps p row registry_id threw w = (retryable, fail_slot registry_id w)
after_reply deps p row registry_id (returned (ok url external_ref)) w =
    if is_blocklisted deps url
    then (resolved, mark_deploy_status p.queue_id DeployStatus.failed (fail_slot registry_id w))
    else (
      resolved,
      verify_slot registry_id (
          mark_deploy_status p.queue_id DeployStatus.published
            (publish_slot registry_id url external_ref w)),
    )
after_reply deps p row registry_id (returned (ok_dry_run planned_url)) w = (
  resolved,
  mark_deploy_status p.queue_id DeployStatus.queued
      (insert_url_registry_dry_run row p.asset_id p.channel_class planned_url w),
)
after_reply deps p row registry_id (returned not_configured) w =
    (resolved, mark_deploy_status p.queue_id DeployStatus.queued (fail_slot registry_id w))
after_reply deps p row registry_id (returned (throttled retry_after_ms)) w =
    (retryable, mark_deploy_status p.queue_id DeployStatus.queued w)
after_reply deps p row registry_id (returned (error code message again)) w =
    if again
    then (retryable, mark_deploy_status p.queue_id DeployStatus.queued (fail_slot registry_id w))
    else (resolved, mark_deploy_status p.queue_id DeployStatus.failed (fail_slot registry_id w))

abbrev pub request_of : Payload → QueueRow → PublishRequest
request_of p row = record {
  asset_id = p.asset_id;
  channel_class = p.channel_class;
  customer_id = row.customer_id;
  language = row.language;
  body = row.body;
  disclosure_tag = row.disclosure_tag;
  dry_run = p.dry_run;
  idempotency_key = p.asset_id;
}

-- The call of the connector, which the world records.
unfoldable pub call_connector : Deps → Payload → QueueRow → Option ℕ → World → Outcome × World
unfolding after_reply
call_connector deps p row registry_id w =
    let req = request_of p row in
    after_reply deps p row registry_id (deps.publish p.channel_class req)
      (record w { calls = req ∷ w.calls })

abbrev pub after_claim : Deps → Payload → QueueRow → ClaimResult × World → Outcome × World
after_claim deps p row (claimed id, w) = call_connector deps p row (some id) w
after_claim deps p row (taken, w) = (resolved, w)
after_claim deps p row (raised, w) = (unexpected, w)

-- The slot is claimed before the side effect, except in a dry run.
unfoldable pub by_run : Bool → Deps → Payload → QueueRow → World → Outcome × World
unfolding call_connector claim_url_registry
by_run true deps p row w = call_connector deps p row none w
by_run false deps p row w =
    after_claim deps p row (claim_url_registry row p.asset_id p.channel_class w)

unfoldable pub claim_and_publish : Deps → Payload → QueueRow → World → Outcome × World
unfolding by_run
claim_and_publish deps p row w = by_run p.dry_run deps p row w

-- What the two checks let through.
unfoldable pub by_eligibility :
    Deps → Payload → QueueRow → EligibilityResult → World → Outcome × World
unfolding claim_and_publish assert_disclosure mark_deploy_status
by_eligibility deps p row (ineligible reason) w =
    (resolved, mark_deploy_status p.queue_id DeployStatus.queued w)
by_eligibility deps p row eligible w =
    if assert_disclosure p.channel_class row.disclosure_tag
    then claim_and_publish deps p row w
    else (resolved, mark_deploy_status p.queue_id DeployStatus.failed w)

unfoldable pub publish_row : Deps → Payload → QueueRow → World → Outcome × World
unfolding by_eligibility is_publish_eligible
publish_row deps p row w =
    by_eligibility deps p row (is_publish_eligible row.gate_status row.approved_by row.status) w

abbrev pub on_loaded : Deps → Payload → Option QueueRow → World → Outcome × World
on_loaded deps p none w = (resolved, w)
on_loaded deps p (some row) w = publish_row deps p row w

-- The job, by its payload (whose `dryRun` is the effective one).
unfoldable pub publish_unit : Deps → Payload → World → Outcome × World
unfolding publish_row find_row
publish_unit deps p w =
    let (fails, rest) = next_fault w.faults in
    let later = record w { faults = rest } in
    if fails then (unexpected, later) else on_loaded deps p (find_row p.queue_id later.rows) later
