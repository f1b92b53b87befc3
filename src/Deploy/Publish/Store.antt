-- ===== src/Deploy/Publish/Store.antt =====
-- The queue and the registry of published URLs: src/db/repo.ts. Each query may fail, and then
-- changes nothing: `faults` says which of the next queries fail. The columns `approver_audit` and
-- `publish_meta`, which nothing reads back, are left out.
pub mod Keeps
use Prim.Native.String
use aeo_geo_optimization.Common.{
  ℕ, suc, ◌+◌, String, Bool, true, false, not, ◌&&◌, ◌||◌, Option, none, some, List, [], ◌∷◌, ◌++◌,
  map, ◌==◌, text_eq, if◌then◌else◌, any,
}
use aeo_geo_optimization.Deploy.Rules.{DeployStatus}
use aeo_geo_optimization.Deploy.Queue.{QueueRow}

pub data PublishStatus : Type 0 where
  publishing published dry_run failed unpublished : PublishStatus

-- A row of `url_registry`.
pub record RegistryRow : Type 0 where
  pub id : ℕ
  pub asset_id : String
  pub content_set_id : Option String
  pub customer_id : Option String
  pub channel_class : String
  pub published_url : String
  pub external_ref : Option String
  pub disclosure_tag : Option String
  pub language : String
  pub publish_status : PublishStatus
  pub published_at : Option ℕ

-- What a connector is asked to publish.
pub record PublishRequest : Type 0 where
  pub asset_id : String
  pub channel_class : String
  pub customer_id : Option String
  pub language : String
  pub body : String
  pub disclosure_tag : Option String
  pub dry_run : Bool
  pub idempotency_key : String

-- The tables, the next registry id, the calls of the connector, the jobs `publish.verify`, and
-- which queries fail.
pub record World : Type 0 where
  pub rows : List QueueRow
  pub registry : List RegistryRow
  pub next_id : ℕ
  pub calls : List PublishRequest
  pub verify_jobs : List ℕ
  pub faults : List Bool
  pub clock : ℕ

-- Whether the next query fails, and what stands behind it.
abbrev pub next_fault : List Bool → Bool × List Bool
next_fault [] = (false, [])
next_fault (f ∷ fs) = (f, fs)

-- A write, which changes nothing if it fails.
abbrev pub attempt : World → (World → World) → World
attempt w write =
    let (fails, rest) = next_fault w.faults in
    let later = record w { faults = rest } in if fails then later else write later

-- `publish_status IN ('publishing', 'published')`
abbrev pub is_live : PublishStatus → Bool
is_live publishing = true
is_live published = true
is_live _ = false

abbrev pub is_publishing : PublishStatus → Bool
is_publishing publishing = true
is_publishing _ = false

-- A live row of the asset and channel, which the partial unique index allows once.
abbrev pub holds_slot : String → String → RegistryRow → Bool
holds_slot asset_id channel_class r =
    is_live r.publish_status && text_eq r.asset_id asset_id && text_eq r.channel_class channel_class

abbrev pub set_status : String → DeployStatus → World → World
set_status queue_id status w = record w {
  rows = map (λ r. if text_eq r.queue_id queue_id then record r { status = status } else r) w.rows;
}

unfoldable pub mark_deploy_status : String → DeployStatus → World → World
mark_deploy_status queue_id status w = attempt w (set_status queue_id status)

-- `urn:asset:${assetId}:${channelClass}:claiming`
abbrev claim_placeholder : String → String → String
claim_placeholder asset_id channel_class =
    String.◌++◌ (String.◌++◌ "urn:asset:" asset_id)
      (String.◌++◌ (String.◌++◌ ":" channel_class) ":claiming")

-- The row that a claim inserts.
abbrev pub claiming_row : QueueRow → String → String → ℕ → RegistryRow
claiming_row row asset_id channel_class id = record {
  id = id;
  asset_id = asset_id;
  content_set_id = some row.content_set_id;
  customer_id = row.customer_id;
  channel_class = channel_class;
  published_url = claim_placeholder asset_id channel_class;
  external_ref = none;
  disclosure_tag = row.disclosure_tag;
  language = row.language;
  publish_status = publishing;
  published_at = none;
}

pub data ClaimResult : Type 0 where
  claimed : ℕ → ClaimResult
  taken : ClaimResult
  raised : ClaimResult

-- `INSERT ... ON CONFLICT DO NOTHING` on the live slot.
abbrev pub insert_live : QueueRow → String → String → World → ClaimResult × World
insert_live row asset_id channel_class w =
    if any (holds_slot asset_id channel_class) w.registry then (taken, w) else (
      claimed w.next_id,
      record w {
        registry = claiming_row row asset_id channel_class w.next_id ∷ w.registry;
        next_id = w.next_id + 1;
      },
    )

unfoldable pub claim_url_registry : QueueRow → String → String → World → ClaimResult × World
claim_url_registry row asset_id channel_class w =
    let (fails, rest) = next_fault w.faults in
    let later = record w { faults = rest } in
    if fails then (raised, later) else insert_live row asset_id channel_class later

-- An update of the row with this id, if it is still being published.
abbrev pub update_publishing : ℕ → (RegistryRow → RegistryRow) → List RegistryRow → List RegistryRow
update_publishing id f rows =
    map (λ r. if r.id == id && is_publishing r.publish_status then f r else r) rows

abbrev pub to_published : String → Option String → ℕ → RegistryRow → RegistryRow
to_published url external_ref now r = record r {
  publish_status = published;
  published_url = url;
  external_ref = external_ref;
  published_at = some now;
}

abbrev pub set_published : ℕ → String → Option String → World → World
set_published id url external_ref w = record w {
  registry = update_publishing id (to_published url external_ref w.clock) w.registry;
}

unfoldable pub mark_url_registry_published : ℕ → String → Option String → World → World
mark_url_registry_published id url external_ref w = attempt w (set_published id url external_ref)

abbrev pub to_failed : RegistryRow → RegistryRow
to_failed r = record r { publish_status = failed }

abbrev pub set_failed : ℕ → World → World
set_failed id w = record w { registry = update_publishing id to_failed w.registry }

unfoldable pub mark_url_registry_failed : ℕ → World → World
mark_url_registry_failed id w = attempt w (set_failed id)

-- A dry run's row, which is no live one.
abbrev pub dry_run_row : QueueRow → String → String → String → ℕ → RegistryRow
dry_run_row row asset_id channel_class planned_url id =
    record (claiming_row row asset_id channel_class id) {
      published_url = planned_url;
      publish_status = dry_run;
    }

abbrev pub add_dry_run : QueueRow → String → String → String → World → World
add_dry_run row asset_id channel_class planned_url w = record w {
  registry = dry_run_row row asset_id channel_class planned_url w.next_id ∷ w.registry;
  next_id = w.next_id + 1;
}

unfoldable pub insert_url_registry_dry_run : QueueRow → String → String → String → World → World
insert_url_registry_dry_run row asset_id channel_class planned_url w =
    attempt w (add_dry_run row asset_id channel_class planned_url)

abbrev pub add_verify : ℕ → World → World
add_verify id w = record w { verify_jobs = id ∷ w.verify_jobs }

-- The job `publish.verify` of a registry row.
unfoldable pub enqueue_verify : ℕ → World → World
enqueue_verify id w = attempt w (add_verify id)
