-- ===== src/Deploy/Verify.antt =====
-- The job that confirms the indexing of a published URL: src/deploy/verifyIndexing.ts, its queries in
-- src/db/repo.ts, and its handler in src/scheduler/worker.ts. Connectors are passed, and may answer
-- differently at each call. `faults` says which of the next queries fail. Log lines are left out.
pub mod Rows
pub mod Attempts
mod Tests
use aeo_geo_optimization.Common.{
  ℕ, ◌+◌, String, Bool, true, false, Option, none, some, List, [], ◌∷◌, leb, ◌==◌, text_eq,
  if◌then◌else◌,
}
use aeo_geo_optimization.Deploy.Publish.Store.{PublishStatus, published, next_fault}

pub data IndexingStatus : Type 0 where
  unknown submitted indexed not_indexed : IndexingStatus

-- The columns of `url_registry` that the job reads or writes; `id` is the primary key.
pub record UrlRow : Type 0 where
  pub id : ℕ
  pub channel_class : String
  pub published_url : String
  pub publish_status : PublishStatus
  pub indexing_status : IndexingStatus
  pub first_seen_indexed_at : Option ℕ

-- The registry, how often a connector was asked, which of the next queries fail, and the time.
pub record Listings : Type 0 where
  pub rows : List UrlRow
  pub asked : ℕ
  pub faults : List Bool
  pub clock : ℕ

-- Whether the connector of a channel can confirm, and what it answers for a channel and a URL after a
-- number of calls: none where it throws.
pub record Connectors : Type 0 where
  pub can_confirm : String → Bool
  pub confirm_indexing : String → String → ℕ → Option Bool

-- The job resolves, asks for a retry, or throws a permanent error or that of a query.
pub data Outcome : Type 0 where
  resolved retryable permanent thrown : Outcome

abbrev pub verify_max_attempts : ℕ
verify_max_attempts = 5

abbrev pub find_url_registry_row : ℕ → List UrlRow → Option UrlRow
find_url_registry_row id [] = none
find_url_registry_row id (r ∷ rows) =
    let rest = find_url_registry_row id rows in if r.id == id then some r else rest

abbrev pub update_row : ℕ → (UrlRow → UrlRow) → List UrlRow → List UrlRow
update_row id f [] = []
update_row id f (r ∷ rows) =
    let rest = r ∷ update_row id f rows in if r.id == id then f r ∷ rows else rest

-- `COALESCE(first_seen_indexed_at, now)`, of an indexed row only.
abbrev pub first_seen : IndexingStatus → ℕ → Option ℕ → Option ℕ
first_seen indexed now none = some now
first_seen indexed now (some at) = some at
first_seen _ now seen = seen

abbrev pub stamp : IndexingStatus → ℕ → UrlRow → UrlRow
stamp status now r = record r {
  indexing_status = status;
  first_seen_indexed_at = first_seen status now r.first_seen_indexed_at;
}

-- False where the query fails.
unfoldable pub update_indexing_status : ℕ → IndexingStatus → Listings → Bool × Listings
update_indexing_status id status w =
    let later = record w { faults = (next_fault w.faults).1 } in
    if (next_fault w.faults).0
    then (false, later)
    else (true, record later { rows = update_row id (stamp status w.clock) w.rows })

abbrev pub is_published : PublishStatus → Bool
is_published published = true
is_published _ = false

-- A file of the owned network is on disk, and is never taken for indexed.
abbrev pub status_of : Bool → Bool → IndexingStatus
status_of true found = submitted
status_of false true = indexed
status_of false false = not_indexed

abbrev pub is_owned : UrlRow → Bool
is_owned row = text_eq row.channel_class "owned_net"

unfoldable pub settle : ℕ → Listings → Outcome × Listings
settle id w =
    let updated = update_indexing_status id unknown w in
    (if updated.0 then resolved else thrown, updated.1)

-- The `catch` around the confirmation and the stamp.
unfoldable pub on_error : ℕ → ℕ → Listings → Outcome × Listings
on_error id attempt w = if leb verify_max_attempts attempt then settle id w else (retryable, w)

abbrev pub on_stamped : ℕ → ℕ → Bool × Listings → Outcome × Listings
on_stamped id attempt (true, w) = (resolved, w)
on_stamped id attempt (false, w) = on_error id attempt w

abbrev pub on_answer : ℕ → ℕ → UrlRow → Option Bool → Listings → Outcome × Listings
on_answer id attempt row none w = on_error id attempt w
on_answer id attempt row (some found) w =
    on_stamped id attempt (update_indexing_status id (status_of (is_owned row) found) w)

unfoldable pub confirm : Connectors → ℕ → ℕ → UrlRow → Listings → Outcome × Listings
confirm connectors id attempt row w =
    on_answer id attempt row
      (connectors.confirm_indexing row.channel_class row.published_url w.asked)
      (record w { asked = w.asked + 1 })

unfoldable pub verify_row : Connectors → ℕ → ℕ → UrlRow → Listings → Outcome × Listings
verify_row connectors id attempt row w =
    if is_published row.publish_status
    then (if connectors.can_confirm row.channel_class
        then confirm connectors id attempt row w
        else settle id w)
    else (resolved, w)

abbrev pub on_row : Connectors → ℕ → ℕ → Option UrlRow → Listings → Outcome × Listings
on_row connectors id attempt none w = (permanent, w)
on_row connectors id attempt (some row) w = verify_row connectors id attempt row w

unfoldable pub handle_publish_verify : Connectors → ℕ → ℕ → Listings → Outcome × Listings
handle_publish_verify connectors id attempt w =
    let later = record w { faults = (next_fault w.faults).1 } in
    if (next_fault w.faults).0
    then (permanent, later)
    else on_row connectors id attempt (find_url_registry_row id w.rows) later

-- The worker's handler names no attempt, which is then the first.
unfoldable pub publish_verify : Connectors → ℕ → Listings → Outcome × Listings
publish_verify connectors id w = handle_publish_verify connectors id 1 w
