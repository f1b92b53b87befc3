-- ===== src/Deploy/Dispatch.antt =====
-- The job that claims the queue's rows and enqueues their publication: src/deploy/dispatch.ts. The
-- registry's readiness and whether the job queue accepts a job are passed. `faults` says which of
-- the next queries fail, and `times` what the clock shows at the next claims. The distinct customers
-- of a channel come in the order of their first rows.
pub mod Claims
pub mod Jobs
pub mod Closed
mod Tests
use Prim.Native.String
use aeo_geo_optimization.Common.{
  ℕ, ◌+◌, String, Bool, true, false, not, ◌&&◌, Option, none, some, List, [], ◌∷◌, map, keep, any,
  ltb, ◌==◌, text_eq, if◌then◌else◌, length,
}
use aeo_geo_optimization.Common.OrderedMap.{get, set}
use aeo_geo_optimization.Deploy.Throttle.{
  ThrottlePolicy, ThrottleState, compute_remaining_budget, current_window_start,
}
use aeo_geo_optimization.Deploy.Rules.{DeployStatus, queued, is_leased, is_queued}
use aeo_geo_optimization.Deploy.Queue.{
  QueueRow, ClaimRequest, Claim, same_customer, is_some, claim_next_deploy_batch_for_customer,
}
use aeo_geo_optimization.Deploy.Publish.Store.{next_fault}
use aeo_geo_optimization.Deploy.Publish.Unit.{Payload}

pub record Job : Type 0 where
  pub payload : Payload
  pub singleton_key : String

pub data ConnectorStatus : Type 0 where
  ready not_configured stub : ConnectorStatus

pub record Board : Type 0 where
  pub rows : List QueueRow
  pub policies : List (String × ThrottlePolicy)
  pub states : List ((Option String × String) × ThrottleState)
  pub jobs : List Job
  pub faults : List Bool
  pub times : List ℕ

-- `PublishDispatchPayload`, with what the platform gives: the readiness of the registered channels,
-- whether the job queue takes a job (its singleton key may block it), the time and the lease's.
pub record Dispatch : Type 0 where
  pub channel_class : Option String
  pub dry_run : Bool
  pub readiness : List (String × ConnectorStatus)
  pub accepts : List Job → Job → Bool
  pub now : ℕ
  pub lease_timeout_ms : ℕ

abbrev pub same_key : Option String × String → Option String × String → Bool
same_key (a, c) (b, d) = same_customer a b && text_eq c d

-- Leased before `now - timeout`.
abbrev pub is_stale : ℕ → ℕ → QueueRow → Bool
is_stale timeout now r =
    is_leased r.status && (elim r.leased_at [ none ↦ false | some at ↦ ltb (at + timeout) now ])

unfoldable pub reap_stale_leases : ℕ → ℕ → List QueueRow → List QueueRow
reap_stale_leases timeout now rows =
    map (λ r. if is_stale timeout now r then record r { status = queued; leased_at = none } else r)
      rows

-- The `WHERE` of `readDistinctCustomersWithQueuedRows`.
abbrev is_waiting : String → QueueRow → Bool
is_waiting channel_class r =
    is_queued r.status
    && is_some r.approved_by
    && text_eq r.channel_class channel_class
    && text_eq r.gate_status "passed"

abbrev distinct : List (Option String) → List (Option String)
distinct [] = []
distinct (c ∷ cs) = c ∷ keep (λ d. not (same_customer c d)) (distinct cs)

unfoldable pub read_distinct_customers_with_queued_rows :
    String → List QueueRow → List (Option String)
read_distinct_customers_with_queued_rows channel_class rows =
    distinct (map (λ (r : QueueRow). r.customer_id) (keep (is_waiting channel_class) rows))

-- `publish:${assetId}:${channelClass}`
abbrev singleton_key_of : String → String → String
singleton_key_of asset_id channel_class =
    String.◌++◌ (String.◌++◌ "publish:" asset_id) (String.◌++◌ ":" channel_class)

abbrev pub job_of : Bool → String → QueueRow → Job
job_of dry_run channel_class row = record {
  payload = record {
    queue_id = row.queue_id;
    asset_id = row.asset_id;
    channel_class = channel_class;
    dry_run = dry_run;
  };
  singleton_key = singleton_key_of row.asset_id channel_class;
}

-- One job for each claimed row, up to the first that cannot be enqueued.
unfoldable pub enqueue_units : Dispatch → String → List QueueRow → Board → Board
enqueue_units d channel_class [] b = b
enqueue_units d channel_class (row ∷ claimed) b =
    let (fails, rest) = next_fault b.faults in
    let job = job_of d.dry_run channel_class row in
    let jobs = if d.accepts b.jobs job then job ∷ b.jobs else b.jobs in
    let others = enqueue_units d channel_class claimed (record b { faults = rest; jobs = jobs }) in
    if fails then record b { faults = rest } else others

abbrev pub next_time : ℕ → List ℕ → ℕ × List ℕ
next_time now [] = (now, [])
next_time now (t ∷ times) = (t, times)

abbrev store_state :
    Option String × String
    → Option ThrottleState
    → List ((Option String × String) × ThrottleState)
    → List ((Option String × String) × ThrottleState)
unfolding set
store_state key none states = states
store_state key (some s) states = set same_key key s states

-- What the claim leaves on the board.
unfoldable pub after_claim : Option String × String → Claim → Board → Board
unfolding store_state
after_claim key claim b = record b {
  rows = claim.rows;
  states = store_state key claim.state b.states;
}

-- The claim of one customer.
unfoldable pub claim_of : Dispatch → String → ℕ → ℕ → Option String → Board → Claim
unfolding claim_next_deploy_batch_for_customer get
claim_of d channel_class budget window_start customer_id b =
    claim_next_deploy_batch_for_customer (get text_eq channel_class b.policies) channel_class
      customer_id
      (record {
        limit = budget;
        window_start = window_start;
        now = (next_time d.now b.times).0;
        dry_run = d.dry_run;
      })
      b.rows (get same_key (customer_id, channel_class) b.states)

-- The board once the query of the claim was sent.
abbrev pub asked : Dispatch → Board → Board
asked d b = record b { faults = (next_fault b.faults).1; times = (next_time d.now b.times).1 }

-- The claim and the jobs of one customer.
unfoldable pub dispatch_customer : Dispatch → String → ℕ → ℕ → Option String → Board → Board
unfolding enqueue_units claim_of after_claim
dispatch_customer d channel_class budget window_start customer_id b =
    let claim = claim_of d channel_class budget window_start customer_id b in
    if (next_fault b.faults).0
    then asked d b
    else enqueue_units d channel_class claim.claimed
        (after_claim (customer_id, channel_class) claim (asked d b))

unfoldable pub dispatch_customers : Dispatch → String → ℕ → ℕ → List (Option String) → Board → Board
unfolding dispatch_customer
dispatch_customers d channel_class budget window_start [] b = b
dispatch_customers d channel_class budget window_start (c ∷ customers) b =
    dispatch_customers d channel_class budget window_start customers
      (dispatch_customer d channel_class budget window_start c b)

-- The estimate from the bucket with no customer: 0 if it cannot be read.
unfoldable pub global_budget_estimate : String → ℕ → Board → ℕ × Board
unfolding get compute_remaining_budget
global_budget_estimate channel_class window_start b =
    let (fails, rest) = next_fault b.faults in
    (
      if fails
          then 0
          else compute_remaining_budget (get text_eq channel_class b.policies)
              (get same_key (none, channel_class) b.states) window_start,
      record b { faults = rest },
    )

-- The customers of the channel: none if they cannot be read.
unfoldable pub customers_of : String → Board → List (Option String) × Board
unfolding read_distinct_customers_with_queued_rows
customers_of channel_class b =
    let (fails, rest) = next_fault b.faults in
    (
      if fails then [] else read_distinct_customers_with_queued_rows channel_class b.rows,
      record b { faults = rest },
    )

unfoldable pub dispatch_channel : Dispatch → String → Board → Board
unfolding global_budget_estimate customers_of dispatch_customers
dispatch_channel d channel_class b =
    let window_start = current_window_start d.now in
    let (budget, read) = global_budget_estimate channel_class window_start b in
    let (customers, listed) = customers_of channel_class read in
    if budget == 0
    then read
    else dispatch_customers d channel_class budget window_start customers listed

unfoldable pub dispatch_channels : Dispatch → List String → Board → Board
unfolding dispatch_channel
dispatch_channels d [] b = b
dispatch_channels d (c ∷ channels) b = dispatch_channels d channels (dispatch_channel d c b)

abbrev pub is_ready : ConnectorStatus → Bool
is_ready ready = true
is_ready _ = false

-- The ready channels, restricted to the requested one.
abbrev pub is_dispatched : Option String → String × ConnectorStatus → Bool
is_dispatched none (c, status) = is_ready status
is_dispatched (some wanted) (c, status) = is_ready status && text_eq c wanted

abbrev pub channels_to_dispatch : Dispatch → List String
channels_to_dispatch d = map (λ r. r.0) (keep (is_dispatched d.channel_class) d.readiness)

-- The reap, which changes nothing if it fails.
unfoldable pub reaped : Dispatch → Board → Board
unfolding reap_stale_leases
reaped d b =
    let (fails, rest) = next_fault b.faults in
    let rows = if fails then b.rows else reap_stale_leases d.lease_timeout_ms d.now b.rows in
    record b { faults = rest; rows = rows }

-- The job `publish.dispatch`, for a payload that is valid.
unfoldable pub handle_publish_dispatch : Dispatch → Board → Board
unfolding dispatch_channels reaped
handle_publish_dispatch d b = dispatch_channels d (channels_to_dispatch d) (reaped d b)
