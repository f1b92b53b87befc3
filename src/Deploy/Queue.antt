-- ===== src/Deploy/Queue.antt =====
-- The deploy queue and the transaction that claims a batch of it for one customer and channel:
-- src/db/repo.ts. A database query that fails is not modelled.
pub mod Counter
pub mod Effect
pub mod Caps
use aeo_geo_optimization.Common.{
  ℕ, ◌+◌, ◌-◌, ◌*◌, min, String, Bool, true, false, not, ◌&&◌, ◌||◌, Option, none, some, List, [],
  ◌∷◌, map, Ordering, compare, ltb, leb, ◌==◌, text_eq, if◌then◌else◌, take, keep, length, any,
}
use aeo_geo_optimization.Common.Sort.{sort}
use aeo_geo_optimization.Deploy.Rules.{DeployStatus, queued, leased, is_queued}
use aeo_geo_optimization.Deploy.Throttle.{
  ThrottlePolicy, ThrottleState, today_count, this_week_count, current_week_start, last_publish,
}

-- A row of `content_deploy_queue` with the columns of its asset.
pub record QueueRow : Type 0 where
  pub queue_id : String
  pub status : DeployStatus
  pub leased_at : Option ℕ
  pub attempts : ℕ
  pub created_at : ℕ
  pub approved_by : Option String
  pub approved_at : Option ℕ
  pub asset_id : String
  pub content_set_id : String
  pub customer_id : Option String
  pub channel_class : String
  pub language : String
  pub industry : String
  pub phrasing_group_id : String
  pub gate_status : String
  pub disclosure_tag : Option String
  pub body : String

abbrev pub is_some : Option String → Bool
is_some none = false
is_some (some _) = true

-- `customer_id IS NULL`, or equal to the customer's.
abbrev pub same_customer : Option String → Option String → Bool
same_customer none none = true
same_customer (some a) (some b) = text_eq a b
same_customer _ _ = false

-- The `WHERE` of the claim.
abbrev pub is_claimable : String → Option String → QueueRow → Bool
is_claimable channel_class customer_id r =
    is_queued r.status
    && is_some r.approved_by
    && text_eq r.channel_class channel_class
    && text_eq r.gate_status "passed"
    && same_customer customer_id r.customer_id

abbrev pub lease : ℕ → QueueRow → QueueRow
lease now r = record r { status = leased; leased_at = some now; attempts = r.attempts + 1 }

-- `UPDATE ... SET status = 'leased'` for the rows with these ids.
abbrev pub lease_rows : ℕ → List QueueRow → List QueueRow → List QueueRow
lease_rows now chosen rows =
    map
      (λ r. if any (λ (c : QueueRow). text_eq c.queue_id r.queue_id) chosen then lease now r else r)
      rows

-- The weekly counter after `n` more, where `week` is the week that it is counted in.
abbrev week_count_plus : Option ℕ → ℕ → ℕ → ℕ → ℕ
week_count_plus none week count n = n
week_count_plus (some w) week count n = if w == week then count + n else n

-- The upsert of `channel_throttle_state` for `n` claimed rows.
abbrev pub add_claimed : Option ThrottleState → Option String → String → ℕ → ℕ → ℕ → ThrottleState
add_claimed none customer_id channel_class window_start now n = record {
  id = "";
  customer_id = customer_id;
  channel_class = channel_class;
  window_start = window_start;
  count = n;
  week_count = n;
  week_start = some (current_week_start now);
  last_publish_at = some now;
}
add_claimed (some s) customer_id channel_class window_start now n = record s {
  count = if s.window_start == window_start then s.count + n else n;
  week_count = week_count_plus s.week_start (current_week_start now) s.week_count n;
  last_publish_at = some now;
  window_start = window_start;
  week_start = some (current_week_start now);
}

-- `policy.min_interval_minutes > 0` and the last publication is too recent.
abbrev too_soon : ThrottlePolicy → Option ℕ → ℕ → Bool
too_soon policy none now = false
too_soon policy (some last) now =
    let min_interval_ms = policy.min_interval_minutes * 60 * 1000 in
    ltb 0 policy.min_interval_minutes && ltb now (last + min_interval_ms)

-- How many rows the transaction may claim: 0 where a guard returns early.
unfoldable pub claim_limit : ThrottlePolicy → Option ThrottleState → ℕ → ℕ → ℕ → ℕ
claim_limit policy state limit window_start now =
    let today = today_count state window_start in
    let week = this_week_count state (current_week_start now) in
    if leb policy.max_per_day today
      || leb policy.max_per_week week
      || too_soon policy (last_publish state) now
    then 0
    else min limit (min (policy.max_per_day - today) (policy.max_per_week - week))

pub record ClaimRequest : Type 0 where
  pub limit : ℕ
  pub window_start : ℕ
  pub now : ℕ
  pub dry_run : Bool

pub record Claim : Type 0 where
  pub claimed : List QueueRow
  pub rows : List QueueRow
  pub state : Option ThrottleState

-- The claim under an enabled policy.
unfoldable pub claim_under :
    ThrottlePolicy
    → String
    → Option String
    → ClaimRequest
    → List QueueRow
    → Option ThrottleState
    → Claim
unfolding claim_limit
claim_under policy channel_class customer_id req rows state =
    let quota = claim_limit policy state req.limit req.window_start req.now in
    let by_age = λ (a : QueueRow) (b : QueueRow). compare a.created_at b.created_at in
    let chosen = take quota (sort by_age (keep (is_claimable channel_class customer_id) rows)) in
    let counted =
      if req.dry_run || length chosen == 0
      then state
      else some
          (add_claimed state customer_id channel_class req.window_start req.now (length chosen)) in
    record {
      claimed = map (lease req.now) chosen;
      rows = lease_rows req.now chosen rows;
      state = counted;
    }

-- A missing or disabled policy claims nothing.
unfoldable pub claim_next_deploy_batch_for_customer :
    Option ThrottlePolicy
    → String
    → Option String
    → ClaimRequest
    → List QueueRow
    → Option ThrottleState
    → Claim
unfolding claim_under
claim_next_deploy_batch_for_customer none channel_class customer_id req rows state = record {
  claimed = [];
  rows = rows;
  state = state;
}
claim_next_deploy_batch_for_customer (some policy) channel_class customer_id req rows state =
    if policy.enabled
    then claim_under policy channel_class customer_id req rows state
    else record { claimed = []; rows = rows; state = state }
