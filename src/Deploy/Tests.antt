-- ===== src/Deploy/Tests.antt =====
-- Runs of src/deploy and of the queue on small inputs, and their theorems at them.
use aeo_geo_optimization.Common.{
  text_eq, ℕ, ◌≤◌, ◌≡◌, ◌≢◌, refl, true, false, [], ◌∷◌, none, arith, some, inr,
}
use aeo_geo_optimization.Common.Sort.{sort}
use aeo_geo_optimization.Common.Text.{is_blank}
use aeo_geo_optimization.Deploy.Throttle.{
  ThrottlePolicy, ThrottleState, allowed, denied, over_daily_cap, no_policy, can_publish_now,
}
use aeo_geo_optimization.Deploy.Throttle.Decision.{IsPast}
use aeo_geo_optimization.Deploy.Rules.{DeployStatus, assert_disclosure, requires_disclosure}
use aeo_geo_optimization.Deploy.Queue.{QueueRow, ClaimRequest, claim_next_deploy_batch_for_customer}
use aeo_geo_optimization.Deploy.Queue.Counter.{total_in}
use aeo_geo_optimization.Deploy.Queue.Effect.{History, events}
use aeo_geo_optimization.Deploy.Queue.Caps.{daily_cap_holds}
use aeo_geo_optimization.Deploy.Publish.Store.{World}
use aeo_geo_optimization.Deploy.Publish.Unit.{
  Payload, Deps, Reply, returned, threw, ok, throttled, publish_unit, is_blocklisted, find_row,
}
use aeo_geo_optimization.Deploy.Publish.Unit.Slots.{OneLive, publish_unit-OneLive}
use aeo_geo_optimization.Deploy.Publish.Unit.Calls.{MayPublish, CallsOnce, publish_unit-CallsOnce}
use aeo_geo_optimization.Deploy.Publish.Unit.Outcomes.{
  quiet, IsPublished, publish_unit-IsPublished, slot_after, publish_unit-releases,
  throttled_never_retried,
}

-- 2024-01-10T12:00Z, a Wednesday.
abbrev noon : ℕ
noon = 1_704_888_000_000

abbrev policy : ThrottlePolicy
policy = record {
  channel_class = "web2";
  max_per_day = 2;
  max_per_week = 5;
  min_interval_minutes = 60;
  enabled = true;
}

abbrev fresh_state : ThrottleState
fresh_state = record {
  id = "t";
  customer_id = some "c";
  channel_class = "web2";
  window_start = 1_704_844_800_000;
  count = 1;
  week_count = 1;
  week_start = some 1_704_672_000_000;
  last_publish_at = some 1_704_880_800_000;
}

abbrev full_state : ThrottleState
full_state = record fresh_state { count = 2; week_count = 2 }

fresh_allowed : can_publish_now (some policy) (some fresh_state) noon ≡ allowed
unfolding can_publish_now
fresh_allowed = refl

full_denied :
    can_publish_now (some policy) (some full_state) noon ≡ denied 43_200_000 over_daily_cap
unfolding can_publish_now
full_denied = refl

full_known : over_daily_cap ≢ no_policy
full_known e = ground (arith, e)

full_IsPast : IsPast full_state noon
full_IsPast = record { day_begun = omega arith; week_begun = λ w e. ground (arith, e) }

abbrev row : QueueRow
row = record {
  queue_id = "q1";
  status = DeployStatus.queued;
  leased_at = none;
  attempts = 0;
  created_at = 7;
  approved_by = some "ann";
  approved_at = some 8;
  asset_id = "a1";
  content_set_id = "s1";
  customer_id = some "c";
  channel_class = "web2";
  language = "en";
  industry = "apps";
  phrasing_group_id = "g";
  gate_status = "passed";
  disclosure_tag = some "#ad";
  body = "text";
}

abbrev request : ClaimRequest
request = record {
  limit = 9;
  window_start = 1_704_844_800_000;
  now = 1_704_888_000_000;
  dry_run = false;
}

-- Three rows wait; two are claimed, and an hour later none.
abbrev history : History
history =
    (request, row ∷ record row { queue_id = "q2" } ∷ record row { queue_id = "q3" } ∷ [])
    ∷ (record request { now = 1_704_892_000_000 }, record row { queue_id = "q3" } ∷ [])
    ∷ []

history-events :
    events (some policy) "web2" (some "c") (λ req. req.window_start) history none
    ≡ (1_704_844_800_000, 2) ∷ (1_704_844_800_000, 0) ∷ []
unfolding claim_next_deploy_batch_for_customer sort text_eq
history-events = refl

daily_cap_holds_example :
    total_in 1_704_844_800_000
      (events (some policy) "web2" (some "c") (λ req. req.window_start) history none)
    ≤ 2
daily_cap_holds_example =
    daily_cap_holds (some policy) "web2" (some "c") history 1_704_844_800_000
      (omega arith, (omega arith, tt))

abbrev payload : Payload
payload = record { queue_id = "q1"; asset_id = "a1"; channel_class = "web2"; dry_run = false }

abbrev leased_row : QueueRow
leased_row = record row { status = DeployStatus.leased; leased_at = some 9; attempts = 1 }

abbrev world : World
world = record {
  rows = leased_row ∷ [];
  registry = [];
  next_id = 4;
  calls = [];
  verify_jobs = [];
  faults = [];
  clock = 11;
}

abbrev replying : Reply → Deps
replying reply = record {
  publish = λ channel_class req. reply;
  host_of = λ url. none;
  blocklist = [];
}

may : MayPublish payload world leased_row
unfolding find_row text_eq assert_disclosure requires_disclosure is_blank
may = record {
  loaded = refl;
  passed = refl;
  approved = refl;
  leased = refl;
  disclosed = refl;
  free = inr refl;
}

publish_unit-OneLive_example : OneLive (publish_unit (replying threw) payload world).1.registry
publish_unit-OneLive_example =
    publish_unit-OneLive (replying threw) payload world (λ a c. omega arith)

publish_unit-CallsOnce_example :
    CallsOnce payload world (publish_unit (replying threw) payload world).1
publish_unit-CallsOnce_example = publish_unit-CallsOnce (replying threw) payload world

publish_unit-IsPublished_example :
    IsPublished payload leased_row "https://x.example/1" none world
      (publish_unit (replying (returned (ok "https://x.example/1" none))) payload (quiet world))
    × ((publish_unit
          (replying threw)
          payload
          (record ((publish_unit
            (replying (returned (ok "https://x.example/1" none)))
            payload
            (quiet world)).1) { faults = false ∷ true ∷ [] })).1.calls
        ≡ (publish_unit
            (replying (returned (ok "https://x.example/1" none)))
            payload
            (quiet world)).1.calls)
unfolding is_blocklisted
publish_unit-IsPublished_example =
    publish_unit-IsPublished (replying (returned (ok "https://x.example/1" none))) (replying threw)
      payload payload leased_row world "https://x.example/1" none (false ∷ true ∷ []) may refl tt
      refl refl refl refl refl

publish_unit-releases_example : slot_after (replying threw) payload world ≡ false
publish_unit-releases_example =
    publish_unit-releases (replying threw) payload leased_row world may refl tt refl

throttled_never_retried_example :
    (publish_unit
      (replying (returned (throttled 5)))
      (record payload { queue_id = "q2" })
      (publish_unit (replying (returned (throttled 5))) payload (quiet world)).1).1.calls
    ≡ (publish_unit (replying (returned (throttled 5))) payload (quiet world)).1.calls
throttled_never_retried_example =
    throttled_never_retried (replying (returned (throttled 5))) payload
      (record payload { queue_id = "q2" }) leased_row world 5 may refl refl refl refl refl
