-- ===== src/Deploy/Dispatch/Tests.antt =====
-- A dispatch of two rows, of which one is approved, and the theorem on its jobs.
use aeo_geo_optimization.Common.{◌≡◌, refl, none, some, [], ◌∷◌, map, true, false, All, text_eq}
use aeo_geo_optimization.Common.Sort.{sort}
use aeo_geo_optimization.Common.OrderedMap.{get, set}
use aeo_geo_optimization.Deploy.Throttle.{ThrottlePolicy, compute_remaining_budget}
use aeo_geo_optimization.Deploy.Rules.{DeployStatus}
use aeo_geo_optimization.Deploy.Queue.{QueueRow, claim_next_deploy_batch_for_customer}
use aeo_geo_optimization.Deploy.Dispatch.{
  Board, Dispatch, Job, ready, stub, handle_publish_dispatch, reaped, reap_stale_leases,
  dispatch_channels, dispatch_channel, dispatch_customers, dispatch_customer, enqueue_units,
  global_budget_estimate, customers_of, read_distinct_customers_with_queued_rows, claim_of,
  after_claim,
}
use aeo_geo_optimization.Deploy.Dispatch.Closed.{Untouched, disabled, dispatch_channel-Untouched}
use aeo_geo_optimization.Deploy.Dispatch.Jobs.{
  OldOrPublishes, IsReady, handle_publish_dispatch-OldOrPublishes,
}

abbrev approved_row : QueueRow
approved_row = record {
  queue_id = "q1";
  status = DeployStatus.queued;
  leased_at = none;
  attempts = 0;
  created_at = 7;
  approved_by = some "ann";
  approved_at = some 8;
  asset_id = "a1";
  content_set_id = "s1";
  customer_id = some "c";
  channel_class = "web2";
  language = "en";
  industry = "apps";
  phrasing_group_id = "g";
  gate_status = "passed";
  disclosure_tag = some "#ad";
  body = "text";
}

abbrev waiting_row : QueueRow
waiting_row = record approved_row { queue_id = "q2"; asset_id = "a2"; approved_by = none }

-- Leased long ago, so that the dispatch takes it back.
abbrev stale_row : QueueRow
stale_row = record approved_row {
  queue_id = "q3";
  asset_id = "a3";
  status = DeployStatus.leased;
  leased_at = some 1;
}

abbrev policy : ThrottlePolicy
policy = record {
  channel_class = "web2";
  max_per_day = 5;
  max_per_week = 9;
  min_interval_minutes = 0;
  enabled = true;
}

abbrev board : Board
board = record {
  rows = approved_row ∷ waiting_row ∷ stale_row ∷ [];
  policies = ("web2", policy) ∷ [];
  states = [];
  jobs = [];
  faults = [];
  times = [];
}

abbrev dispatch : Dispatch
dispatch = record {
  channel_class = none;
  dry_run = false;
  readiness = ("pr_wire", stub) ∷ ("web2", ready) ∷ [];
  accepts = λ jobs job. true;
  now = 1_704_888_000_000;
  lease_timeout_ms = 600_000;
}

dispatch-jobs :
    map (λ (j : Job). j.singleton_key) (handle_publish_dispatch dispatch board).jobs
    ≡ "publish:a3:web2" ∷ "publish:a1:web2" ∷ []
unfolding handle_publish_dispatch reaped reap_stale_leases dispatch_channels dispatch_channel
    dispatch_customers dispatch_customer enqueue_units global_budget_estimate customers_of
    read_distinct_customers_with_queued_rows claim_of after_claim
    claim_next_deploy_batch_for_customer compute_remaining_budget get set sort text_eq
dispatch-jobs = refl

handle_publish_dispatch-OldOrPublishes_example :
    All
      (OldOrPublishes dispatch (reaped dispatch board).rows (IsReady dispatch) [])
      (handle_publish_dispatch dispatch board).jobs
handle_publish_dispatch-OldOrPublishes_example =
    handle_publish_dispatch-OldOrPublishes dispatch board

abbrev closed_board : Board
closed_board = record board { policies = ("web2", record policy { enabled = false }) ∷ [] }

closed_policy : get text_eq "web2" closed_board.policies ≡ some (record policy { enabled = false })
unfolding get text_eq
closed_policy = refl

dispatch_channel-Untouched_example :
    Untouched closed_board (dispatch_channel dispatch "web2" closed_board)
dispatch_channel-Untouched_example =
    dispatch_channel-Untouched dispatch "web2" closed_board
      (disabled (record policy { enabled = false }) closed_policy refl)
