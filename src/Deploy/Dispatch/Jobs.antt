-- ===== src/Deploy/Dispatch/Jobs.antt =====
-- What the dispatch of src/deploy/dispatch.ts enqueues.
use mathlib.Core.List.{Memᴰ}
use aeo_geo_optimization.Common.{
  ℕ, ◌≡◌, ap, String, true, false, Option, none, some, List, [], ◌∷◌, keep, ◌==◌, text_eq,
  if◌then◌else◌, Bool-cases, inl, inr, ◌⊎◌, arith, All, All-map, All-weaken, All-keep,
  All-keep_test, All-both, All-self,
}
use aeo_geo_optimization.Common.OrderedMap.{get}
use aeo_geo_optimization.Deploy.Throttle.{current_window_start}
use aeo_geo_optimization.Deploy.Queue.{QueueRow, Claim, is_claimable}
use aeo_geo_optimization.Deploy.Publish.Store.{next_fault}
use aeo_geo_optimization.Deploy.Dispatch.{
  Job, ConnectorStatus, ready, Board, Dispatch, job_of, enqueue_units, after_claim, claim_of, asked,
  next_time, same_key, dispatch_customer, dispatch_customers, global_budget_estimate, customers_of,
  dispatch_channel, dispatch_channels, is_dispatched, channels_to_dispatch, reaped,
  handle_publish_dispatch,
}
use aeo_geo_optimization.Deploy.Dispatch.Claims.{QueuedIn, Leased, TakesWaiting, claim-TakesWaiting}

-- The job publishes a row that waited in `before` for a channel of which `Ready` holds.
pub record Publishes (d : Dispatch) (before : List QueueRow) (Ready : String → Type 0) (j : Job)
    : Type 0 where
  pub row : QueueRow
  pub channel_class : String
  pub customer_id : Option String
  pub waited : Memᴰ row before
  pub claimable : is_claimable channel_class customer_id row ≡ true
  pub on_list : Ready channel_class
  pub made : j ≡ job_of d.dry_run channel_class row

module _ (d : Dispatch) (before : List QueueRow) (Ready : String → Type 0) (old : List Job) where
  -- An old job or one that publishes a row that waited.
  abbrev pub OldOrPublishes : Job → Type 0
  OldOrPublishes j = Memᴰ j old ⊎ Publishes d before Ready j

  record Sound (b : Board) : Type 0 where
    rows : QueuedIn before b.rows
    jobs : All OldOrPublishes b.jobs

  enqueue_units-Sound :
      (channel_class : String) (customer_id : Option String) (claimed : List QueueRow) (b : Board)
      → Ready channel_class
      → All (Leased channel_class customer_id before) claimed
      → Sound b
      → Sound (enqueue_units d channel_class claimed b)
  unfolding enqueue_units
  enqueue_units-Sound c customer_id [] b on_list leased s = s
  enqueue_units-Sound c customer_id (x ∷ claimed) b on_list ((r, now, m, claimable, e), leased) s =
      let made : job_of d.dry_run c x ≡ job_of d.dry_run c r = ap (job_of d.dry_run c) e in
      let publishes : Publishes d before Ready (job_of d.dry_run c x) = record {
        row = r;
        channel_class = c;
        customer_id = customer_id;
        waited = m;
        claimable = claimable;
        on_list = on_list;
        made = made;
      } in
      let jobs : List Job =
        if d.accepts b.jobs (job_of d.dry_run c x) then job_of d.dry_run c x ∷ b.jobs else b.jobs in
      let sound_jobs : All OldOrPublishes jobs =
        elim (d.accepts b.jobs (job_of d.dry_run c x))
          as (λ t. All OldOrPublishes (if t then job_of d.dry_run c x ∷ b.jobs else b.jobs)) [
            | true ↦ (inr publishes, s.jobs)
            | false ↦ s.jobs
          ] in
      elim (Bool-cases (next_fault b.faults).0) [
        | inl fails ↦ rw fails record { rows = s.rows; jobs = s.jobs }
        | inr works ↦ rw works (
            enqueue_units-Sound c customer_id claimed
              (record b { faults = (next_fault b.faults).1; jobs = jobs }) on_list leased
              (record { rows = s.rows; jobs = sound_jobs }))
      ]

  claim_of-TakesWaiting :
      (c : String) (budget window : ℕ) (customer_id : Option String) (b : Board)
      → Sound b
      → TakesWaiting c customer_id before (claim_of d c budget window customer_id b)
  unfolding claim_of
  claim_of-TakesWaiting c budget window customer_id b s =
      claim-TakesWaiting c customer_id
        (record {
          limit = budget;
          window_start = window;
          now = (next_time d.now b.times).0;
          dry_run = d.dry_run;
        })
        before b.rows s.rows (get text_eq c b.policies) (get same_key (customer_id, c) b.states)

  dispatch_customer-Sound :
      (c : String) (budget window : ℕ) (customer_id : Option String) (b : Board)
      → Ready c
      → Sound b
      → Sound (dispatch_customer d c budget window customer_id b)
  unfolding dispatch_customer after_claim
  dispatch_customer-Sound c budget window customer_id b on_list s =
      let claim : Claim = claim_of d c budget window customer_id b in
      let made : TakesWaiting c customer_id before claim =
        claim_of-TakesWaiting c budget window customer_id b s in
      elim (next_fault b.faults).0
        as (λ t. Sound (
          if t
          then asked d b
          else enqueue_units d c claim.claimed (after_claim (customer_id, c) claim (asked d b)))) [
            | true ↦ record { rows = s.rows; jobs = s.jobs }
            | false ↦
                enqueue_units-Sound c customer_id claim.claimed
                  (after_claim (customer_id, c) claim (asked d b)) on_list made.claimed
                  (record { rows = made.rows; jobs = s.jobs })
          ]

  dispatch_customers-Sound :
      (c : String) (budget window : ℕ) (customers : List (Option String)) (b : Board)
      → Ready c
      → Sound b
      → Sound (dispatch_customers d c budget window customers b)
  unfolding dispatch_customers
  dispatch_customers-Sound c budget window [] b on_list s = s
  dispatch_customers-Sound c budget window (x ∷ customers) b on_list s =
      dispatch_customers-Sound c budget window customers _ on_list
        (dispatch_customer-Sound c budget window x b on_list s)

  dispatch_channel-Sound :
      (c : String) (b : Board) → Ready c → Sound b → Sound (dispatch_channel d c b)
  unfolding dispatch_channel global_budget_estimate customers_of
  dispatch_channel-Sound c b on_list s =
      let window = current_window_start d.now in
      let read = global_budget_estimate c window b in
      let listed = customers_of c read.1 in
      elim (read.0 == 0)
        as (λ t.
          Sound (if t then read.1 else dispatch_customers d c read.0 window listed.0 listed.1)) [
            | true ↦ record { rows = s.rows; jobs = s.jobs }
            | false ↦
                dispatch_customers-Sound c read.0 window listed.0 listed.1 on_list
                  (record { rows = s.rows; jobs = s.jobs })
          ]

  dispatch_channels-Sound :
      (channels : List String) (b : Board)
      → All Ready channels
      → Sound b
      → Sound (dispatch_channels d channels b)
  unfolding dispatch_channels
  dispatch_channels-Sound [] b on_list s = s
  dispatch_channels-Sound (c ∷ channels) b (first, on_list) s =
      dispatch_channels-Sound channels _ on_list (dispatch_channel-Sound c b first s)

-- The registry lists the channel as ready.
abbrev pub IsReady : Dispatch → String → Type 0
IsReady d c = Memᴰ (c, ready) d.readiness

is_dispatched-ready :
    (wanted : Option String) (c : String) (status : ConnectorStatus)
    → is_dispatched wanted (c, status) ≡ true
    → status ≡ ready
is_dispatched-ready none c status h = ground (arith, h)
is_dispatched-ready (some w) c status h = ground (arith, h)

channels_to_dispatch-IsReady : (d : Dispatch) → All (IsReady d) (channels_to_dispatch d)
channels_to_dispatch-IsReady d =
    let kept = keep (is_dispatched d.channel_class) d.readiness in
    All-map (IsReady d) (λ r. r.0) kept
      (All-weaken _ _ kept
        (λ (c, status) (there, on_list).
          let is : status ≡ ready = is_dispatched-ready d.channel_class c status on_list in
          rw is at there)
        (All-both _ _ kept (All-keep _ _ d.readiness (All-self d.readiness))
          (All-keep_test (is_dispatched d.channel_class) d.readiness)))

-- Every job after a dispatch was there before it, or publishes, in the dispatch's mode, a row that
-- waited in the queue once the stale leases were reaped: it was queued, had an approver and the
-- gate's pass, and its channel is one that the registry lists as ready. This holds whichever queries
-- fail.
pub handle_publish_dispatch-OldOrPublishes :
    (d : Dispatch) (b : Board)
    → All (OldOrPublishes d (reaped d b).rows (IsReady d) b.jobs) (handle_publish_dispatch d b).jobs
unfolding handle_publish_dispatch reaped
handle_publish_dispatch-OldOrPublishes d b =
    let sound =
      dispatch_channels-Sound d (reaped d b).rows (IsReady d) b.jobs (channels_to_dispatch d)
        (reaped d b) (channels_to_dispatch-IsReady d)
        (record {
          rows = All-weaken _ _ (reaped d b).rows (λ r m waits. m) (All-self (reaped d b).rows);
          jobs = All-weaken _ _ b.jobs (λ j m. inl m) (All-self b.jobs);
        }) in
    sound.jobs
