-- ===== src/Deploy/Dispatch/Closed.antt =====
-- When the dispatch of src/deploy/dispatch.ts leaves a channel alone.
use aeo_geo_optimization.Common.{
  ℕ, ◌≡◌, refl, String, false, Option, none, some, ◌==◌, text_eq, if◌then◌else◌, Bool-cases, inl,
  inr,
}
use aeo_geo_optimization.Common.OrderedMap.{get}
use aeo_geo_optimization.Deploy.Throttle.{
  ThrottlePolicy, ThrottleState, compute_remaining_budget, current_window_start,
}
use aeo_geo_optimization.Deploy.Publish.Store.{next_fault}
use aeo_geo_optimization.Deploy.Dispatch.{
  Board, Dispatch, same_key, global_budget_estimate, customers_of, dispatch_customers,
  dispatch_channel,
}

-- The channel has no policy, its policy is disabled, or the counter of the customers' common bucket
-- has used up the day.
pub data Closed (policy : Option ThrottlePolicy) (state : Option ThrottleState) (window_start : ℕ)
    : Type 0 where
  no_policy : policy ≡ none → Closed policy state window_start
  disabled :
      (p : ThrottlePolicy) → policy ≡ some p → p.enabled ≡ false → Closed policy state window_start
  used_up :
      compute_remaining_budget policy state window_start ≡ 0 → Closed policy state window_start

Closed-budget :
    (policy : Option ThrottlePolicy) (state : Option ThrottleState) (window_start : ℕ)
    → Closed policy state window_start
    → compute_remaining_budget policy state window_start ≡ 0
unfolding compute_remaining_budget
Closed-budget policy state w (no_policy e) = rw e refl
Closed-budget policy state w (disabled p e off) = rw (e, off) refl
Closed-budget policy state w (used_up e) = e

-- What the dispatch of a channel leaves as it was.
pub record Untouched (b later : Board) : Type 0 where
  pub rows : later.rows ≡ b.rows
  pub states : later.states ≡ b.states
  pub jobs : later.jobs ≡ b.jobs

estimate-Closed :
    (c : String) (w : ℕ) (b : Board)
    → Closed (get text_eq c b.policies) (get same_key (none, c) b.states) w
    → (global_budget_estimate c w b).0 ≡ 0
unfolding global_budget_estimate
estimate-Closed c w b closed = elim (Bool-cases (next_fault b.faults).0) [
  | inl fails ↦ rw fails refl
  | inr works ↦ rw works (Closed-budget _ _ w closed)
]

none_left :
    (n : ℕ) (b read other : Board)
    → n ≡ 0
    → Untouched b read
    → Untouched b (if n == 0 then read else other)
none_left n b read other e h = rw e h

-- The dispatch fails closed: a channel without a policy, with a disabled one, or whose counter for
-- assets without a customer has used up the day's cap, has no row claimed, no counter changed and no
-- job enqueued, for any customer and whichever queries fail.
pub dispatch_channel-Untouched :
    (d : Dispatch) (c : String) (b : Board)
    → Closed
        (get text_eq c b.policies)
        (get same_key (none, c) b.states)
        (current_window_start d.now)
    → Untouched b (dispatch_channel d c b)
unfolding dispatch_channel global_budget_estimate
dispatch_channel-Untouched d c b closed =
    let window_start = current_window_start d.now in
    let read = global_budget_estimate c window_start b in
    let listed = customers_of c read.1 in
    none_left read.0 b read.1 (dispatch_customers d c read.0 window_start listed.0 listed.1)
      (estimate-Closed c window_start b closed) (record { rows = refl; states = refl; jobs = refl })
