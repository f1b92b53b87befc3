-- ===== src/Deploy/Throttle/Decision.antt =====
-- When a publication is allowed, and what waiting achieves.
use aeo_geo_optimization.Common.{
  ℕ, ◌+◌, ◌-◌, ◌*◌, ◌≤◌, ◌<◌, ◌≡◌, ◌≢◌, ◌↔◌, ◌⊎◌, inr, refl, Bool, true, Option, none, some, arith,
  leb, if◌then◌else◌,
}
use aeo_geo_optimization.Deploy.Throttle.{
  ThrottlePolicy, ThrottleState, DenialReason, no_policy, over_daily_cap, over_weekly_cap,
  min_interval, ThrottleDecision, allowed, denied, day_ms, minute_ms, current_window_start,
  current_week_start, today_count, this_week_count, last_publish, interval_decision,
  compute_remaining_budget, can_publish_now, week_count_of,
}
use aeo_geo_optimization.Deploy.Throttle.Windows.{week_bounds, week_start_next}

-- Enough minutes lie between the last publication and now.
abbrev IntervalOver : ThrottlePolicy → Option ℕ → ℕ → Type 0
IntervalOver policy none now = Unit
IntervalOver policy (some last) now = last + policy.min_interval_minutes * minute_ms ≤ now

-- What the policy asks of the counters for one more publication now. (A policy with no minimal
-- interval asks nothing of the time.)
pub record Permits (policy : ThrottlePolicy) (state : Option ThrottleState) (now : ℕ) : Type 0 where
  pub on : policy.enabled ≡ true
  pub below_day : today_count state (current_window_start now) < policy.max_per_day
  pub below_week : this_week_count state (current_week_start now) < policy.max_per_week
  pub interval : (policy.min_interval_minutes ≡ 0) ⊎ IntervalOver policy (last_publish state) now

interval_iff :
    (policy : ThrottlePolicy) (last : Option ℕ) (now : ℕ)
    → (interval_decision policy last now ≡ allowed)
      ↔ ((policy.min_interval_minutes ≡ 0) ⊎ IntervalOver policy last now)
interval_iff policy none now = (λ _. inr tt, λ _. refl)
interval_iff policy (some last) now = (λ h. ground arith, λ h. ground arith)

-- The decision, with the counters and the last test taken as they come.
ladder :
    (on : Bool) (cap_day day cap_week week a b : ℕ) (rest : ThrottleDecision)
    → ((if on
          then (if leb cap_day day
              then denied a over_daily_cap
              else (if leb cap_week week then denied b over_weekly_cap else rest))
          else denied 3_600_000 no_policy)
        ≡ allowed)
      ↔ ((on ≡ true) × (day < cap_day) × (week < cap_week) × (rest ≡ allowed))
ladder on cap_day day cap_week week a b rest = ground arith

-- A publication is allowed exactly if the policy is enabled, the counts of the day and of the week
-- are below their caps, and the minimal interval since the last publication, if any, is over.
pub allowed_iff :
    (policy : ThrottlePolicy) (state : Option ThrottleState) (now : ℕ)
    → (can_publish_now (some policy) state now ≡ allowed) ↔ Permits policy state now
unfolding can_publish_now
allowed_iff policy state now =
    let (to, from) =
      ladder policy.enabled policy.max_per_day (today_count state (current_window_start now))
        policy.max_per_week (this_week_count state (current_week_start now))
        (current_window_start now + day_ms - now) (current_week_start now + 7 * day_ms - now)
        (interval_decision policy (last_publish state) now) in
    let (open_interval, closed_interval) = interval_iff policy (last_publish state) now in
    (
      λ h.
          let (on, day, week, rest) = to h in
          record { on = on; below_day = day; below_week = week; interval = open_interval rest },
      λ p. from (p.on, p.below_day, p.below_week, closed_interval p.interval),
    )

-- The budget that is left for the day is positive wherever a publication is allowed.
pub allowed_has_budget :
    (policy : Option ThrottlePolicy) (state : Option ThrottleState) (now : ℕ)
    → can_publish_now policy state now ≡ allowed
    → 0 < compute_remaining_budget policy state (current_window_start now)
unfolding can_publish_now compute_remaining_budget
allowed_has_budget none state now h = ground arith
allowed_has_budget (some policy) state now h = ground arith

-- The counters of a state stand for windows that have begun.
pub record IsPast (s : ThrottleState) (now : ℕ) : Type 0 where
  pub day_begun : s.window_start ≤ current_window_start now
  pub week_begun : (w : ℕ) → s.week_start ≡ some w → w ≤ current_week_start now

week_count_of-fresh :
    (w : Option ℕ) (start n cap : ℕ)
    → ((v : ℕ) → w ≡ some v → v < start)
    → 0 < cap
    → week_count_of w start n < cap
week_count_of-fresh none start n cap h c = c
week_count_of-fresh (some v) start n cap h c = ground (arith, h v refl)

-- Why a decision denies, and for how long.
abbrev Denies : ThrottlePolicy → Option ThrottleState → ℕ → ℕ → DenialReason → Type 0
Denies policy state now wait no_policy = Unit
Denies policy state now wait over_daily_cap =
    (policy.max_per_day ≤ today_count state (current_window_start now))
    × (wait ≡ current_window_start now + day_ms - now)
Denies policy state now wait over_weekly_cap =
    (policy.max_per_week ≤ this_week_count state (current_week_start now))
    × (wait ≡ current_week_start now + 7 * day_ms - now)
Denies policy state now wait min_interval =
    (last : ℕ) × (last_publish state ≡ some last)
    × (now < last + policy.min_interval_minutes * minute_ms)
    × (wait ≡ last + policy.min_interval_minutes * minute_ms - now)

interval_denies :
    (policy : ThrottlePolicy) (last : Option ℕ) (now wait : ℕ) (reason : DenialReason)
    → interval_decision policy last now ≡ denied wait reason
    → (reason ≡ min_interval)
      × ((l : ℕ) × (last ≡ some l)
          × (now < l + policy.min_interval_minutes * minute_ms)
          × (wait ≡ l + policy.min_interval_minutes * minute_ms - now))
interval_denies policy none now wait reason h = cc
interval_denies policy (some last) now wait reason h =
    (ground arith, (last, refl, ground arith, ground arith))

denied-Denies :
    (policy : ThrottlePolicy) (state : Option ThrottleState) (now wait : ℕ) (reason : DenialReason)
    → can_publish_now (some policy) state now ≡ denied wait reason
    → Denies policy state now wait reason
unfolding can_publish_now
denied-Denies policy state now wait no_policy h = tt
denied-Denies policy state now wait over_daily_cap h =
    ground (arith, interval_denies policy (last_publish state) now wait over_daily_cap)
denied-Denies policy state now wait over_weekly_cap h =
    ground (arith, interval_denies policy (last_publish state) now wait over_weekly_cap)
denied-Denies policy state now wait min_interval h =
    (interval_denies policy (last_publish state) now wait min_interval (ground arith)).1

module _ (policy : ThrottlePolicy) (s : ThrottleState) (now wait t : ℕ) (past : IsPast s now)
    (late : 4 * day_ms ≤ now) where
  cleared :
      (reason : DenialReason)
      → reason ≢ no_policy
      → 0 < policy.max_per_day
      → 0 < policy.max_per_week
      → Denies policy (some s) now wait reason
      → Denies policy (some s) (now + wait) t reason
      → ⊥
  cleared no_policy known day week before after = known refl
  cleared over_daily_cap known day week (_, e) (full, _) =
      let began : s.window_start < current_window_start (now + wait) =
        omega (arith, past.day_begun) in
      ground arith
  cleared over_weekly_cap known day week (_, e) (full, _) =
      let reached : now + wait ≡ current_week_start now + 7 * day_ms =
        omega (arith, (week_bounds now late).1) in
      let next : current_week_start (now + wait) ≡ current_week_start now + 7 * day_ms =
        rw reached (week_start_next now late) in
      let fresh =
        week_count_of-fresh s.week_start (current_week_start (now + wait)) s.week_count
          policy.max_per_week (λ v e. omega (arith, past.week_begun v e)) week in
      omega arith
  cleared min_interval known day week (last, here, _, e) (last', here', early, _) =
      let same : last ≡ last' = ground arith in omega arith

-- Waiting for the time that a denial names removes its reason: at that moment the same counters no
-- longer deny a publication for it. This is for a denial under a policy whose caps are positive
-- (one without a policy names no such time), at a moment from 1970-01-05 on, for counters whose
-- windows have begun.
pub wait_clears :
    (policy : ThrottlePolicy) (s : ThrottleState) (now wait t : ℕ) (reason : DenialReason)
    → can_publish_now (some policy) (some s) now ≡ denied wait reason
    → reason ≢ no_policy
    → 0 < policy.max_per_day
    → 0 < policy.max_per_week
    → IsPast s now
    → 4 * day_ms ≤ now
    → can_publish_now (some policy) (some s) (now + wait) ≢ denied t reason
wait_clears policy s now wait t reason h known day week past late again =
    cleared policy s now wait t past late reason known day week
      (denied-Denies policy (some s) now wait reason h)
      (denied-Denies policy (some s) (now + wait) t reason again)
