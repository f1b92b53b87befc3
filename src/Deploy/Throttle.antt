-- ===== src/Deploy/Throttle.antt =====
-- The per-channel rate limit: src/deploy/throttle.ts. A `Date` is its number of milliseconds since
-- 1970, and the UTC calendar is arithmetic on it; the first week of 1970 begins at its Thursday.
pub mod Windows
pub mod Decision
use aeo_geo_optimization.Common.{
  ℕ, ◌+◌, ◌-◌, ◌*◌, ◌/◌, ◌%◌, String, Bool, true, false, ◌&&◌, Option, none, some, ltb, leb, ◌==◌,
  if◌then◌else◌,
}

pub record ThrottlePolicy : Type 0 where
  pub channel_class : String
  pub max_per_day : ℕ
  pub max_per_week : ℕ
  pub min_interval_minutes : ℕ
  pub enabled : Bool

pub record ThrottleState : Type 0 where
  pub id : String
  pub customer_id : Option String
  pub channel_class : String
  pub window_start : ℕ
  pub count : ℕ
  pub week_count : ℕ
  pub week_start : Option ℕ
  pub last_publish_at : Option ℕ

pub data DenialReason : Type 0 where
  no_policy over_daily_cap over_weekly_cap min_interval : DenialReason

pub data ThrottleDecision : Type 0 where
  allowed : ThrottleDecision
  denied : ℕ → DenialReason → ThrottleDecision

abbrev pub day_ms : ℕ
day_ms = 86_400_000

abbrev pub minute_ms : ℕ
minute_ms = 60_000

-- Midnight UTC of the day.
abbrev pub current_window_start : ℕ → ℕ
current_window_start now = now / day_ms * day_ms

-- `getUTCDay()`: 0 is Sunday, and 1970-01-01 was a Thursday.
abbrev pub utc_day : ℕ → ℕ
utc_day now = (now / day_ms + 4) % 7

-- Midnight UTC of the week's Monday: a Sunday goes back 6 days, any other day `day - 1`.
abbrev pub current_week_start : ℕ → ℕ
current_week_start now =
    let day = utc_day now in
    let days_back = if day == 0 then 6 else day - 1 in current_window_start now - days_back * day_ms

-- The day's count of a state, 0 where its window is over.
abbrev pub today_count : Option ThrottleState → ℕ → ℕ
today_count none window_start = 0
today_count (some s) window_start = if leb window_start s.window_start then s.count else 0

abbrev pub week_count_of : Option ℕ → ℕ → ℕ → ℕ
week_count_of none week_start count = 0
week_count_of (some w) week_start count = if leb week_start w then count else 0

abbrev pub this_week_count : Option ThrottleState → ℕ → ℕ
this_week_count none week_start = 0
this_week_count (some s) week_start = week_count_of s.week_start week_start s.week_count

-- `Math.max(0, a - b)` is the subtraction of ℕ.
unfoldable pub compute_remaining_budget : Option ThrottlePolicy → Option ThrottleState → ℕ → ℕ
compute_remaining_budget none state window_start = 0
compute_remaining_budget (some policy) state window_start =
    if policy.enabled then policy.max_per_day - today_count state window_start else 0

-- The time of the last publication, if there is one.
abbrev pub last_publish : Option ThrottleState → Option ℕ
last_publish none = none
last_publish (some s) = s.last_publish_at

-- The last of the three tests, on the time of the last publication.
abbrev pub interval_decision : ThrottlePolicy → Option ℕ → ℕ → ThrottleDecision
interval_decision policy none now = allowed
interval_decision policy (some last) now =
    let min_interval_ms = policy.min_interval_minutes * 60 * 1000 in
    let next_allowed_at = last + min_interval_ms in
    if ltb 0 policy.min_interval_minutes && ltb now next_allowed_at
    then denied (next_allowed_at - now) min_interval
    else allowed

unfoldable pub can_publish_now : Option ThrottlePolicy → Option ThrottleState → ℕ → ThrottleDecision
can_publish_now none state now = denied 3_600_000 no_policy
can_publish_now (some policy) state now =
    let day_start = current_window_start now in
    let week_start = current_week_start now in
    let over_day = leb policy.max_per_day (today_count state day_start) in
    let over_week = leb policy.max_per_week (this_week_count state week_start) in
    if policy.enabled
    then (if over_day
        then denied (day_start + day_ms - now) over_daily_cap
        else (if over_week
            then denied (week_start + 7 * day_ms - now) over_weekly_cap
            else interval_decision policy (last_publish state) now))
    else denied 3_600_000 no_policy
