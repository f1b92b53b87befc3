-- ===== src/Deploy/Throttle/Windows.antt =====
-- The day and the week of a moment.
use aeo_geo_optimization.Common.{ℕ, ◌+◌, ◌-◌, ◌*◌, ◌/◌, ◌%◌, ◌≤◌, ◌<◌, ◌≡◌, arith}
use aeo_geo_optimization.Deploy.Throttle.{day_ms, current_window_start, utc_day, current_week_start}

-- A moment lies in its day, which begins at a whole day.
pub window_bounds :
    (now : ℕ)
    → (current_window_start now ≤ now)
      × (now < current_window_start now + day_ms)
      × (current_window_start now % day_ms ≡ 0)
window_bounds now = omega arith

-- The start of a week, by the number of days since the Monday.
week_start_lem :
    (now : ℕ) → current_week_start now ≡ now / day_ms * day_ms - (now / day_ms + 3) % 7 * day_ms
week_start_lem now = ground arith

-- From 1970-01-05 on, a moment lies in its week of 7 days, which begins at midnight of a Monday.
pub week_bounds :
    (now : ℕ)
    → 4 * day_ms ≤ now
    → (current_week_start now ≤ now)
      × (now < current_week_start now + 7 * day_ms)
      × (utc_day (current_week_start now) ≡ 1)
      × (current_week_start now % day_ms ≡ 0)
week_bounds now h = rw (week_start_lem now) (omega arith)

-- A later moment has no earlier week.
pub week_start_mono : (a b : ℕ) → a ≤ b → current_week_start a ≤ current_week_start b
week_start_mono a b h = rw (week_start_lem a, week_start_lem b) (omega arith)

-- The start of the next week is the start of its own week.
pub week_start_next :
    (now : ℕ)
    → 4 * day_ms ≤ now
    → current_week_start (current_week_start now + 7 * day_ms) ≡ current_week_start now + 7 * day_ms
week_start_next now h =
    rw (week_start_lem (current_week_start now + 7 * day_ms))
      (rw (week_start_lem now) (omega arith))
