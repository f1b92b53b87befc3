-- ===== src/Deploy/Queue/Caps.antt =====
-- The claims of a customer and channel keep its daily and weekly caps: src/db/repo.ts.
use aeo_geo_optimization.Common.{ℕ, ◌≤◌, String, Option, none, [], ◌∷◌}
use aeo_geo_optimization.Deploy.Throttle.{ThrottlePolicy, ThrottleState, current_week_start}
use aeo_geo_optimization.Deploy.Throttle.Windows.{week_start_mono}
use aeo_geo_optimization.Deploy.Queue.{ClaimRequest}
use aeo_geo_optimization.Deploy.Queue.Counter.{Fits, InOrder, total_in, total_in_bounded}
use aeo_geo_optimization.Deploy.Queue.Effect.{
  day_counter, week_counter, History, claim, events, cap_of, claim-Counts,
}

module _ (policy : Option ThrottlePolicy) (channel_class : String)
    (customer_id : Option String) where
  day_events-Fits :
      (h : History) (s : Option ThrottleState)
      → Fits
          (cap_of (λ p. p.max_per_day) policy)
          (day_counter s)
          (events policy channel_class customer_id (λ req. req.window_start) h s)
  day_events-Fits [] s = tt
  day_events-Fits ((req, rows) ∷ h) s =
      let c = claim-Counts policy channel_class customer_id req rows s in
      (
        c.day_room,
        rw (← c.day_next)
            (day_events-Fits h (claim policy channel_class customer_id req rows s).state),
      )

  week_events-Fits :
      (h : History) (s : Option ThrottleState)
      → Fits
          (cap_of (λ p. p.max_per_week) policy)
          (week_counter s)
          (events policy channel_class customer_id (λ req. current_week_start req.now) h s)
  week_events-Fits [] s = tt
  week_events-Fits ((req, rows) ∷ h) s =
      let c = claim-Counts policy channel_class customer_id req rows s in
      (
        c.week_room,
        rw (← c.week_next)
            (week_events-Fits h (claim policy channel_class customer_id req rows s).state),
      )

-- Claims come in the order of a key of theirs.
abbrev pub KeysInOrder : (ClaimRequest → ℕ) → ℕ → History → Type 0
KeysInOrder key from [] = Unit
KeysInOrder key from ((req, rows) ∷ h) = (from ≤ key req) × KeysInOrder key (key req) h

events-InOrder :
    (policy : Option ThrottlePolicy) (channel_class : String) (customer_id : Option String)
    (key : ClaimRequest → ℕ) (from : ℕ) (h : History) (s : Option ThrottleState)
    → KeysInOrder key from h
    → InOrder from (events policy channel_class customer_id key h s)
events-InOrder policy channel_class customer_id key from [] s o = tt
events-InOrder policy channel_class customer_id key from ((req, rows) ∷ h) s (first, o) =
    (first, events-InOrder policy channel_class customer_id key (key req) h _ o)

weeks-KeysInOrder :
    (from : ℕ) (h : History)
    → KeysInOrder (λ req. req.now) from h
    → KeysInOrder (λ req. current_week_start req.now) (current_week_start from) h
weeks-KeysInOrder from [] o = tt
weeks-KeysInOrder from ((req, rows) ∷ h) (first, o) =
    (week_start_mono from req.now first, weeks-KeysInOrder req.now h o)

-- Whatever the queue holds at each claim, the claims of a customer and channel that are no dry runs
-- take at most `max_per_day` rows (0 without a policy) in the window of any one day, from no
-- counter on. It is supposed that the claims come in the order of their windows.
pub daily_cap_holds :
    (policy : Option ThrottlePolicy) (channel_class : String) (customer_id : Option String)
    (h : History) (window : ℕ)
    → KeysInOrder (λ req. req.window_start) 0 h
    → total_in window (events policy channel_class customer_id (λ req. req.window_start) h none)
      ≤ cap_of (λ p. p.max_per_day) policy
daily_cap_holds policy channel_class customer_id h window o =
    total_in_bounded _ window _ (events-InOrder policy channel_class customer_id _ 0 h none o)
      (day_events-Fits policy channel_class customer_id h none)

-- And at most `max_per_week` rows (0 without a policy) in any one week, if the claims come in the
-- order of their times.
pub weekly_cap_holds :
    (policy : Option ThrottlePolicy) (channel_class : String) (customer_id : Option String)
    (h : History) (week : ℕ)
    → KeysInOrder (λ req. req.now) 0 h
    → total_in week
        (events policy channel_class customer_id (λ req. current_week_start req.now) h none)
      ≤ cap_of (λ p. p.max_per_week) policy
weekly_cap_holds policy channel_class customer_id h week o =
    total_in_bounded _ week _
      (events-InOrder policy channel_class customer_id _ 0 h none (weeks-KeysInOrder 0 h o))
      (week_events-Fits policy channel_class customer_id h none)
