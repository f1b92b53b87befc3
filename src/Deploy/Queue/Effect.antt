-- ===== src/Deploy/Queue/Effect.antt =====
-- What one claim of src/db/repo.ts does to the counters of its day and its week.
use aeo_geo_optimization.Common.{
  ℕ, ◌-◌, ◌≤◌, ◌≡◌, refl, ap, String, true, ◌||◌, Option, none, some, List, [], ◌∷◌, arith, compare,
  ◌==◌, if◌then◌else◌, take, keep, length, length-take, length-map, Bool-cases, inl, inr,
}
use aeo_geo_optimization.Deploy.Throttle.{
  ThrottlePolicy, ThrottleState, today_count, this_week_count, current_week_start, week_count_of,
}
use aeo_geo_optimization.Common.Sort.{sort}
use aeo_geo_optimization.Deploy.Queue.{
  is_claimable, lease, QueueRow, ClaimRequest, Claim, claim_limit,
  claim_next_deploy_batch_for_customer, add_claimed, week_count_plus,
}
use aeo_geo_optimization.Deploy.Queue.Counter.{Counter, counted, bump, advance}

abbrev pub day_counter : Option ThrottleState → Counter
day_counter none = none
day_counter (some s) = some (s.window_start, s.count)

abbrev week_counter_of : Option ℕ → ℕ → Counter
week_counter_of none n = none
week_counter_of (some w) n = some (w, n)

abbrev pub week_counter : Option ThrottleState → Counter
week_counter none = none
week_counter (some s) = week_counter_of s.week_start s.week_count

-- A claim that is made, and the queue as it stands then.
abbrev pub History : Type 0
History = List (ClaimRequest × List QueueRow)

module _ (policy : Option ThrottlePolicy) (channel_class : String)
    (customer_id : Option String) where
  abbrev pub claim : ClaimRequest → List QueueRow → Option ThrottleState → Claim
  claim req rows state =
      claim_next_deploy_batch_for_customer policy channel_class customer_id req rows state

  -- How many rows a claim counts: none in a dry run.
  abbrev pub n_counted : ClaimRequest → List QueueRow → Option ThrottleState → ℕ
  n_counted req rows state = if req.dry_run then 0 else length (claim req rows state).claimed

  -- The claims one after the other, each with its window by `key` and its number.
  abbrev pub events : (ClaimRequest → ℕ) → History → Option ThrottleState → List (ℕ × ℕ)
  events key [] state = []
  events key ((req, rows) ∷ h) state =
      (key req, n_counted req rows state) ∷ events key h (claim req rows state).state

abbrev pub cap_of : (ThrottlePolicy → ℕ) → Option ThrottlePolicy → ℕ
cap_of f none = 0
cap_of f (some p) = f p

-- What one claim does to the counters.
pub record Counts (policy : Option ThrottlePolicy) (channel_class : String)
    (customer_id : Option String) (req : ClaimRequest) (rows : List QueueRow)
    (s : Option ThrottleState) : Type 0 where
  pub day_room :
      n_counted policy channel_class customer_id req rows s
      ≤ cap_of (λ p. p.max_per_day) policy - counted (day_counter s) req.window_start
  pub week_room :
      n_counted policy channel_class customer_id req rows s
      ≤ cap_of (λ p. p.max_per_week) policy - counted (week_counter s) (current_week_start req.now)
  pub day_next :
      day_counter (claim policy channel_class customer_id req rows s).state
      ≡ advance
          (day_counter s)
          req.window_start
          (n_counted policy channel_class customer_id req rows s)
  pub week_next :
      week_counter (claim policy channel_class customer_id req rows s).state
      ≡ advance
          (week_counter s)
          (current_week_start req.now)
          (n_counted policy channel_class customer_id req rows s)

counted-day : (s : Option ThrottleState) (w : ℕ) → counted (day_counter s) w ≡ today_count s w
counted-day none w = refl
counted-day (some s) w = refl

counted-week_of : (o : Option ℕ) (n w : ℕ) → counted (week_counter_of o n) w ≡ week_count_of o w n
counted-week_of none n w = refl
counted-week_of (some v) n w = refl

counted-week : (s : Option ThrottleState) (w : ℕ) → counted (week_counter s) w ≡ this_week_count s w
counted-week none w = refl
counted-week (some s) w = counted-week_of s.week_start s.week_count w

claim_limit-day :
    (p : ThrottlePolicy) (s : Option ThrottleState) (limit w now : ℕ)
    → claim_limit p s limit w now ≤ p.max_per_day - today_count s w
unfolding claim_limit
claim_limit-day p s limit w now = ground arith

claim_limit-week :
    (p : ThrottlePolicy) (s : Option ThrottleState) (limit w now : ℕ)
    → claim_limit p s limit w now ≤ p.max_per_week - this_week_count s (current_week_start now)
unfolding claim_limit
claim_limit-week p s limit w now = ground arith

-- The state after `n` rows are claimed.
abbrev counted_state :
    Option String → String → ClaimRequest → ℕ → Option ThrottleState → Option ThrottleState
counted_state customer_id channel_class req n s =
    if req.dry_run || n == 0
    then s
    else some (add_claimed s customer_id channel_class req.window_start req.now n)

module _ (customer_id : Option String) (channel_class : String) (req : ClaimRequest) (n : ℕ) where
  add_claimed-day :
      (s : Option ThrottleState)
      → day_counter (some (add_claimed s customer_id channel_class req.window_start req.now n))
        ≡ bump (day_counter s) req.window_start n
  add_claimed-day none = refl
  add_claimed-day (some s) = refl

  bump-week_of :
      (o : Option ℕ) (m w : ℕ)
      → week_counter_of (some w) (week_count_plus o w m n) ≡ bump (week_counter_of o m) w n
  bump-week_of none m w = refl
  bump-week_of (some v) m w = refl

  add_claimed-week :
      (s : Option ThrottleState)
      → week_counter (some (add_claimed s customer_id channel_class req.window_start req.now n))
        ≡ bump (week_counter s) (current_week_start req.now) n
  add_claimed-week none = refl
  add_claimed-week (some s) = bump-week_of s.week_start s.week_count (current_week_start req.now)

  -- A counter that follows `add_claimed` follows the claim too, which may leave the state alone.
  counted_state-advance :
      (view : Option ThrottleState → Counter) (w : ℕ) (s : Option ThrottleState)
      → view (some (add_claimed s customer_id channel_class req.window_start req.now n))
        ≡ bump (view s) w n
      → view (counted_state customer_id channel_class req n s)
        ≡ advance (view s) w (if req.dry_run then 0 else n)
  counted_state-advance view w s h = elim (Bool-cases req.dry_run) [
    | inl dry ↦ rw dry
    | inr wet ↦ elim (Bool-cases (n == 0)) [
      | inl empty ↦ rw (wet, empty)
      | inr full ↦ rw (wet, full) h
    ]
  ]

module _ (channel_class : String) (customer_id : Option String) (req : ClaimRequest)
    (rows : List QueueRow) (s : Option ThrottleState) where
  -- A claim of nothing.
  idle-Counts :
      (policy : Option ThrottlePolicy)
      → claim policy channel_class customer_id req rows s
        ≡ record { claimed = []; rows = rows; state = s }
      → Counts policy channel_class customer_id req rows s
  idle-Counts policy e =
      let nothing : n_counted policy channel_class customer_id req rows s ≡ 0 = ground arith in
      record {
        day_room = rw nothing (omega arith);
        week_room = rw nothing (omega arith);
        day_next = rw nothing (ap (λ c. day_counter c.state) e);
        week_next = rw nothing (ap (λ c. week_counter c.state) e);
      }

  chosen_under : ThrottlePolicy → List QueueRow
  chosen_under p = take (claim_limit p s req.limit req.window_start req.now) (
      sort (λ (a : QueueRow) (b : QueueRow). compare a.created_at b.created_at)
        (keep (is_claimable channel_class customer_id) rows))

  claim-enabled :
      (p : ThrottlePolicy)
      → p.enabled ≡ true
      → (length (claim (some p) channel_class customer_id req rows s).claimed
          ≡ length (chosen_under p))
        × ((claim (some p) channel_class customer_id req rows s).state
            ≡ counted_state customer_id channel_class req (length (chosen_under p)) s)
  unfolding claim_next_deploy_batch_for_customer chosen_under
  claim-enabled p on =
      rw (on, claim_next_deploy_batch_for_customer)
        (length-map (lease req.now) (chosen_under p), refl)

  length-chosen_under :
      (p : ThrottlePolicy)
      → length (chosen_under p) ≤ claim_limit p s req.limit req.window_start req.now
  unfolding chosen_under
  length-chosen_under p = rw length-take (omega arith)

  enabled-Counts :
      (p : ThrottlePolicy) → p.enabled ≡ true → Counts (some p) channel_class customer_id req rows s
  enabled-Counts p on =
      let (number, state) = claim-enabled p on in
      let n : ℕ = length (chosen_under p) in
      let few = length-chosen_under p in
      let day = claim_limit-day p s req.limit req.window_start req.now in
      let week = claim_limit-week p s req.limit req.window_start req.now in
      record {
        day_room = rw (number, counted-day s req.window_start) (ground arith);
        week_room = rw (number, counted-week s (current_week_start req.now)) (ground arith);
        day_next =
            rw (number, state)
              (counted_state-advance customer_id channel_class req n day_counter req.window_start s
                (add_claimed-day customer_id channel_class req n s));
        week_next =
            rw (number, state)
              (counted_state-advance customer_id channel_class req n week_counter
                (current_week_start req.now) s
                (add_claimed-week customer_id channel_class req n s));
      }

pub claim-Counts :
    (policy : Option ThrottlePolicy) (channel_class : String) (customer_id : Option String)
    (req : ClaimRequest) (rows : List QueueRow) (s : Option ThrottleState)
    → Counts policy channel_class customer_id req rows s
unfolding claim_next_deploy_batch_for_customer
claim-Counts none channel_class customer_id req rows s =
    idle-Counts channel_class customer_id req rows s none refl
claim-Counts (some p) channel_class customer_id req rows s = elim (Bool-cases p.enabled) [
  | inl on ↦ enabled-Counts channel_class customer_id req rows s p on
  | inr off ↦
      idle-Counts channel_class customer_id req rows s (some p)
        (rw (off, claim_next_deploy_batch_for_customer))
]
