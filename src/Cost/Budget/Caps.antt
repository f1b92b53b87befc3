-- ===== src/Cost/Budget/Caps.antt =====
-- What the budget guards of src/cost/budget.ts let through.
use aeo_geo_optimization.Common.{
  ℕ, ◌+◌, ◌≤◌, ◌<◌, ◌≡◌, ◌↔◌, refl, String, true, false, Option, none, some, List, [], ◌∷◌, ltb,
  if◌then◌else◌, arith, All,
}
use aeo_geo_optimization.Common.Int.{◌-ℤ◌}
use aeo_geo_optimization.Domain.{Budget}
use aeo_geo_optimization.Cost.Budget.{
  CapCheck, within, cost_data_missing, budget_exceeded, CostReadPort, preflight, or_zero,
  check_caps, check_readings, assert_within_cap, assert_within_cap_or_new,
}

-- The spending of the customer over a window, 0 where none is known.
abbrev pub spent : String → CostReadPort → ℕ → ℕ
spent customer_id reader days = or_zero (reader.get_rolling_spend_usd customer_id days)

-- A run passes the check before its start exactly if its estimate, added to what was spent in 7 and
-- in 30 days (0 where no spending is known), stays within the weekly and the monthly cap.
pub preflight_iff :
    (customer_id : String) (budget : Budget) (estimate : ℕ) (reader : CostReadPort)
    → ((preflight customer_id budget estimate reader).ok ≡ true) ↔ (
        (spent customer_id reader 7 + estimate ≤ budget.weekly_usd_cap)
        × (spent customer_id reader 30 + estimate ≤ budget.monthly_usd_cap))
unfolding preflight ◌-ℤ◌
preflight_iff customer_id budget estimate reader = ground arith

check_caps-within :
    (budget : Budget) (w m : ℕ)
    → w < budget.weekly_usd_cap
    → m < budget.monthly_usd_cap
    → check_caps budget w m ≡ within
unfolding check_caps
check_caps-within budget w m hw hm = ground arith

within-caps :
    (budget : Budget) (w m : ℕ)
    → check_caps budget w m ≡ within
    → (w < budget.weekly_usd_cap) × (m < budget.monthly_usd_cap)
unfolding check_caps
within-caps budget w m h = ground arith

readings-within :
    (missing : CapCheck) (budget : Budget) (w m : Option ℕ)
    → missing ≡ within
    → or_zero w < budget.weekly_usd_cap
    → or_zero m < budget.monthly_usd_cap
    → check_readings missing budget w m ≡ within
unfolding check_readings
readings-within missing budget none m known hw hm = known
readings-within missing budget (some w) none known hw hm = known
readings-within missing budget (some w) (some m) known hw hm = check_caps-within budget w m hw hm

-- After a passed check of a run with a positive estimate, the guard of the first call lets a new
-- customer's call through, whether or not its spending is known.
pub preflight-first_call :
    (customer_id : String) (budget : Budget) (estimate : ℕ) (reader : CostReadPort)
    → (preflight customer_id budget estimate reader).ok ≡ true
    → 0 < estimate
    → assert_within_cap_or_new customer_id budget reader true ≡ within
unfolding assert_within_cap_or_new
preflight-first_call customer_id budget estimate reader passed some_cost =
    let (to, from) = preflight_iff customer_id budget estimate reader in
    let (week, month) = to passed in
    readings-within within budget (reader.get_rolling_spend_usd customer_id 7)
      (reader.get_rolling_spend_usd customer_id 30) refl (omega arith) (omega arith)

missing-closed :
    (customer_id : String) (budget : Budget) (w m : Option ℕ)
    → check_readings (cost_data_missing customer_id) budget w m ≡ within
    → (v : ℕ) × (n : ℕ) × (w ≡ some v) × (m ≡ some n) × (check_caps budget v n ≡ within)
unfolding check_readings
missing-closed customer_id budget none m h = ground (arith, h)
missing-closed customer_id budget (some w) none h = ground (arith, h)
missing-closed customer_id budget (some w) (some m) h = (w, m, refl, refl, h)

-- The guard of a call fails closed: where it lets a call through, the spending of both windows is
-- known and below its cap. The guard for a customer who is not new does the same.
pub assert_within_cap-closed :
    (customer_id : String) (budget : Budget) (reader : CostReadPort)
    → assert_within_cap customer_id budget reader ≡ within
    → (w : ℕ) × (m : ℕ) × (reader.get_rolling_spend_usd customer_id 7 ≡ some w)
      × (reader.get_rolling_spend_usd customer_id 30 ≡ some m)
      × (w < budget.weekly_usd_cap)
      × (m < budget.monthly_usd_cap)
      × (assert_within_cap_or_new customer_id budget reader false ≡ within)
unfolding assert_within_cap assert_within_cap_or_new
assert_within_cap-closed customer_id budget reader h =
    let (w, m, known_w, known_m, ok) =
      missing-closed customer_id budget (reader.get_rolling_spend_usd customer_id 7)
        (reader.get_rolling_spend_usd customer_id 30) h in
    let (week, month) = within-caps budget w m ok in (w, m, known_w, known_m, week, month, h)

-- A reader that knows the spending at once.
abbrev pub reading : ℕ × ℕ → CostReadPort
reading (w, m) = record {
  get_rolling_spend_usd = λ customer_id days. if ltb 7 days then some m else some w;
}

-- A call that costs `cost`, if the guard lets it through.
abbrev pub pay : CapCheck → ℕ → ℕ × ℕ → ℕ × ℕ
pay within cost (w, m) = (w + cost, m + cost)
pay _ cost s = s

-- Calls of these costs one after the other.
unfoldable pub spend : String → Budget → List ℕ → ℕ × ℕ → ℕ × ℕ
unfolding assert_within_cap
spend customer_id budget [] s = s
spend customer_id budget (cost ∷ costs) s =
    spend customer_id budget costs (pay (assert_within_cap customer_id budget (reading s)) cost s)

abbrev Bounded : Budget → ℕ → ℕ × ℕ → Type 0
Bounded budget most (w, m) =
    (w ≤ budget.weekly_usd_cap + most) × (m ≤ budget.monthly_usd_cap + most)

pay-Bounded :
    (budget : Budget) (most cost w m : ℕ) (check : CapCheck)
    → check_caps budget w m ≡ check
    → cost ≤ most
    → Bounded budget most (w, m)
    → Bounded budget most (pay check cost (w, m))
pay-Bounded budget most cost w m within e small h =
    let (below_w, below_m) = within-caps budget w m e in (omega arith, omega arith)
pay-Bounded budget most cost w m (budget_exceeded cap) e small h = h
pay-Bounded budget most cost w m (cost_data_missing id) e small h = h

spend-Bounded :
    (customer_id : String) (budget : Budget) (most : ℕ) (costs : List ℕ) (s : ℕ × ℕ)
    → All (λ c. c ≤ most) costs
    → Bounded budget most s
    → Bounded budget most (spend customer_id budget costs s)
unfolding spend assert_within_cap check_readings
spend-Bounded customer_id budget most [] s small h = h
spend-Bounded customer_id budget most (c ∷ costs) (w, m) (sc, small) h =
    spend-Bounded customer_id budget most costs (pay (check_caps budget w m) c (w, m)) small
      (pay-Bounded budget most c w m (check_caps budget w m) refl sc h)

-- From spending within both caps on, calls that are each made only if the guard lets them through
-- overrun neither the weekly nor the monthly cap by more than the cost of the dearest call, if the
-- guard reads the current spending.
pub guarded_calls_bounded :
    (customer_id : String) (budget : Budget) (most : ℕ) (costs : List ℕ) (w m : ℕ)
    → All (λ c. c ≤ most) costs
    → w ≤ budget.weekly_usd_cap
    → m ≤ budget.monthly_usd_cap
    → ((spend customer_id budget costs (w, m)).0 ≤ budget.weekly_usd_cap + most)
      × ((spend customer_id budget costs (w, m)).1 ≤ budget.monthly_usd_cap + most)
guarded_calls_bounded customer_id budget most costs w m small hw hm =
    spend-Bounded customer_id budget most costs (w, m) small (omega arith, omega arith)
