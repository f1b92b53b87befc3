-- ===== src/Cost/Qgen.antt =====
-- The budget of one generation run: src/cost/qgenBudget.ts. US dollars are micro-dollars; a usage may
-- be negative, and is then refused. The caps of the environment are passed.
use aeo_geo_optimization.Common.{ℕ, ◌+◌, Bool, Option, none, some, ltb, leb, if◌then◌else◌}
use aeo_geo_optimization.Common.Int.{ℤ, pos, negsuc, ◌-ℤ◌}

pub record QgenRunBudget : Type 0 where
  pub ceiling_usd : ℕ
  pub global_weekly_usd_cap : ℕ
  pub global_monthly_usd_cap : ℕ
  pub accumulated_usd : ℕ

pub record QgenRunBudgetOptions : Type 0 where
  pub run_ceiling_usd : Option ℕ
  pub global_weekly_usd_cap : Option ℕ
  pub global_monthly_usd_cap : Option ℕ

abbrev pub default_run_ceiling_usd : ℕ
default_run_ceiling_usd = 500_000

-- `x ?? y`
abbrev pub or_else : Option ℕ → ℕ → ℕ
or_else none y = y
or_else (some x) y = x

abbrev pub create_qgen_budget : ℕ → ℕ → QgenRunBudgetOptions → QgenRunBudget
create_qgen_budget env_weekly env_monthly opts = record {
  ceiling_usd = or_else opts.run_ceiling_usd default_run_ceiling_usd;
  global_weekly_usd_cap = or_else opts.global_weekly_usd_cap env_weekly;
  global_monthly_usd_cap = or_else opts.global_monthly_usd_cap env_monthly;
  accumulated_usd = 0;
}

pub data GlobalGate : Type 0 where
  allowed over_weekly over_monthly : GlobalGate

abbrev pub assert_global_gate : ℕ → QgenRunBudget → GlobalGate
assert_global_gate estimated_usd b =
    if ltb b.global_weekly_usd_cap estimated_usd
    then over_weekly
    else (if ltb b.global_monthly_usd_cap estimated_usd then over_monthly else allowed)

-- It returns, or throws a `RangeError` or a `QgenBudgetExceededError`.
pub data Recorded : Type 0 where
  recorded range_error budget_exceeded : Recorded

unfoldable pub record_usage : ℤ → QgenRunBudget → Recorded × QgenRunBudget
record_usage (negsuc n) b = (range_error, b)
record_usage (pos usd) b =
    let after = record b { accumulated_usd = b.accumulated_usd + usd } in
    (if ltb after.ceiling_usd after.accumulated_usd then budget_exceeded else recorded, after)

abbrev pub is_within_ceiling : QgenRunBudget → Bool
is_within_ceiling b = leb b.accumulated_usd b.ceiling_usd

unfoldable pub remaining_usd : QgenRunBudget → ℤ
unfolding ◌-ℤ◌
remaining_usd b = pos b.ceiling_usd -ℤ pos b.accumulated_usd
