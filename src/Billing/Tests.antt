-- ===== src/Billing/Tests.antt =====
-- Prices of two scopes and a period that is closed.
use aeo_geo_optimization.Common.{◌≤◌, ◌≡◌, refl, true, some, [], ◌∷◌, text_eq, arith}
use aeo_geo_optimization.Billing.Pricing.{PriceScope, price_for_scope}
use aeo_geo_optimization.Billing.Pricing.Bounds.{price_for_scope_mono}
use aeo_geo_optimization.Billing.Close.{
  Books, CloseInput, Tally, invoice_row, close_billing_period, close_all, total_of,
}
use aeo_geo_optimization.Billing.Close.Once.{
  issued, OnePerPeriod, close_billing_period-issued, close_all-OnePerPeriod,
}
use aeo_geo_optimization.Billing.Close.Totals.{created, sum_lines, close_billing_period-sum_lines}

abbrev small : PriceScope
small = record { question_count = 20; language_count = 2; models = 5; samples = 3 }

abbrev large : PriceScope
large = record { question_count = 60; language_count = 4; models = 6; samples = 5 }

-- 1,200,000 for 40 cells, and twice 3,980,000 for 240 of twice the depth.
prices :
    ((price_for_scope small).base_krw ≡ 1_200_000) × ((price_for_scope large).base_krw ≡ 7_960_000)
unfolding price_for_scope
prices = (refl, refl)

price_for_scope_mono_example : (price_for_scope small).base_krw ≤ (price_for_scope large).base_krw
price_for_scope_mono_example =
    price_for_scope_mono small large (omega arith) (omega arith) (omega arith) (omega arith)

abbrev input : CloseInput
input = record {
  customer_id = "c1";
  period_start = 1;
  period_end = 2;
  scope = large;
  llm_usage_usd = some 12_000_000;
  fx_rate = 1350;
  has_provider = true;
}

abbrev books : Books
books = record {
  subscriptions = "c1" ∷ [];
  invoices = [];
  lines = [];
  payments = [];
  next_id = 7;
  faults = [];
}

close_billing_period-sum_lines_example :
    ((close_billing_period input (record books { faults = [] })).0 ≡ some (created input 7))
    × (sum_lines 7 (close_billing_period input (record books { faults = [] })).1.lines
        ≡ total_of input)
unfolding text_eq
close_billing_period-sum_lines_example = close_billing_period-sum_lines input books refl refl refl

-- The invoice is there, but its lines were lost.
abbrev half_closed : Books
half_closed = record books { invoices = invoice_row input 6 ∷ [] }

close_billing_period-issued_example :
    issued (close_billing_period input half_closed).1 ≡ issued half_closed
unfolding text_eq
close_billing_period-issued_example = close_billing_period-issued input half_closed refl

abbrev tally : Tally
tally = record { succeeded = 0; skipped = 0; failed = 0 }

no_invoices : OnePerPeriod books
no_invoices k = omega arith

close_all-OnePerPeriod_example : OnePerPeriod (close_all (input ∷ input ∷ []) tally books).1
close_all-OnePerPeriod_example = close_all-OnePerPeriod (input ∷ input ∷ []) tally books no_invoices
