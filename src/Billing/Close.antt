-- ===== src/Billing/Close.antt =====
-- The invoices of a billing period: src/billing/close.ts over src/db/repo.ts. Any query may fail: then
-- it throws and changes nothing, as `faults` says, and what was written before stays. A moment is a
-- number; labels and log lines are left out. The payment provider is told of an invoice, and what it
-- throws is caught. An invoice's status and date, which the close sets alike each time, are left out.
pub mod Steps
pub mod Once
pub mod Totals
use aeo_geo_optimization.Common.{
  ℕ, ◌+◌, ◌<◌, String, Bool, true, false, ◌&&◌, Option, none, some, List, [], ◌∷◌, any, ltb, ◌==◌,
  text_eq, if◌then◌else◌,
}
use aeo_geo_optimization.Billing.Pricing.{
  PriceScope, price_for_scope, compute_vat, usd_to_krw, apply_margin, overage_margin,
}

pub record InvoiceRow : Type 0 where
  pub id : ℕ
  pub customer_id : String
  pub period_start : ℕ
  pub period_end : ℕ
  pub base_krw : ℕ
  pub usage_overage_krw : ℕ
  pub vat_krw : ℕ
  pub total_krw : ℕ

pub data LineKind : Type 0 where
  base overage human_ops vat : LineKind

pub record InvoiceLineRow : Type 0 where
  pub invoice_id : ℕ
  pub kind : LineKind
  pub amount_krw : ℕ

-- The tables, the invoices that the payment provider was told of with their totals, and which queries
-- fail.
pub record Books : Type 0 where
  pub subscriptions : List String
  pub invoices : List InvoiceRow
  pub lines : List InvoiceLineRow
  pub payments : List (ℕ × ℕ)
  pub next_id : ℕ
  pub faults : List Bool

-- A close of one period. The scope and the usage are what the queries of src/db/repo.ts read.
pub record CloseInput : Type 0 where
  pub customer_id : String
  pub period_start : ℕ
  pub period_end : ℕ
  pub scope : PriceScope
  pub llm_usage_usd : Option ℕ
  pub fx_rate : ℕ
  pub has_provider : Bool

pub record CloseResult : Type 0 where
  pub invoice_id : Option ℕ
  pub already_exists : Bool
  pub total_krw : ℕ

-- None where a query failed.
abbrev pub Step {ℓ} : Type ℓ → Type ℓ
Step A = Books → Option A × Books

abbrev pub and_then {ℓ κ} :
    {A : Type ℓ} {B : Type κ} → (A → Step B) → Option A × Books → Option B × Books
and_then f (none, books) = (none, books)
and_then f (some a, books) = f a books

infixl 5 ◌>>=◌ ◌>>◌
unfoldable pub ◌>>=◌ {ℓ κ} : {A : Type ℓ} {B : Type κ} → Step A → (A → Step B) → Step B
◌>>=◌ m f books = and_then f (m books)

unfoldable pub ◌>>◌ {ℓ} : {B : Type ℓ} → Step (Unit {0}) → Step B → Step B
m >> k = m >>= λ _. k

abbrev pub pure {ℓ} : {A : Type ℓ} → A → Step A
pure a books = (some a, books)

abbrev pub next_fault : List Bool → Bool × List Bool
next_fault [] = (false, [])
next_fault (f ∷ fs) = (f, fs)

unfoldable pub query {ℓ} : {A : Type ℓ} → (Books → A × Books) → Step A
query run books =
    let rest = record books { faults = (next_fault books.faults).1 } in
    if (next_fault books.faults).0 then (none, rest) else (some (run rest).0, (run rest).1)

abbrev pub same_period : CloseInput → InvoiceRow → Bool
same_period input i =
    text_eq i.customer_id input.customer_id
    && i.period_start == input.period_start
    && i.period_end == input.period_end

abbrev pub has_subscription : CloseInput → Books → Bool
has_subscription input books = any (λ c. text_eq c input.customer_id) books.subscriptions

abbrev pub or_zero : Option ℕ → ℕ
or_zero none = 0
or_zero (some n) = n

abbrev pub base_of : CloseInput → ℕ
base_of input = (price_for_scope input.scope).base_krw

abbrev pub overage_of : CloseInput → ℕ
overage_of input =
    apply_margin (usd_to_krw (or_zero input.llm_usage_usd) input.fx_rate) overage_margin

abbrev pub vat_of : CloseInput → ℕ
vat_of input = compute_vat (base_of input + overage_of input)

abbrev pub total_of : CloseInput → ℕ
total_of input = base_of input + overage_of input + vat_of input

abbrev pub invoice_row : CloseInput → ℕ → InvoiceRow
invoice_row input id = record {
  id = id;
  customer_id = input.customer_id;
  period_start = input.period_start;
  period_end = input.period_end;
  base_krw = base_of input;
  usage_overage_krw = overage_of input;
  vat_krw = vat_of input;
  total_krw = total_of input;
}

-- `ON CONFLICT (customer_id, period_start, period_end) DO NOTHING`: no id where the invoice exists.
abbrev pub with_invoice : CloseInput → Books → Option ℕ × Books
with_invoice input books = if any (same_period input) books.invoices then (none, books) else (
  some books.next_id,
  record books {
    invoices = invoice_row input books.next_id ∷ books.invoices;
    next_id = books.next_id + 1;
  },
)

unfoldable pub insert_invoice : CloseInput → Step (Option ℕ)
insert_invoice input = query (with_invoice input)

unfoldable pub insert_invoice_line : ℕ → LineKind → ℕ → Step (Unit {0})
insert_invoice_line id kind amount = query λ books. (
  tt,
  record books {
    lines = (record { invoice_id = id; kind = kind; amount_krw = amount }) ∷ books.lines;
  },
)

-- A line of more than nothing.
unfoldable pub insert_line_if : ℕ → LineKind → ℕ → Step (Unit {0})
unfolding insert_invoice_line
insert_line_if id kind amount books =
    if ltb 0 amount then insert_invoice_line id kind amount books else (some tt, books)

unfoldable pub initiate_payment : CloseInput → ℕ → Step (Unit {0})
initiate_payment input id books =
    if input.has_provider
    then (some tt, record books { payments = (id, total_of input) ∷ books.payments })
    else (some tt, books)

unfoldable pub on_invoice : CloseInput → Option ℕ → Step CloseResult
unfolding insert_invoice_line insert_line_if initiate_payment
on_invoice input none =
    pure record { invoice_id = none; already_exists = true; total_krw = total_of input }
on_invoice input (some id) = do
  insert_invoice_line id base (base_of input)
  insert_line_if id overage (overage_of input)
  insert_line_if id vat (vat_of input)
  initiate_payment input id
  pure record { invoice_id = some id; already_exists = false; total_krw = total_of input }

-- The subscription, the scope and the usage are read before the invoice is inserted. The counts of the
-- scope are read side by side, and are one query here: it fails where one of them does.
unfoldable pub on_subscription : CloseInput → Bool → Step CloseResult
unfolding insert_invoice on_invoice
on_subscription input false =
    pure record { invoice_id = none; already_exists = false; total_krw = 0 }
on_subscription input true = do
  query λ books. (tt, books)
  query λ books. (tt, books)
  id ← insert_invoice input
  on_invoice input id

unfoldable pub close_billing_period : CloseInput → Step CloseResult
unfolding on_subscription
close_billing_period input =
    query (λ books. (has_subscription input books, books)) >>= on_subscription input

pub record Tally : Type 0 where
  pub succeeded : ℕ
  pub skipped : ℕ
  pub failed : ℕ

abbrev pub counted : Option CloseResult → Tally → Tally
counted none t = record t { failed = t.failed + 1 }
counted (some r) t = count_result r.already_exists r.invoice_id t
  where
    count_result : Bool → Option ℕ → Tally → Tally
    count_result true id t = record t { skipped = t.skipped + 1 }
    count_result false (some id) t = record t { succeeded = t.succeeded + 1 }
    count_result false none t = record t { skipped = t.skipped + 1 }

-- The loop over the customers: one that fails does not stop it.
unfoldable pub close_all : List CloseInput → Tally → Books → Tally × Books
unfolding close_billing_period
close_all [] t books = (t, books)
close_all (input ∷ inputs) t books =
    let closed = close_billing_period input books in close_all inputs (counted closed.0 t) closed.1
