-- ===== src/Billing/Close/Totals.antt =====
-- What an invoice adds up to: src/billing/close.ts.
use aeo_geo_optimization.Common.{
  ℕ, ◌+◌, ◌≡◌, refl, true, false, some, List, [], ◌∷◌, any, ltb, ◌==◌, arith, if◌then◌else◌,
  Bool-cases, inl, inr,
}
use aeo_geo_optimization.Billing.Close.{
  Books, CloseInput, CloseResult, InvoiceLineRow, LineKind, base, overage, vat, ◌>>=◌, ◌>>◌, query,
  same_period, has_subscription, invoice_row, on_invoice, close_billing_period, base_of, overage_of,
  vat_of, total_of,
}

-- The sum of an invoice's lines.
abbrev pub sum_lines : ℕ → List InvoiceLineRow → ℕ
sum_lines id [] = 0
sum_lines id (l ∷ lines) =
    let rest = sum_lines id lines in if l.invoice_id == id then l.amount_krw + rest else rest

own_line : (id : ℕ) → (id == id) ≡ true
own_line id = ground arith

-- A line that may be left out, at no loss.
abbrev with_line_if : ℕ → LineKind → ℕ → List InvoiceLineRow → List InvoiceLineRow
with_line_if id kind n lines =
    if ltb 0 n then (record { invoice_id = id; kind = kind; amount_krw = n }) ∷ lines else lines

with_line_if-sum_lines :
    (id : ℕ) (kind : LineKind) (n : ℕ) (lines : List InvoiceLineRow)
    → sum_lines id (with_line_if id kind n lines) ≡ n + sum_lines id lines
with_line_if-sum_lines id kind n lines = elim (Bool-cases (ltb 0 n)) [
  | inl more ↦ rw (more, own_line id) refl
  | inr nothing ↦ rw nothing (ground arith)
]

abbrev all_lines : CloseInput → ℕ → List InvoiceLineRow → List InvoiceLineRow
all_lines input id lines = with_line_if id vat (vat_of input) (
    with_line_if id overage (overage_of input)
      ((record { invoice_id = id; kind = base; amount_krw = base_of input }) ∷ lines))

all_lines-sum_lines :
    (input : CloseInput) (id : ℕ) (lines : List InvoiceLineRow)
    → sum_lines id (all_lines input id lines) ≡ total_of input + sum_lines id lines
all_lines-sum_lines input id lines =
    let first = (record { invoice_id = id; kind = base; amount_krw = base_of input }) ∷ lines in
    add_up (base_of input) (overage_of input) (vat_of input) (sum_lines id lines)
      (sum_lines id first) (sum_lines id (with_line_if id overage (overage_of input) first))
      (sum_lines id (all_lines input id lines)) (rw (own_line id) refl)
      (with_line_if-sum_lines id overage (overage_of input) first)
      (with_line_if-sum_lines id vat (vat_of input)
        (with_line_if id overage (overage_of input) first))
  where
    add_up : (b o v s x y z : ℕ) → x ≡ b + s → y ≡ o + x → z ≡ v + y → z ≡ b + o + v + s
    add_up b o v s x y z p q r = omega arith

abbrev pub created : CloseInput → ℕ → CloseResult
created input id = record {
  invoice_id = some id;
  already_exists = false;
  total_krw = total_of input;
}

on_invoice-clean :
    (input : CloseInput) (id : ℕ) (books : Books)
    → ((on_invoice input (some id) (record books { faults = [] })).0 ≡ some (created input id))
      × ((on_invoice input (some id) (record books { faults = [] })).1.lines
          ≡ all_lines input id books.lines)
unfolding on_invoice query ◌>>=◌ ◌>>◌
on_invoice-clean input id books = elim (Bool-cases (ltb 0 (overage_of input))) [
  | inl some_usage ↦ elim (Bool-cases (ltb 0 (vat_of input))) [
    | inl some_tax ↦ elim (Bool-cases input.has_provider) [
      | inl told ↦ rw (some_usage, some_tax, told) (refl, refl)
      | inr silent ↦ rw (some_usage, some_tax, silent) (refl, refl)
    ]
    | inr no_tax ↦ elim (Bool-cases input.has_provider) [
      | inl told ↦ rw (some_usage, no_tax, told) (refl, refl)
      | inr silent ↦ rw (some_usage, no_tax, silent) (refl, refl)
    ]
  ]
  | inr no_usage ↦ elim (Bool-cases (ltb 0 (vat_of input))) [
    | inl some_tax ↦ elim (Bool-cases input.has_provider) [
      | inl told ↦ rw (no_usage, some_tax, told) (refl, refl)
      | inr silent ↦ rw (no_usage, some_tax, silent) (refl, refl)
    ]
    | inr no_tax ↦ elim (Bool-cases input.has_provider) [
      | inl told ↦ rw (no_usage, no_tax, told) (refl, refl)
      | inr silent ↦ rw (no_usage, no_tax, silent) (refl, refl)
    ]
  ]
]

-- Closing a period of a subscribed customer that has no invoice yet creates one whose lines, the base,
-- the usage and the tax, sum up to the total that is returned, when no query fails and no line has the
-- new invoice's id.
pub close_billing_period-sum_lines :
    (input : CloseInput) (books : Books)
    → has_subscription input books ≡ true
    → any (same_period input) books.invoices ≡ false
    → sum_lines books.next_id books.lines ≡ 0
    → ((close_billing_period input (record books { faults = [] })).0
        ≡ some (created input books.next_id))
      × (sum_lines books.next_id (close_billing_period input (record books { faults = [] })).1.lines
          ≡ total_of input)
unfolding close_billing_period query ◌>>=◌ ◌>>◌
close_billing_period-sum_lines input books subscribed new none_yet =
    let id = books.next_id in
    let issued = record books {
      invoices = invoice_row input id ∷ books.invoices;
      next_id = id + 1;
    } in
    let made = on_invoice-clean input id issued in
    let total = all_lines-sum_lines input id books.lines in
    rw (subscribed, new) (made.0, rw (made.1, total, none_yet) (plus_nothing (total_of input)))
  where
    plus_nothing : (n : ℕ) → n + 0 ≡ n
    plus_nothing n = omega arith
