-- ===== src/Billing/Close/Once.antt =====
-- A period is billed once: src/billing/close.ts.
use aeo_geo_optimization.Common.{
  ℕ, ◌≤◌, ◌≡◌, refl, sym, Bool, true, false, Option, none, some, List, ◌∷◌, [], any, length, keep,
  text_eq_iff, ◌==◌, and_left, and_right, arith, Bool-cases, inl, inr, ltb,
}
use aeo_geo_optimization.Billing.Close.Steps.{
  Runs, Keeps, query-Runs, query-Keeps, bind-Runs, bind-Keeps, next-Keeps,
}
use aeo_geo_optimization.Billing.Close.{
  Books, CloseInput, InvoiceRow, InvoiceLineRow, same_period, invoice_row, insert_invoice,
  on_invoice, on_subscription, close_billing_period, insert_invoice_line, insert_line_if,
  initiate_payment, base, overage, vat, LineKind, Tally, counted, close_all,
}

-- What was issued: the invoices, their lines and what the payment provider was told.
abbrev pub issued : Books → List InvoiceRow × List InvoiceLineRow × List (ℕ × ℕ)
issued books = (books.invoices, books.lines, books.payments)

module _ (input : CloseInput) (before : Books) where
  abbrev Same : Books → Type 0
  Same books = (issued books ≡ issued before) × (any (same_period input) books.invoices ≡ true)

  -- No new invoice comes of it.
  abbrev NoInvoice : Option (Option ℕ) → Books → Type 0
  NoInvoice none books = Same books
  NoInvoice (some none) books = Same books
  NoInvoice (some (some id)) books = ⊥

  insert-NoInvoice : Runs Same (insert_invoice input) NoInvoice
  unfolding insert_invoice
  insert-NoInvoice =
      query-Runs Same NoInvoice _ (λ books fs h. h) (λ books h. h)
        (λ books h. let there = h.1 in rw there h)

  on_invoice-Same :
      (found : Option ℕ)
      → Runs (NoInvoice (some found)) (on_invoice input found) (λ _ books. Same books)
  unfolding on_invoice
  on_invoice-Same none books h = h
  on_invoice-Same (some id) books h = elim h [ ]

  on_subscription-Same : (subscribed : Bool) → Keeps Same (on_subscription input subscribed)
  unfolding on_subscription
  on_subscription-Same false books h = h
  on_subscription-Same true books h =
      next-Keeps Same _ _ (query-Keeps Same _ (λ b fs g. g) (λ b g. g))
        (next-Keeps Same _ _ (query-Keeps Same _ (λ b fs g. g) (λ b g. g)) (
          bind-Runs Same NoInvoice (λ _ b. Same b) _ _ insert-NoInvoice on_invoice-Same (λ b g. g)))
        books h

  close-Same : Keeps Same (close_billing_period input)
  unfolding close_billing_period
  close-Same =
      bind-Keeps Same _ _ (query-Keeps Same _ (λ b fs g. g) (λ b g. g)) on_subscription-Same

-- A period that has an invoice is never billed again: closing it leaves the invoices, their lines and
-- what the payment provider was told as they are, whichever queries fail. It adds no line either, where
-- an earlier close failed after it inserted the invoice.
pub close_billing_period-issued :
    (input : CloseInput) (books : Books)
    → any (same_period input) books.invoices ≡ true
    → issued (close_billing_period input books).1 ≡ issued books
close_billing_period-issued input books exists = (close-Same input books books (refl, exists)).0

abbrev pub OnePerPeriod : Books → Type 0
OnePerPeriod books = (k : CloseInput) → length (keep (same_period k) books.invoices) ≤ 1

any-none :
    (k : CloseInput) (invoices : List InvoiceRow)
    → any (same_period k) invoices ≡ false
    → length (keep (same_period k) invoices) ≡ 0
any-none k [] h = refl
any-none k (i ∷ invoices) h = ground (arith, any-none k invoices)

num_eq : (a b : ℕ) → (a == b) ≡ true → a ≡ b
num_eq a b h = ground arith

-- The periods of the new invoice are those of its input.
same_period-any :
    (k input : CloseInput) (id : ℕ) (invoices : List InvoiceRow)
    → same_period k (invoice_row input id) ≡ true
    → any (same_period input) invoices ≡ false
    → any (same_period k) invoices ≡ false
same_period-any k input id invoices same h =
    let customer =
      (text_eq_iff input.customer_id k.customer_id).0 (and_left _ _ (and_left _ _ same)) in
    let start = num_eq input.period_start k.period_start (and_right _ _ (and_left _ _ same)) in
    let end = num_eq input.period_end k.period_end (and_right _ _ same) in
    rw (sym customer, sym start, sym end) h

new-OnePerPeriod :
    (input : CloseInput) (id : ℕ) (invoices : List InvoiceRow)
    → any (same_period input) invoices ≡ false
    → ((k : CloseInput) → length (keep (same_period k) invoices) ≤ 1)
    → (k : CloseInput) → length (keep (same_period k) (invoice_row input id ∷ invoices)) ≤ 1
new-OnePerPeriod input id invoices new one k =
    elim (Bool-cases (same_period k (invoice_row input id))) [
      | inl same ↦
          let nothing = any-none k invoices (same_period-any k input id invoices same new) in
          rw (same, nothing) (omega arith)
      | inr other ↦ rw other (one k)
    ]

module _ (input : CloseInput) where
  insert-One : Keeps OnePerPeriod (insert_invoice input)
  unfolding insert_invoice
  insert-One =
      query-Keeps OnePerPeriod _ (λ books fs h. h)
        λ books h. elim (Bool-cases (any (same_period input) books.invoices)) [
          | inl there ↦ rw there h
          | inr new ↦ rw new (new-OnePerPeriod input books.next_id books.invoices new h)
        ]

  line-One : (id : ℕ) (kind : LineKind) (n : ℕ) → Keeps OnePerPeriod (insert_invoice_line id kind n)
  unfolding insert_invoice_line
  line-One id kind n = query-Keeps OnePerPeriod _ (λ books fs h. h) (λ books h. h)

  line_if-One : (id : ℕ) (kind : LineKind) (n : ℕ) → Keeps OnePerPeriod (insert_line_if id kind n)
  unfolding insert_line_if
  line_if-One id kind n books h = elim (Bool-cases (ltb 0 n)) [
    | inl more ↦ rw more (line-One id kind n books h)
    | inr nothing ↦ rw nothing h
  ]

  payment-One : (id : ℕ) → Keeps OnePerPeriod (initiate_payment input id)
  unfolding initiate_payment
  payment-One id books h = elim (Bool-cases input.has_provider) [
    | inl told ↦ rw told h
    | inr silent ↦ rw silent h
  ]

  on_invoice-One : (found : Option ℕ) → Keeps OnePerPeriod (on_invoice input found)
  unfolding on_invoice
  on_invoice-One none books h = h
  on_invoice-One (some id) books h =
      next-Keeps OnePerPeriod _ _ (line-One id base _)
        (next-Keeps OnePerPeriod _ _ (line_if-One id overage _) (
          next-Keeps OnePerPeriod _ _ (line_if-One id vat _)
            (next-Keeps OnePerPeriod _ _ (payment-One id) (λ b g. g))))
        books h

  on_subscription-One : (subscribed : Bool) → Keeps OnePerPeriod (on_subscription input subscribed)
  unfolding on_subscription
  on_subscription-One false books h = h
  on_subscription-One true books h =
      next-Keeps OnePerPeriod _ _ (query-Keeps OnePerPeriod _ (λ b fs g. g) (λ b g. g))
        (next-Keeps OnePerPeriod _ _ (query-Keeps OnePerPeriod _ (λ b fs g. g) (λ b g. g))
          (bind-Keeps OnePerPeriod _ _ insert-One on_invoice-One))
        books h

  close-One : Keeps OnePerPeriod (close_billing_period input)
  unfolding close_billing_period
  close-One =
      bind-Keeps OnePerPeriod _ _ (query-Keeps OnePerPeriod _ (λ b fs g. g) (λ b g. g))
        on_subscription-One

-- A run over any customers and periods, some of them closed before, keeps at most one invoice for each
-- customer and period, whichever queries fail.
pub close_all-OnePerPeriod :
    (inputs : List CloseInput) (tally : Tally) (books : Books)
    → OnePerPeriod books
    → OnePerPeriod (close_all inputs tally books).1
unfolding close_all
close_all-OnePerPeriod [] tally books h = h
close_all-OnePerPeriod (input ∷ inputs) tally books h =
    close_all-OnePerPeriod inputs (counted (close_billing_period input books).0 tally)
      (close_billing_period input books).1 (close-One input books h)
