-- ===== src/Billing.antt =====
-- Prices and invoices: src/billing. Amounts are whole won and US dollars are micro-dollars; a quotient
-- that the source holds as a double is rounded from its exact value.
pub mod Pricing
pub mod Close
mod Tests
