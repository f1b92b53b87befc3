-- ===== src/Deploy/Verify/Attempts.antt =====
-- How often a confirmation is tried: src/deploy/verifyIndexing.ts.
use aeo_geo_optimization.Common.{
  ℕ, zero, suc, ◌+◌, ◌≤◌, ◌≡◌, ◌≢◌, refl, ap, Bool, true, false, Option, none, some, List, [], leb,
  Bool-cases, inl, inr, arith,
}
use aeo_geo_optimization.Deploy.Publish.Store.{next_fault}
use aeo_geo_optimization.Deploy.Verify.{
  unknown, UrlRow, Listings, Connectors, resolved, retryable, permanent, thrown,
  find_url_registry_row, update_indexing_status, settle, on_error, on_stamped, on_answer, confirm,
  verify_row, on_row, handle_publish_verify, is_published, verify_max_attempts, publish_verify,
}

resolved_no_retry : resolved ≢ retryable
resolved_no_retry = ground arith

thrown_no_retry : thrown ≢ retryable
thrown_no_retry = ground arith

permanent_no_retry : permanent ≢ retryable
permanent_no_retry = ground arith

settle-no_retry : (id : ℕ) (w : Listings) → (settle id w).0 ≢ retryable
unfolding settle
settle-no_retry id w = elim (Bool-cases (update_indexing_status id unknown w).0) [
  | inl written ↦ rw written resolved_no_retry
  | inr failed ↦ rw failed thrown_no_retry
]

module _ (id attempt : ℕ) (late : 5 ≤ attempt) where
  at_cap : leb verify_max_attempts attempt ≡ true
  at_cap = ground arith

  on_error-no_retry : (w : Listings) → (on_error id attempt w).0 ≢ retryable
  unfolding on_error
  on_error-no_retry w = rw at_cap (settle-no_retry id w)

  on_stamped-no_retry : (updated : Bool × Listings) → (on_stamped id attempt updated).0 ≢ retryable
  on_stamped-no_retry (true, w) = resolved_no_retry
  on_stamped-no_retry (false, w) = on_error-no_retry w

  on_answer-no_retry :
      (row : UrlRow) (answer : Option Bool) (w : Listings)
      → (on_answer id attempt row answer w).0 ≢ retryable
  on_answer-no_retry row none w = on_error-no_retry w
  on_answer-no_retry row (some found) w = on_stamped-no_retry _

  on_row-no_retry :
      (connectors : Connectors) (row : Option UrlRow) (w : Listings)
      → (on_row connectors id attempt row w).0 ≢ retryable
  unfolding verify_row confirm
  on_row-no_retry connectors none w = permanent_no_retry
  on_row-no_retry connectors (some row) w = elim (Bool-cases (is_published row.publish_status)) [
    | inl live ↦ elim (Bool-cases (connectors.can_confirm row.channel_class)) [
      | inl can ↦ rw (live, can) (on_answer-no_retry row _ _)
      | inr cannot ↦ rw (live, cannot) (settle-no_retry id w)
    ]
    | inr dead ↦ rw dead resolved_no_retry
  ]

-- From the fifth attempt on, the job never asks for another one, whatever the connector answers and
-- whichever queries fail.
pub handle_publish_verify-no_retry :
    (connectors : Connectors) (id attempt : ℕ) (w : Listings)
    → 5 ≤ attempt
    → (handle_publish_verify connectors id attempt w).0 ≢ retryable
unfolding handle_publish_verify
handle_publish_verify-no_retry connectors id attempt w late =
    elim (Bool-cases (next_fault w.faults).0) [
      | inl bad ↦ rw bad permanent_no_retry
      | inr good ↦ rw good (on_row-no_retry id attempt late connectors _ _)
    ]

-- The registry after a number of tries by the worker.
abbrev pub after_tries : Connectors → ℕ → ℕ → Listings → Listings
unfolding publish_verify
after_tries connectors id zero w = w
after_tries connectors id (suc n) w = after_tries connectors id n (publish_verify connectors id w).1

add_zero : (n : ℕ) → n + 0 ≡ n
add_zero n = omega arith

add_suc : (n m : ℕ) → (n + 1) + m ≡ n + suc m
add_suc n m = omega arith

module _ (connectors : Connectors) (id : ℕ) (row : UrlRow)
    (live : is_published row.publish_status ≡ true)
    (can : connectors.can_confirm row.channel_class ≡ true)
    (throws : (asked : ℕ)
      → connectors.confirm_indexing row.channel_class row.published_url asked ≡ none) where
  one_try :
      (rows : List UrlRow) (asked clock : ℕ)
      → find_url_registry_row id rows ≡ some row
      → publish_verify connectors id
          (record { rows = rows; asked = asked; faults = []; clock = clock })
        ≡ (retryable, record { rows = rows; asked = asked + 1; faults = []; clock = clock })
  unfolding publish_verify handle_publish_verify verify_row confirm on_error
  one_try rows asked clock at = rw at (rw (live, can, throws asked) refl)

  tries :
      (n : ℕ) (rows : List UrlRow) (asked clock : ℕ)
      → find_url_registry_row id rows ≡ some row
      → after_tries connectors id n
          (record { rows = rows; asked = asked; faults = []; clock = clock })
        ≡ record { rows = rows; asked = asked + n; faults = []; clock = clock }
  unfolding after_tries
  tries zero rows asked clock at = rw (add_zero asked) refl
  tries (suc n) rows asked clock at =
      rw (one_try rows asked clock at, tries n rows (asked + 1) clock at, add_suc asked n) refl

-- The worker never settles a published URL whose connector throws: however often it tries, the job
-- asks for a retry and the rows stay as they were, when no query fails.
pub publish_verify-retryable :
    (connectors : Connectors) (id : ℕ) (row : UrlRow) (w : Listings) (n : ℕ)
    → is_published row.publish_status ≡ true
    → connectors.can_confirm row.channel_class ≡ true
    → ((asked : ℕ) → connectors.confirm_indexing row.channel_class row.published_url asked ≡ none)
    → find_url_registry_row id w.rows ≡ some row
    → ((publish_verify connectors id (after_tries connectors id n (record w { faults = [] }))).0
        ≡ retryable)
      × ((after_tries connectors id n (record w { faults = [] })).rows ≡ w.rows)
publish_verify-retryable connectors id row w n live can throws at =
    let tried = tries connectors id row live can throws n w.rows w.asked w.clock at in
    let again = one_try connectors id row live can throws w.rows (w.asked + n) w.clock at in
    rw tried (ap (λ x. x.0) again, refl)
