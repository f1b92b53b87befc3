-- ===== src/Deploy/Verify/Rows.antt =====
-- What a confirmation may change: src/deploy/verifyIndexing.ts.
use aeo_geo_optimization.Common.{
  ℕ, ◌≡◌, refl, sym, ◌∙◌, String, Bool, true, false, ◌&&◌, ◌||◌, Option, none, some, List, [], ◌∷◌,
  any, map, ◌==◌, leb, Bool-cases, inl, inr, arith, some-injective,
}
use aeo_geo_optimization.Deploy.Publish.Store.{PublishStatus, next_fault}
use aeo_geo_optimization.Deploy.Verify.{
  IndexingStatus, unknown, indexed, UrlRow, Listings, Connectors, find_url_registry_row, update_row,
  stamp, update_indexing_status, status_of, is_owned, settle, on_error, on_stamped, on_answer,
  confirm, verify_row, on_row, handle_publish_verify, is_published, verify_max_attempts,
}

-- What holds of the rows, and is kept by the stamps that the job may make of a row.
module _ {κ} (Q : List UrlRow → Type κ) (id : ℕ)
    (unknown_kept : (now : ℕ) (rows : List UrlRow)
      → Q rows
      → Q (update_row id (stamp unknown now) rows))
    (answer_kept : (now : ℕ) (row : UrlRow) (found : Bool) (rows : List UrlRow)
      → find_url_registry_row id rows ≡ some row
      → Q rows
      → Q (update_row id (stamp (status_of (is_owned row) found) now) rows)) where
  update-kept :
      (status : IndexingStatus) (w : Listings)
      → Q (update_row id (stamp status w.clock) w.rows)
      → Q w.rows
      → Q (update_indexing_status id status w).1.rows
  unfolding update_indexing_status
  update-kept status w h q = elim (Bool-cases (next_fault w.faults).0) [
    | inl bad ↦ rw bad q
    | inr good ↦ rw good h
  ]

  settle-kept : (w : Listings) → Q w.rows → Q (settle id w).1.rows
  unfolding settle
  settle-kept w q = update-kept unknown w (unknown_kept w.clock w.rows q) q

  on_error-kept : (attempt : ℕ) (w : Listings) → Q w.rows → Q (on_error id attempt w).1.rows
  unfolding on_error
  on_error-kept attempt w q = elim (Bool-cases (leb verify_max_attempts attempt)) [
    | inl last ↦ rw last (settle-kept w q)
    | inr early ↦ rw early q
  ]

  on_stamped-kept :
      (attempt : ℕ) (updated : Bool × Listings)
      → Q updated.1.rows
      → Q (on_stamped id attempt updated).1.rows
  on_stamped-kept attempt (true, w) q = q
  on_stamped-kept attempt (false, w) q = on_error-kept attempt w q

  on_answer-kept :
      (attempt : ℕ) (row : UrlRow) (answer : Option Bool) (w : Listings)
      → find_url_registry_row id w.rows ≡ some row
      → Q w.rows
      → Q (on_answer id attempt row answer w).1.rows
  on_answer-kept attempt row none w at q = on_error-kept attempt w q
  on_answer-kept attempt row (some found) w at q =
      on_stamped-kept attempt _ (
        update-kept (status_of (is_owned row) found) w (answer_kept w.clock row found w.rows at q)
          q)

  verify_row-kept :
      (connectors : Connectors) (attempt : ℕ) (row : UrlRow) (w : Listings)
      → find_url_registry_row id w.rows ≡ some row
      → Q w.rows
      → Q (verify_row connectors id attempt row w).1.rows
  unfolding verify_row confirm
  verify_row-kept connectors attempt row w at q =
      elim (Bool-cases (is_published row.publish_status)) [
        | inl live ↦ elim (Bool-cases (connectors.can_confirm row.channel_class)) [
          | inl can ↦ rw (live, can) (on_answer-kept attempt row _ _ at q)
          | inr cannot ↦ rw (live, cannot) (settle-kept w q)
        ]
        | inr dead ↦ rw dead q
      ]

  on_row-kept :
      (connectors : Connectors) (attempt : ℕ) (row : Option UrlRow) (w : Listings)
      → find_url_registry_row id w.rows ≡ row
      → Q w.rows
      → Q (on_row connectors id attempt row w).1.rows
  on_row-kept connectors attempt none w at q = q
  on_row-kept connectors attempt (some row) w at q = verify_row-kept connectors attempt row w at q

  handle-kept :
      (connectors : Connectors) (attempt : ℕ) (w : Listings)
      → Q w.rows
      → Q (handle_publish_verify connectors id attempt w).1.rows
  unfolding handle_publish_verify
  handle-kept connectors attempt w q = elim (Bool-cases (next_fault w.faults).0) [
    | inl bad ↦ rw bad q
    | inr good ↦ rw good (
        on_row-kept connectors attempt (find_url_registry_row id w.rows)
          (record w { faults = (next_fault w.faults).1 }) refl q)
  ]

-- What a job never changes of a row.
abbrev pub fixed : UrlRow → ℕ × String × String × PublishStatus
fixed r = (r.id, r.channel_class, r.published_url, r.publish_status)

update_row-fixed :
    (id : ℕ) (status : IndexingStatus) (now : ℕ) (rows : List UrlRow)
    → map fixed (update_row id (stamp status now) rows) ≡ map fixed rows
update_row-fixed id status now [] = refl
update_row-fixed id status now (r ∷ rows) = elim (Bool-cases (r.id == id)) [
  | inl this ↦ rw this refl
  | inr other ↦ rw (other, update_row-fixed id status now rows) refl
]

-- A row of the owned network that says it is indexed.
abbrev pub is_owned_indexed : UrlRow → Bool
is_owned_indexed r = is_owned r && is_indexed r.indexing_status
  where
    is_indexed : IndexingStatus → Bool
    is_indexed indexed = true
    is_indexed _ = false

or_false : (a b : Bool) → a ≡ false → b ≡ false → (a || b) ≡ false
or_false a b p q = ground arith

or_left : (a b : Bool) → (a || b) ≡ false → a ≡ false
or_left a b h = ground arith

or_right : (a b : Bool) → (a || b) ≡ false → b ≡ false
or_right a b h = ground arith

stamp-unowned :
    (row : UrlRow) (found : Bool) (now : ℕ)
    → is_owned_indexed (stamp (status_of (is_owned row) found) now row) ≡ false
stamp-unowned row found now = elim (Bool-cases (is_owned row)) [
  | inl owned ↦ rw owned refl
  | inr other ↦ rw other refl
]

stamp_unknown-unowned : (row : UrlRow) (now : ℕ) → is_owned_indexed (stamp unknown now row) ≡ false
stamp_unknown-unowned row now = elim (Bool-cases (is_owned row)) [
  | inl owned ↦ rw owned refl
  | inr other ↦ rw other refl
]

-- An update of a row that is found keeps the owned rows from being indexed, if it keeps that row so.
update_row-unowned :
    (id : ℕ) (f : UrlRow → UrlRow) (rows : List UrlRow)
    → ((row : UrlRow) → find_url_registry_row id rows ≡ some row → is_owned_indexed (f row) ≡ false)
    → any is_owned_indexed rows ≡ false
    → any is_owned_indexed (update_row id f rows) ≡ false
update_row-unowned id f [] ok h = refl
update_row-unowned id f (r ∷ rows) ok h =
    let first = or_left _ _ h in
    let others = or_right _ _ h in
    elim (Bool-cases (r.id == id)) [
      | inl this ↦ rw this (or_false _ _ (ok r (rw this refl)) others)
      | inr other ↦ rw other (
          or_false _ _ first (update_row-unowned id f rows (λ row at. ok row (rw other at)) others))
    ]

same_row :
    (a b : UrlRow) (found : Bool) (now : ℕ)
    → some a ≡ some b
    → is_owned_indexed (stamp (status_of (is_owned a) found) now b) ≡ false
same_row a b found now h = rw (some-injective h) (stamp-unowned b found now)

-- A row of the owned network never becomes indexed, whatever its connector answers, at whichever
-- attempt and whichever queries fail.
pub handle_publish_verify-unowned :
    (connectors : Connectors) (id attempt : ℕ) (w : Listings)
    → any is_owned_indexed w.rows ≡ false
    → any is_owned_indexed (handle_publish_verify connectors id attempt w).1.rows ≡ false
handle_publish_verify-unowned connectors id attempt w h =
    handle-kept (λ rows. any is_owned_indexed rows ≡ false) id
      (λ now rows g.
        update_row-unowned id (stamp unknown now) rows (λ row at. stamp_unknown-unowned row now) g)
      (λ now row found rows at g.
        update_row-unowned id (stamp (status_of (is_owned row) found) now) rows
          (λ other there. same_row row other found now (sym at ∙ there)) g)
      connectors attempt w h

-- A job changes no row's address, channel or state of publication, adds no row and removes none.
pub handle_publish_verify-fixed :
    (connectors : Connectors) (id attempt : ℕ) (w : Listings)
    → map fixed (handle_publish_verify connectors id attempt w).1.rows ≡ map fixed w.rows
handle_publish_verify-fixed connectors id attempt w =
    handle-kept (λ rows. map fixed rows ≡ map fixed w.rows) id
      (λ now rows g. update_row-fixed id unknown now rows ∙ g)
      (λ now row found rows at g. update_row-fixed id (status_of (is_owned row) found) now rows ∙ g)
      connectors attempt w refl
