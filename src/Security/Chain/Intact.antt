-- ===== src/Security/Chain/Intact.antt =====
-- Which audit chains the verifier accepts: src/security/auditChainVerify.ts.
use aeo_geo_optimization.Common.{
  ℕ, ◌+◌, ◌≡◌, ◌↔◌, refl, ap, String, true, Option, none, some, List, [], ◌∷◌, ◌++◌, text_eq_iff,
  arith, ◌≢◌,
}
use aeo_geo_optimization.Security.Chain.{
  AuditEntry, Platform, compute_entry_hash, Reason, links, check_from, verify_chain, verification,
  last_entry,
}

abbrev pub Follows : Option String → AuditEntry → Type 0
Follows none e = Unit
Follows (some h) e = e.prev_hash ≡ h

-- Sequence numbers count up from `from`, each entry names the hash of the one before, and each hash
-- is that of its entry.
abbrev pub Intact : Platform → ℕ → Option String → List AuditEntry → Type 0
Intact pf from prev [] = Unit
Intact pf from prev (e ∷ es) =
    (e.seq ≡ from)
    × Follows prev e
    × (compute_entry_hash pf e.seq e.prev_hash e.payload_hash ≡ e.hash)
    × Intact pf (from + 1) (some e.hash) es

abbrev pub IsIntact : Platform → List AuditEntry → Type 0
IsIntact pf [] = Unit
IsIntact pf (e ∷ es) = Intact pf e.seq none (e ∷ es)

links_iff : (prev : Option String) (e : AuditEntry) → (links prev e ≡ true) ↔ Follows prev e
links_iff none e = (λ _. tt, λ _. refl)
links_iff (some h) e = text_eq_iff e.prev_hash h

none≢some : {A : Type 0} {a : A} → none ≢ some a
none≢some e = ground (arith, e)

pub check_from_iff :
    (pf : Platform) (from : ℕ) (prev : Option String) (es : List AuditEntry)
    → (check_from pf from prev es ≡ none) ↔ Intact pf from prev es
unfolding check_from
check_from_iff pf from prev [] = (λ _. tt, λ _. refl)
check_from_iff pf from prev (e ∷ es) =
    let (to_rest, from_rest) = check_from_iff pf (from + 1) (some e.hash) es in
    let (to_link, from_link) = links_iff prev e in
    let (to_hash, from_hash) =
      text_eq_iff (compute_entry_hash pf e.seq e.prev_hash e.payload_hash) e.hash in
    (
      λ h. ground (arith, to_rest, to_link, to_hash),
      λ (seq, link, hash, rest). ground (arith, from_rest rest, from_link link, from_hash hash),
    )

valid_iff_none :
    (n : ℕ) (head : String) (r : Option (ℕ × Reason))
    → ((verification n head r).valid ≡ true) ↔ (r ≡ none)
valid_iff_none n head none = (λ _. refl, λ _. refl)
valid_iff_none n head (some (seq, reason)) = (λ h. ground (arith, h), λ h. ground (arith, h))

-- The verifier accepts a chain exactly if its sequence numbers count up by one from the first, each
-- entry but the first names the stored hash of the entry before, and each stored hash is the one
-- computed from its entry.
pub verify_chain_iff :
    (pf : Platform) (es : List AuditEntry) → ((verify_chain pf es).valid ≡ true) ↔ IsIntact pf es
unfolding verify_chain
verify_chain_iff pf [] = (λ _. tt, λ _. refl)
verify_chain_iff pf (e ∷ es) =
    let (to, from) = valid_iff_none _ _ (check_from pf e.seq none (e ∷ es)) in
    let (intact, found) = check_from_iff pf e.seq none (e ∷ es) in
    (λ h. intact (to h), λ h. from (found h))

-- The entry that a writer adds to a chain.
abbrev pub next_entry : Platform → AuditEntry → String → AuditEntry
next_entry pf last payload_hash = record {
  seq = last.seq + 1;
  prev_hash = last.hash;
  payload_hash = payload_hash;
  hash = compute_entry_hash pf (last.seq + 1) last.hash payload_hash;
}

append-Intact :
    (pf : Platform) (from : ℕ) (prev : Option String) (e : AuditEntry) (es : List AuditEntry)
    (payload_hash : String)
    → Intact pf from prev (e ∷ es)
    → Intact pf from prev (e ∷ es ++ next_entry pf (last_entry e es) payload_hash ∷ [])
append-Intact pf from prev e [] payload_hash (seq, link, hash, _) =
    (seq, link, hash, (ap (λ n. n + 1) seq, refl, refl, tt))
append-Intact pf from prev e (f ∷ es) payload_hash (seq, link, hash, rest) =
    (seq, link, hash, append-Intact pf (from + 1) (some e.hash) f es payload_hash rest)

-- A chain that the verifier accepts stays so when an entry is added that names the head's hash and
-- the next sequence number.
pub verify_chain-append :
    (pf : Platform) (e : AuditEntry) (es : List AuditEntry) (payload_hash : String)
    → (verify_chain pf (e ∷ es)).valid ≡ true
    → (verify_chain pf (e ∷ es ++ next_entry pf (last_entry e es) payload_hash ∷ [])).valid ≡ true
verify_chain-append pf e es payload_hash h =
    let (to, from) = verify_chain_iff pf (e ∷ es) in
    let (to', from') =
      verify_chain_iff pf (e ∷ es ++ next_entry pf (last_entry e es) payload_hash ∷ []) in
    from' (append-Intact pf e.seq none e es payload_hash (to h))
