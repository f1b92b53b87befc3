-- ===== src/Security/Chain/Anchor.antt =====
-- What a published anchor tells of a later audit chain: src/security/auditChainVerify.ts.
use mathlib.Core.List.{Memᴰ}
use aeo_geo_optimization.Common.{
  ℕ, ◌+◌, ◌≤◌, ◌≡◌, ◌≢◌, refl, sym, ◌∙◌, ap, String, true, false, Option, none, some, List, [], ◌∷◌,
  ◌++◌, ◌==◌, text_eq, text_eq_iff, arith, Bool-cases, inl, inr, ◌⊎◌, some-injective,
}
use aeo_geo_optimization.Security.Chain.{
  AuditEntry, Platform, compute_entry_hash, verify_chain, last_entry, ExternalAnchor,
  compute_head_anchor, find_seq, detect_truncation, compare_anchor, anchored,
}
use aeo_geo_optimization.Security.Chain.Intact.{Intact, IsIntact, verify_chain_iff}

-- An entry of the first chain and one of the second have one number and one hash, as it is computed, but
-- differ in the hash of the previous entry or of the payload.
abbrev pub Clash : Platform → List AuditEntry → List AuditEntry → Type 0
Clash pf live old =
    (e : AuditEntry) × (f : AuditEntry) × Memᴰ e live
    × Memᴰ f old
    × (e.seq ≡ f.seq)
    × (compute_entry_hash pf e.seq e.prev_hash e.payload_hash
        ≡ compute_entry_hash pf f.seq f.prev_hash f.payload_hash)
    × ((e.prev_hash ≢ f.prev_hash) ⊎ (e.payload_hash ≢ f.payload_hash))

-- Two entries of one sequence number and one hash are the same, or they clash.
same_entry :
    (pf : Platform) (e f : AuditEntry) (live old : List AuditEntry)
    → e.seq ≡ f.seq
    → compute_entry_hash pf e.seq e.prev_hash e.payload_hash ≡ e.hash
    → compute_entry_hash pf f.seq f.prev_hash f.payload_hash ≡ f.hash
    → e.hash ≡ f.hash
    → (e ≡ f) ⊎ Clash pf (e ∷ live) (f ∷ old)
same_entry pf e f live old seq he hf same = elim (Bool-cases (text_eq e.prev_hash f.prev_hash)) [
  | inr apart ↦
      inr (differ (inl (λ p. ground (arith, (text_eq_iff e.prev_hash f.prev_hash).1 p, apart))))
  | inl prev ↦ elim (Bool-cases (text_eq e.payload_hash f.payload_hash)) [
    | inr apart ↦
        inr (
          differ
            (inr (λ p. ground (arith, (text_eq_iff e.payload_hash f.payload_hash).1 p, apart))))
    | inl payload ↦
        let prev_path = (text_eq_iff e.prev_hash f.prev_hash).0 prev in
        let payload_path = (text_eq_iff e.payload_hash f.payload_hash).0 payload in
        inl (λ i. record {
          seq = seq i;
          prev_hash = prev_path i;
          payload_hash = payload_path i;
          hash = same i;
        })
  ]
]
  where
    differ :
        ((e.prev_hash ≢ f.prev_hash) ⊎ (e.payload_hash ≢ f.payload_hash))
        → Clash pf (e ∷ live) (f ∷ old)
    differ apart = (e, f, Memᴰ.head refl, Memᴰ.head refl, seq, he ∙ same ∙ sym hf, apart)

Clash-later :
    (pf : Platform) (e f : AuditEntry) (live old : List AuditEntry)
    → Clash pf live old
    → Clash pf (e ∷ live) (f ∷ old)
Clash-later pf e f live old (a, b, in_live, in_old, seq, hash, apart) =
    (a, b, Memᴰ.tail in_live, Memᴰ.tail in_old, seq, hash, apart)

last-seq :
    (pf : Platform) (from : ℕ) (prev : Option String) (e : AuditEntry) (es : List AuditEntry)
    → Intact pf from prev (e ∷ es)
    → from ≤ (last_entry e es).seq
last-seq pf from prev e [] (seq, _, _, _) = omega (arith, seq)
last-seq pf from prev e (f ∷ es) (seq, link, hash, rest) =
    omega (arith, last-seq pf (from + 1) (some e.hash) f es rest)

-- The live chain has, under the number of the old chain's head, its hash.
abbrev Keeps : List AuditEntry → AuditEntry → Type 0
Keeps live head = (e : AuditEntry) × (find_seq head.seq live ≡ some e) × (e.hash ≡ head.hash)

abbrev Extends : Platform → List AuditEntry → List AuditEntry → Type 0
Extends pf live old = ((rest : List AuditEntry) × (live ≡ old ++ rest)) ⊎ Clash pf live old

Extends-from :
    (pf : Platform) (from : ℕ) (prev prev' : Option String) (o : AuditEntry)
    (old live : List AuditEntry)
    → Intact pf from prev (o ∷ old)
    → Intact pf from prev' live
    → Keeps live (last_entry o old)
    → Extends pf live (o ∷ old)
unfolding find_seq
Extends-from pf from prev prev' o old [] io il (e, found, same) = ground (arith, found)
Extends-from pf from prev prev' o [] (l ∷ live) (so, _, ho, _) (sl, _, hl, _) (e, found, same) =
    let here : (l.seq == o.seq) ≡ true = ground (arith, so, sl) in
    let this : l ≡ e = some-injective (rw here at found) in
    elim (same_entry pf l o live _ (sl ∙ sym so) hl ho
      (ap (λ (x : AuditEntry). x.hash) this ∙ same)) [
        | inl path ↦ inl (live, ap (λ x. x ∷ live) path)
        | inr clash ↦ inr clash
      ]
Extends-from pf from prev prev' o (p ∷ old) (l ∷ live) (so, _, ho, ro) (sl, _, hl, rl)
      (e, found, same) =
    let above = last-seq pf (from + 1) (some o.hash) p old ro in
    let apart : (l.seq == (last_entry p old).seq) ≡ false = ground (arith, sl, above) in
    let later = rw apart at found in
    elim (Extends-from pf (from + 1) (some o.hash) (some l.hash) p old live ro rl
      (e, later, same)) [
        | inr clash ↦ inr (Clash-later pf l o live (p ∷ old) clash)
        | inl (rest, path) ↦
            let (_, names_live, _, _) = rw path at rl in
            let (_, names_old, _, _) = ro in
            elim (same_entry pf l o live (p ∷ old) (sl ∙ sym so) hl ho
              (sym names_live ∙ names_old)) [
                | inl first ↦ inl (rest, λ i. first i ∷ path i)
                | inr clash ↦ inr clash
              ]
      ]

anchored-Keeps :
    (live : List AuditEntry) (seq : ℕ) (head : String) (found : Option AuditEntry)
    → compare_anchor (record { seq = seq; hash = head }) found ≡ anchored
    → (e : AuditEntry) × (found ≡ some e) × (e.hash ≡ head)
anchored-Keeps live seq head none h = ground (arith, h)
anchored-Keeps live seq head (some e) h = elim (Bool-cases (text_eq e.hash head)) [
  | inl same ↦ (e, refl, (text_eq_iff e.hash head).0 same)
  | inr apart ↦ ground (arith, apart, h)
]

Intact-from :
    (pf : Platform) (prev : Option String) (es : List AuditEntry) (m n : ℕ)
    → m ≡ n
    → Intact pf m prev es
    → Intact pf n prev es
Intact-from pf prev es m n same h = rw (← same) h

-- If the verifier accepts an old chain and a live one that begin at the same sequence number, and
-- the check against the old chain's anchor reports neither truncation nor a rewrite, then the live
-- chain is the old one with entries added at its end, or an entry of the live chain and one of the old
-- chain with the same number have the same computed hash though they differ in the hash of the previous
-- entry or of the payload.
pub detect_truncation_sound :
    (pf : Platform) (o l : AuditEntry) (old live : List AuditEntry) (a : ExternalAnchor)
    → (verify_chain pf (o ∷ old)).valid ≡ true
    → (verify_chain pf (l ∷ live)).valid ≡ true
    → l.seq ≡ o.seq
    → compute_head_anchor (o ∷ old) ≡ some a
    → detect_truncation (l ∷ live) a ≡ anchored
    → ((rest : List AuditEntry) × (l ∷ live ≡ o ∷ old ++ rest)) ⊎ Clash pf (l ∷ live) (o ∷ old)
unfolding detect_truncation
detect_truncation_sound pf o l old live a vo vl begin head check =
    let (intact_old, _) = verify_chain_iff pf (o ∷ old) in
    let live_intact : IsIntact pf (l ∷ live) = (verify_chain_iff pf (l ∷ live)).0 vl in
    let anchor : record { seq = (last_entry o old).seq; hash = (last_entry o old).hash } ≡ a =
      some-injective head in
    let (e, found, same) =
      anchored-Keeps (l ∷ live) a.seq a.hash (find_seq a.seq (l ∷ live)) check in
    Extends-from pf o.seq none none o old (l ∷ live) (intact_old vo)
      (Intact-from pf none (l ∷ live) l.seq o.seq begin live_intact)
      (
        e,
        ap (λ (x : ExternalAnchor). find_seq x.seq (l ∷ live)) anchor ∙ found,
        same ∙ sym (ap (λ (x : ExternalAnchor). x.hash) anchor),
      )
