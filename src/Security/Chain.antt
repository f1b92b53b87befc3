-- ===== src/Security/Chain.antt =====
-- The verifier of the hash-chained audit log: src/security/auditChainVerify.ts. A sequence number
-- is a natural one. SHA-256 is passed, and so is the text of a number.
pub mod Intact
pub mod Anchor
use Prim.Native.String
use aeo_geo_optimization.Common.{
  ℕ, ◌+◌, String, Bool, true, false, not, Option, none, some, List, [], ◌∷◌, ◌==◌, text_eq,
  if◌then◌else◌, length,
}

pub record AuditEntry : Type 0 where
  pub seq : ℕ
  pub prev_hash : String
  pub payload_hash : String
  pub hash : String

-- The functions of the platform: SHA-256 of a text in hexadecimal, and a number as a text.
pub record Platform : Type 0 where
  pub sha256_hex : String → String
  pub show : ℕ → String

-- `sha256(${seq}\n${prevHash}\n${payloadHash})`
unfoldable pub compute_entry_hash : Platform → ℕ → String → String → String
compute_entry_hash pf seq prev_hash payload_hash = pf.sha256_hex (
    String.◌++◌ (String.◌++◌ (pf.show seq) "\n")
      (String.◌++◌ (String.◌++◌ prev_hash "\n") payload_hash))

pub data Reason : Type 0 where
  ok empty_chain : Reason
  seq_discontinuity : ℕ → ℕ → Reason
  prev_hash_link_broken : ℕ → Reason
  hash_mismatch : ℕ → Reason

pub record ChainVerification : Type 0 where
  pub valid : Bool
  pub broken_at : Option ℕ
  pub reason : Reason
  pub length : ℕ
  pub head_hash : Option String

abbrev pub last_entry : AuditEntry → List AuditEntry → AuditEntry
last_entry e [] = e
last_entry e (f ∷ es) = last_entry f es

-- `i === 0`, or the stored hash of the previous entry is the same.
abbrev pub links : Option String → AuditEntry → Bool
links none e = true
links (some h) e = text_eq e.prev_hash h

-- The loop: the first entry that fails a check, and the reason.
unfoldable pub check_from : Platform → ℕ → Option String → List AuditEntry → Option (ℕ × Reason)
check_from pf expected prev [] = none
check_from pf expected prev (e ∷ es) =
    let rest = check_from pf (expected + 1) (some e.hash) es in
    if not (e.seq == expected)
    then some (e.seq, seq_discontinuity expected e.seq)
    else (if not (links prev e)
        then some (e.seq, prev_hash_link_broken e.seq)
        else (if not (text_eq (compute_entry_hash pf e.seq e.prev_hash e.payload_hash) e.hash)
            then some (e.seq, hash_mismatch e.seq)
            else rest))

abbrev pub verification : ℕ → String → Option (ℕ × Reason) → ChainVerification
verification n head none = record {
  valid = true;
  broken_at = none;
  reason = ok;
  length = n;
  head_hash = some head;
}
verification n head (some (seq, reason)) = record {
  valid = false;
  broken_at = some seq;
  reason = reason;
  length = n;
  head_hash = some head;
}

unfoldable pub verify_chain : Platform → List AuditEntry → ChainVerification
unfolding check_from
verify_chain pf [] = record {
  valid = true;
  broken_at = none;
  reason = empty_chain;
  length = 0;
  head_hash = none;
}
verify_chain pf (e ∷ es) =
    verification (length (e ∷ es)) (last_entry e es).hash (check_from pf e.seq none (e ∷ es))

pub record ExternalAnchor : Type 0 where
  pub seq : ℕ
  pub hash : String

abbrev pub compute_head_anchor : List AuditEntry → Option ExternalAnchor
compute_head_anchor [] = none
compute_head_anchor (e ∷ es) =
    let last = last_entry e es in some (record { seq = last.seq; hash = last.hash })

pub data TruncationCheck : Type 0 where
  anchored : TruncationCheck
  truncated : ℕ → TruncationCheck
  rewritten : ℕ → TruncationCheck

-- `entries.find(...)`
unfoldable pub find_seq : ℕ → List AuditEntry → Option AuditEntry
find_seq seq [] = none
find_seq seq (e ∷ es) = let rest = find_seq seq es in if e.seq == seq then some e else rest

abbrev pub compare_anchor : ExternalAnchor → Option AuditEntry → TruncationCheck
compare_anchor a none = truncated a.seq
compare_anchor a (some found) = if text_eq found.hash a.hash then anchored else rewritten a.seq

unfoldable pub detect_truncation : List AuditEntry → ExternalAnchor → TruncationCheck
unfolding find_seq
detect_truncation entries anchor = compare_anchor anchor (find_seq anchor.seq entries)
