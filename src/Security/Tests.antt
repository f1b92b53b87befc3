-- ===== src/Security/Tests.antt =====
-- An audit chain of two entries, and the theorems of src/security at it.

use aeo_geo_optimization.Common.{◌≡◌, ◌↔◌, refl, List, [], ◌∷◌, ◌++◌, ◌⊎◌, true, text_eq}
use aeo_geo_optimization.Security.Chain.{
  AuditEntry, Platform, compute_entry_hash, verify_chain, detect_truncation, ExternalAnchor,
  anchored,
}
use aeo_geo_optimization.Security.Chain.Intact.{IsIntact, verify_chain_iff}
use aeo_geo_optimization.Security.Chain.Anchor.{Clash, detect_truncation_sound}

-- The text itself stands for its hash.
abbrev plain : Platform
plain = record { sha256_hex = λ s. s; show = λ n. "n" }

abbrev genesis : AuditEntry
genesis = record { seq = 0; prev_hash = ""; payload_hash = "p0"; hash = "n\n\np0" }

abbrev second : AuditEntry
second = record { seq = 1; prev_hash = "n\n\np0"; payload_hash = "p1"; hash = "n\nn\n\np0\np1" }

genesis_valid : (verify_chain plain (genesis ∷ [])).valid ≡ true
unfolding verify_chain compute_entry_hash text_eq
genesis_valid = refl

both_valid : (verify_chain plain (genesis ∷ second ∷ [])).valid ≡ true
unfolding verify_chain compute_entry_hash text_eq
both_valid = refl

verify_chain_iff_example :
    ((verify_chain plain (genesis ∷ second ∷ [])).valid ≡ true)
    ↔ IsIntact plain (genesis ∷ second ∷ [])
verify_chain_iff_example = verify_chain_iff plain (genesis ∷ second ∷ [])

abbrev anchor : ExternalAnchor
anchor = record { seq = 0; hash = "n\n\np0" }

anchor_found : detect_truncation (genesis ∷ second ∷ []) anchor ≡ anchored
unfolding detect_truncation text_eq
anchor_found = refl

detect_truncation_sound_example :
    ((rest : List AuditEntry) × (genesis ∷ second ∷ [] ≡ genesis ∷ [] ++ rest))
    ⊎ Clash plain (genesis ∷ second ∷ []) (genesis ∷ [])
detect_truncation_sound_example =
    detect_truncation_sound plain genesis genesis [] (second ∷ []) anchor genesis_valid both_valid
      refl refl anchor_found
