-- ===== src/Pipeline/Store/Cursors.antt =====
-- Cursors that are moved and read back: src/db/repo.ts.
use aeo_geo_optimization.Common.{
  ℕ, ◌≡◌, refl, sym, ap, String, Bool, true, false, ◌&&◌, List, [], ◌∷◌, text_eq, text_eq_iff,
  text_eq_refl, Bool-cases, and_left, and_right, inl, inr, if◌then◌else◌,
}
use aeo_geo_optimization.Domain.{DensityTier, core, secondary, longtail, tier_eq, tier_eq_sound}
use aeo_geo_optimization.Pipeline.Store.{Db, returned, query, CursorRow}
use aeo_geo_optimization.Pipeline.Store.Cycles.{
  find_cursor, set_cursor, read_rotation_state, advance_rotation_state,
}

tier_eq_refl : (t : DensityTier) → tier_eq t t ≡ true
tier_eq_refl core = refl
tier_eq_refl secondary = refl
tier_eq_refl longtail = refl

-- The cursor of this customer and tier.
abbrev is_cursor : String → DensityTier → CursorRow → Bool
is_cursor customer tier c = text_eq c.customer_id customer && tier_eq c.density_tier tier

find_cursor-own :
    (customer : String) (tier : DensityTier) (n : ℕ) (cursors : List CursorRow)
    → find_cursor customer tier (set_cursor customer tier n cursors) ≡ n
find_cursor-own customer tier n [] = rw (text_eq_refl customer, tier_eq_refl tier) refl
find_cursor-own customer tier n (c ∷ cursors) = elim (Bool-cases (is_cursor customer tier c)) [
  | inl own ↦ rw (own, own) refl
  | inr other ↦ rw (other, other) (find_cursor-own customer tier n cursors)
]

-- A row of one customer and tier is no row of another.
is_cursor-other :
    (customer other : String) (tier s : DensityTier) (c : CursorRow)
    → (text_eq customer other && tier_eq tier s) ≡ false
    → is_cursor customer tier c ≡ true
    → is_cursor other s c ≡ false
is_cursor-other customer other tier s c differ own =
    let same_customer = (text_eq_iff c.customer_id customer).0 (and_left _ _ own) in
    let same_tier = tier_eq_sound c.density_tier tier (and_right _ _ own) in
    rw (same_customer, same_tier) differ

find_cursor-other :
    (customer other : String) (tier s : DensityTier) (n : ℕ) (cursors : List CursorRow)
    → (text_eq customer other && tier_eq tier s) ≡ false
    → find_cursor other s (set_cursor customer tier n cursors) ≡ find_cursor other s cursors
find_cursor-other customer other tier s n [] differ = rw differ refl
find_cursor-other customer other tier s n (c ∷ cursors) differ =
    elim (Bool-cases (is_cursor customer tier c)) [
      | inl own ↦ let no = is_cursor-other customer other tier s c differ own in rw (own, no) refl
      | inr miss ↦ rw (miss, find_cursor-other customer other tier s n cursors differ) refl
    ]

-- A cursor that is moved is read back as it was set, and the cursors of the other customers and tiers
-- are read as before, when no query fails.
pub advance-read :
    (customer other : String) (tier s : DensityTier) (n : ℕ) (db : Db)
    → (read_rotation_state other s
        (advance_rotation_state customer tier n (record db { faults = [] })).1).0
      ≡ returned
          (if text_eq customer other && tier_eq tier s then n else find_cursor other s db.cursors)
unfolding read_rotation_state advance_rotation_state query
advance-read customer other tier s n db =
    elim (Bool-cases (text_eq customer other && tier_eq tier s)) [
      | inl same ↦
          let c = (text_eq_iff customer other).0 (and_left _ _ same) in
          let t = tier_eq_sound tier s (and_right _ _ same) in
          rw (same, sym c, sym t) (ap returned (find_cursor-own customer tier n db.cursors))
      | inr differ ↦
          rw differ (ap returned (find_cursor-other customer other tier s n db.cursors differ))
    ]
