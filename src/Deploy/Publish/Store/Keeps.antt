-- ===== src/Deploy/Publish/Store/Keeps.antt =====
-- What the writes of src/db/repo.ts leave as it is.
use aeo_geo_optimization.Common.{
  ℕ, ◌≤◌, ◌≡◌, refl, String, true, false, ◌&&◌, List, [], ◌∷◌, ◌==◌, any, length, keep, Bool-cases,
  and_right, inl, inr, arith,
}
use aeo_geo_optimization.Deploy.Publish.Store.{
  World, PublishRequest, RegistryRow, PublishStatus, next_fault, attempt, is_live, is_publishing,
  holds_slot, update_publishing,
}

-- A write keeps what it keeps when no query fails.
pub attempt-keeps {ℓ} :
    (P : List PublishRequest → List RegistryRow → Type ℓ) (w : World) (write : World → World)
    → ((v : World) → P v.calls v.registry → P (write v).calls (write v).registry)
    → P w.calls w.registry
    → P (attempt w write).calls (attempt w write).registry
attempt-keeps P w write h p = elim (Bool-cases (next_fault w.faults).0) [
  | inl fails ↦ rw fails p
  | inr works ↦ rw works (h (record w { faults = (next_fault w.faults).1 }) p)
]

-- The number of live rows of an asset and channel.
abbrev pub live_count : String → String → List RegistryRow → ℕ
live_count asset_id channel_class rows = length (keep (holds_slot asset_id channel_class) rows)

publishing-is_live : (s : PublishStatus) → is_publishing s ≡ true → is_live s ≡ true
publishing-is_live s h = ground arith

module _ (asset_id channel_class : String) where
  pub any-live_count :
      (rows : List RegistryRow)
      → any (holds_slot asset_id channel_class) rows ≡ false
      → live_count asset_id channel_class rows ≡ 0
  any-live_count [] h = refl
  any-live_count (r ∷ rows) h = ground (arith, any-live_count rows)

  -- An update adds no live row, whatever a row of its own becomes.
  pub update_publishing-live_count :
      (id : ℕ) (f : RegistryRow → RegistryRow)
      → ((r : RegistryRow) → (f r).asset_id ≡ r.asset_id)
      → ((r : RegistryRow) → (f r).channel_class ≡ r.channel_class)
      → (rows : List RegistryRow)
      → live_count asset_id channel_class (update_publishing id f rows)
        ≤ live_count asset_id channel_class rows
  update_publishing-live_count id f same_asset same_channel [] = omega arith
  update_publishing-live_count id f same_asset same_channel (r ∷ rows) =
      let rest = update_publishing-live_count id f same_asset same_channel rows in
      let asset = same_asset r in
      let channel = same_channel r in
      elim (Bool-cases (r.id == id && is_publishing r.publish_status)) [
        | inl own ↦
            let live =
              publishing-is_live r.publish_status
                (and_right (r.id == id) (is_publishing r.publish_status) own) in
            rw (own, asset, channel, live) (ground arith)
        | inr other ↦ rw other (ground arith)
      ]
