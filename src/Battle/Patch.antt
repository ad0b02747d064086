-- ===== src/Battle/Patch.antt =====
-- What a client is sent of a `BattleRoomCache`: `proto_entry`, `full_entries`,
-- `patch_since` and `battle_missing_fields` of src/relay.rs.
use minecraft_team_viewer_ba.Prelude.{
  Bool, List, Option, [], if◌then◌else◌, is_some, ltb, map, none, not, some, true, ℕ, ◌&&◌, ◌==◌,
  ◌||◌, ◌∷◌,
}
use minecraft_team_viewer_ba.Prelude.Map.{Set, insert, lookup}
use minecraft_team_viewer_ba.Prelude.Text.{Text, codes, missing_names, nat_key, text_key}
use minecraft_team_viewer_ba.Battle.Types.{
  BattleCacheKey, BattleChangeBatch, BattleChunkEntry, BattleChunkPatchScope, BattleChunkUpsert,
  BattleChunkValue, BattleRoomCache, CachedBattleChunk, battle_key_order,
}
use minecraft_team_viewer_ba.Battle.Cache.{saturating_add, to_ref}
use minecraft_team_viewer_ba.Battle.Update.{set_keys}

-- The value that `proto_entry` sends.
unfoldable pub project_value : Bool → BattleChunkValue → BattleChunkValue
project_value include_mode value = record value {
  observed_at = none;
  position_sampled_at = none;
  alignment_source = none;
  reporter_id = none;
  mode = if include_mode then value.mode else none;
}

unfoldable pub proto_entry : Bool → BattleCacheKey → CachedBattleChunk → BattleChunkEntry
unfolding project_value to_ref
proto_entry include_mode key entry = record {
  reference = some (to_ref key);
  payload = some (project_value include_mode entry.value);
}

unfoldable pub full_entries : BattleRoomCache → Bool → List BattleChunkEntry
unfolding proto_entry
full_entries cache include_mode = map (λ e. proto_entry include_mode e.0 e.1) cache.entries

unfoldable pub battle_missing_fields : BattleChunkValue → Bool → List Text
unfolding missing_names
battle_missing_fields value include_mode = missing_names (
    (codes "symbol", not (is_some value.symbol))
    ∷ (codes "markerType", not (is_some value.marker_type))
    ∷ (codes "colorNote", not (is_some value.color_note))
    ∷ (codes "roomCode", not (is_some value.room_code))
    ∷ (codes "colorMode", not (is_some value.color_mode))
    ∷ (codes "colorSemanticKey", not (is_some value.color_semantic_key))
    ∷ (codes "mode", include_mode && not (is_some value.mode))
    ∷ [])

-- The keys of the batches after a revision, in a set.
unfoldable pub insert_keys : List BattleCacheKey → Set BattleCacheKey → Set BattleCacheKey
insert_keys [] s = s
insert_keys (key ∷ keys) s = insert_keys keys (insert key tt s)

unfoldable pub changed_since : ℕ → List BattleChangeBatch → Set BattleCacheKey → Set BattleCacheKey
unfolding insert_keys
changed_since delivered [] s = s
changed_since delivered (batch ∷ rest) s =
    changed_since delivered rest
      (if ltb delivered batch.revision then insert_keys batch.keys s else s)

unfoldable pub patch_upsert : Bool → Bool → BattleCacheKey → CachedBattleChunk → BattleChunkUpsert
unfolding proto_entry battle_missing_fields
patch_upsert include_mode include_clear_fields key entry = record {
  reference = (proto_entry include_mode key entry).reference;
  payload = (proto_entry include_mode key entry).payload;
  clear_fields =
      if include_clear_fields
      then battle_missing_fields (project_value include_mode entry.value) include_mode
      else [];
}

-- The `for` loop of `patch_since`: an upsert for a key that is still cached, a deletion for another.
unfoldable pub patch_for :
    BattleRoomCache → Bool → Bool → List BattleCacheKey → BattleChunkPatchScope
unfolding patch_upsert to_ref
patch_for cache include_mode include_clear_fields [] = record { upsert = []; delete = [] }
patch_for cache include_mode include_clear_fields (key ∷ keys) =
    let rest = patch_for cache include_mode include_clear_fields keys in
    elim (lookup key cache.entries) [
      | none ↦ record rest { delete = to_ref key ∷ rest.delete }
      | some entry ↦ record rest {
        upsert = patch_upsert include_mode include_clear_fields key entry ∷ rest.upsert;
      }
    ]

-- `changes.front().is_none_or(|batch| batch.revision > delivered.saturating_add(1))`
unfoldable pub history_lost : List BattleChangeBatch → ℕ → Bool
unfolding saturating_add
history_lost [] delivered = true
history_lost (batch ∷ rest) delivered = ltb (saturating_add delivered 1) batch.revision

-- `none` asks for a full snapshot, `some none` says that nothing changed.
unfoldable pub patch_since :
    BattleRoomCache → ℕ → Bool → Bool → Option (Option BattleChunkPatchScope)
unfolding history_lost patch_for changed_since
patch_since cache delivered include_mode include_clear_fields =
    if delivered == cache.revision
    then some none
    else if ltb cache.revision delivered || history_lost cache.changes delivered
    then none
    else some (
        some (
          patch_for cache include_mode include_clear_fields
            (set_keys (changed_since delivered cache.changes []))))
