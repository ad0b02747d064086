-- ===== src/Snapshot/Payload.antt =====
-- `state_payload_for_profile_with_battle` of src/relay.rs: what one client is sent in one broadcast.
use minecraft_team_viewer_ba.Snapshot.Strip.{patch_is_empty, strip_player_positions}
use minecraft_team_viewer_ba.Snapshot.Adapt.{adapt_outbound_patch}
use minecraft_team_viewer_ba.Objects.Fields.{F64}
use minecraft_team_viewer_ba.Battle.Patch.{full_entries, patch_since}
use minecraft_team_viewer_ba.Battle.Types.{
  BattleChunkEntry, BattleChunkPatchScope, BattleRoomCache, battle_key_order,
}
use minecraft_team_viewer_ba.Compat.Profile.{ProtocolProfile, supports_battle_chunk_mode}
use minecraft_team_viewer_ba.Snapshot.Diff.{Same, build_patch}
use minecraft_team_viewer_ba.Snapshot.Types.{Patch, SnapshotFull, default_patch}
use minecraft_team_viewer_ba.Prelude.{
  Bool, List, Option, [], if◌then◌else◌, none, some, true, unwrap_or, ℕ, ◌==◌,
}

-- `wire_envelope::Payload`, as far as the state goes.
pub data Payload : Type 0 where
  snapshot_full : SnapshotFull → Payload
  patch_payload : Patch → Payload

-- `delivered_battle_revision != battle_revision` and the patch of the cache for it: `none` when the
-- client needs the whole cache.
unfoldable pub battle_patch_for :
    ProtocolProfile → ℕ → Option BattleRoomCache → Option (Option BattleChunkPatchScope)
unfolding patch_since
battle_patch_for profile delivered_revision none =
    if delivered_revision == 0 then some none else none
battle_patch_for profile delivered_revision (some cache) =
    if delivered_revision == cache.revision
    then some none
    else patch_since cache delivered_revision (supports_battle_chunk_mode profile) true

unfoldable pub full_chunks : ProtocolProfile → Option BattleRoomCache → List BattleChunkEntry
full_chunks profile none = []
full_chunks profile (some cache) = full_entries cache (supports_battle_chunk_mode profile)

-- The snapshot with all chunks of the cache.
unfoldable pub full_payload : ProtocolProfile → SnapshotFull → Option BattleRoomCache → Payload
unfolding full_chunks
full_payload profile target cache =
    snapshot_full (record target { battle_chunks = full_chunks profile cache })

-- `patch.get_or_insert_with(Patch::default).battle_chunks = Some(..)`
unfoldable pub with_battle : Option BattleChunkPatchScope → Option Patch → Option Patch
with_battle none patch = patch
with_battle (some chunks) patch =
    some (record (unwrap_or patch default_patch) { battle_chunks = some chunks })

module _ (same : Same) (same_f64 : F64 → F64 → Bool) where
  -- The end of the function, on a patch.
  unfoldable pub finish_patch :
      ProtocolProfile → Bool → SnapshotFull → Option Patch → Option Payload
  unfolding adapt_outbound_patch strip_player_positions patch_is_empty
  finish_patch profile strip_positions delivered none = none
  finish_patch profile strip_positions delivered (some patch) =
      let stripped = strip_player_positions same_f64 delivered patch in
      if strip_positions
      then if patch_is_empty stripped
        then none
        else some (patch_payload (adapt_outbound_patch profile stripped))
      else some (patch_payload (adapt_outbound_patch profile patch))

  -- The rest of the function for a client with a delivered snapshot, from the answer of the cache.
  unfoldable pub payload_from :
      ProtocolProfile
      → Bool
      → SnapshotFull
      → Bool
      → SnapshotFull
      → Option BattleRoomCache
      → Option (Option BattleChunkPatchScope)
      → Option Payload
  unfolding full_payload build_patch with_battle finish_patch
  payload_from profile force_full delivered strip_positions target cache none =
      some (full_payload profile target cache)
  payload_from profile force_full delivered strip_positions target cache (some battle_patch) =
      if force_full
      then some (full_payload profile target cache)
      else finish_patch profile strip_positions delivered
          (with_battle battle_patch (build_patch same delivered target))

  unfoldable pub state_payload :
      ProtocolProfile
      → Bool
      → Option SnapshotFull
      → ℕ
      → Bool
      → SnapshotFull
      → Option BattleRoomCache
      → Option Payload
  unfolding battle_patch_for payload_from
  state_payload profile force_full none delivered_revision strip_positions target cache =
      some (full_payload profile target cache)
  state_payload profile force_full (some delivered) delivered_revision strip_positions target
        cache =
      payload_from profile force_full delivered strip_positions target cache
        (battle_patch_for profile delivered_revision cache)
