-- ===== src/Snapshot/Receiving.antt =====
-- What a client makes of a payload of src/relay.rs at a key of the battle chunks, also of one that was
-- rebuilt for an older peer or stripped of positions.
use minecraft_team_viewer_ba.Snapshot.Rebuilding.{FromCache, apply_patch-rebuild}
use minecraft_team_viewer_ba.Battle.Merge.{project_option}
use minecraft_team_viewer_ba.Compat.Profile.{ProtocolProfile, supports_clear_fields}
use minecraft_team_viewer_ba.Objects.Fields.{F64}
use minecraft_team_viewer_ba.Battle.Client.{
  Copy, apply_patch, copy_of, refers, refers-to_ref_ne, refers-to_ref_self, upsert_of,
}
use minecraft_team_viewer_ba.Battle.Patch.{full_entries, project_value, proto_entry}
use minecraft_team_viewer_ba.Battle.Types.{
  BattleCacheKey, BattleCacheKey-discrete, BattleChunkEntry, BattleChunkPatchScope,
  BattleChunkValue, BattleRoomCache, CachedBattleChunk, battle_key_order,
}
use minecraft_team_viewer_ba.Objects.Table.{map_patch}
use minecraft_team_viewer_ba.Prelude.Map.{Map, lookup}
use minecraft_team_viewer_ba.Snapshot.Adapt.{adapt_outbound_patch, rebuild_chunks}
use minecraft_team_viewer_ba.Snapshot.Diff.{
  Same, battle_upsert, build_patch, keyed_chunks, scopes_patch,
}
use minecraft_team_viewer_ba.Snapshot.Payload.{Payload, patch_payload, snapshot_full}
use minecraft_team_viewer_ba.Snapshot.Strip.{patch_is_empty, strip_player_positions}
use minecraft_team_viewer_ba.Snapshot.Types.{Patch, SnapshotFull}
use minecraft_team_viewer_ba.Prelude.{
  Bool, Bool-cases, List, Option, [], arith, false, if◌then◌else◌, inl, inr, map, map_option, none,
  refl, some, true, ◌∷◌, ◌≡◌,
}
use minecraft_team_viewer_ba.Prelude.Text.{nat_key, text_key}

-- A client's copy after a full snapshot.
unfoldable pub entries_copy : List BattleChunkEntry → Copy
entries_copy [] k = none
entries_copy (e ∷ es) k = elim e.reference [
  | none ↦ entries_copy es k
  | some reference ↦ if refers k reference then e.payload else entries_copy es k
]

unfoldable pub patch_copy : Bool → Option BattleChunkPatchScope → Copy → Copy
patch_copy knows none copy = copy
patch_copy knows (some scope) copy = apply_patch knows scope copy

-- The flag says whether the client knows `clear_fields`.
unfoldable pub receive_payload : Bool → Option Payload → Copy → Copy
unfolding entries_copy patch_copy
receive_payload knows none copy = copy
receive_payload knows (some (snapshot_full s)) copy = entries_copy s.battle_chunks
receive_payload knows (some (patch_payload p)) copy = patch_copy knows p.battle_chunks copy

entries_copy-full :
    (mode : Bool) (k : BattleCacheKey) (es : Map BattleCacheKey CachedBattleChunk)
    → entries_copy (map (λ e. proto_entry mode e.0 e.1) es) k
      ≡ elim (lookup k es) [ none ↦ none | some entry ↦ some (project_value mode entry.value) ]
unfolding entries_copy lookup proto_entry
entries_copy-full mode k [] = refl
entries_copy-full mode k ((j, entry) ∷ es) = elim (BattleCacheKey-discrete j k) [
  | yes same ↦ rw same (ground (arith, refers-to_ref_self k))
  | no other ↦ ground (arith, entries_copy-full mode k es, refers-to_ref_ne j k other)
]

pub entries_copy-full_entries :
    (c : BattleRoomCache) (mode : Bool) (k : BattleCacheKey)
    → entries_copy (full_entries c mode) k ≡ copy_of c mode k
unfolding full_entries copy_of
entries_copy-full_entries c mode k = entries_copy-full mode k c.entries

abbrev pub AllFromCache : Bool → BattleCacheKey → Option BattleChunkPatchScope → Type 0
AllFromCache mode k none = Unit {0}
AllFromCache mode k (some scope) = FromCache mode k (upsert_of k scope.upsert)

module _ (mode : Bool) (k : BattleCacheKey) (raw : Option BattleChunkValue) where
  pub adapted :
      (profile : ProtocolProfile) (patch : Patch) (copy : Copy)
      → copy k ≡ project_option mode raw
      → AllFromCache mode k patch.battle_chunks
      → patch_copy
          (supports_clear_fields profile)
          (adapt_outbound_patch profile patch).battle_chunks
          copy
          k
        ≡ patch_copy true patch.battle_chunks copy k
  unfolding adapt_outbound_patch
  adapted profile patch copy shown p = elim (Bool-cases (supports_clear_fields profile)) [
    | inl h ↦ rw h refl
    | inr h ↦ rw h (rebuilt_copy patch.battle_chunks p)
  ]
    where
      rebuilt_copy :
          (chunks : Option BattleChunkPatchScope)
          → AllFromCache mode k chunks
          → patch_copy false (map_option rebuild_chunks chunks) copy k
            ≡ patch_copy true chunks copy k
      rebuilt_copy none q = unfold patch_copy in refl
      rebuilt_copy (some scope) q =
          unfold patch_copy in
          apply_patch-rebuild mode k raw scope copy shown (upsert_of k scope.upsert) refl q

abbrev pub chunks_of : Option Patch → Option BattleChunkPatchScope
chunks_of none = none
chunks_of (some patch) = patch.battle_chunks

pub strip-battle_chunks :
    (same_f64 : F64 → F64 → Bool) (delivered : SnapshotFull) (patch : Patch)
    → (strip_player_positions same_f64 delivered patch).battle_chunks ≡ patch.battle_chunks
unfolding strip_player_positions
strip-battle_chunks same_f64 delivered patch = ground arith

pub empty-battle_chunks : (patch : Patch) → patch_is_empty patch ≡ true → patch.battle_chunks ≡ none
unfolding patch_is_empty
empty-battle_chunks patch h = ground arith

no_chunks :
    (same : Same) (old new : List BattleChunkEntry)
    → old ≡ []
    → new ≡ []
    → map_patch same.battle_chunk battle_upsert (keyed_chunks old []) (keyed_chunks new []) ≡ none
unfolding map_patch keyed_chunks
no_chunks same old new e e' = rw (e, e') refl

pub build_patch-chunks :
    (same : Same) (old new : SnapshotFull)
    → old.battle_chunks ≡ []
    → new.battle_chunks ≡ []
    → chunks_of (build_patch same old new) ≡ none
unfolding build_patch scopes_patch
build_patch-chunks same old new e e' =
    ground (arith, no_chunks same old.battle_chunks new.battle_chunks e e')
