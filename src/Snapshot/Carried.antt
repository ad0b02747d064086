-- ===== src/Snapshot/Carried.antt =====
-- Whether the player upserts that `strip_player_positions` of src/relay.rs reads carry a delta, which its
-- `expect` asks for.
use minecraft_team_viewer_ba.Snapshot.Payload.{with_battle}
use minecraft_team_viewer_ba.Battle.Types.{BattleChunkPatchScope, battle_key_order}
use minecraft_team_viewer_ba.Prelude.Map.{Map, lookup}
use minecraft_team_viewer_ba.Objects.Player.{PlayerData, PlayerDelta}
use minecraft_team_viewer_ba.Objects.Table.{
  ObjectUpsert, deletes_of, is_changed, map_patch, nonempty_patch, object_upsert, player_kind,
  upserts_of,
}
use minecraft_team_viewer_ba.Snapshot.Diff.{
  Same, Texts-discrete, build_patch, has_no_scope, scopes_patch, to_scope,
}
use minecraft_team_viewer_ba.Snapshot.Types.{Patch, PatchScope, SnapshotFull}
use minecraft_team_viewer_ba.Prelude.{
  All, Bool, Bool-cases, List, Option, [], false, if◌then◌else◌, inl, inr, is_some, ite, map_option,
  none, not, refl, some, true, ◌&&◌, ◌∷◌, ◌≡◌,
}
use minecraft_team_viewer_ba.Prelude.Text.{Text, nat_key, text_key}

-- Every upsert carries a delta.
abbrev CarryDeltas : List (ObjectUpsert PlayerDelta) → Type 0
CarryDeltas upserts = All (λ u. is_some u.payload ≡ true) upserts

abbrev ScopeCarries : Option (PatchScope PlayerDelta) → Type 0
ScopeCarries none = Unit {0}
ScopeCarries (some scope) = CarryDeltas scope.upsert

abbrev pub PatchCarries : Option Patch → Type 0
PatchCarries none = Unit {0}
PatchCarries (some patch) = ScopeCarries patch.players

upserts_of-CarryDeltas :
    (same : PlayerData → PlayerData → Bool) (old new : Map Text PlayerData)
    → CarryDeltas (upserts_of same (object_upsert player_kind) old new)
unfolding upserts_of object_upsert
upserts_of-CarryDeltas same old [] = tt
upserts_of-CarryDeltas same old ((id, value) ∷ new) =
    elim (Bool-cases (is_changed same (lookup id old) value)) [
      | inl e ↦ rw e (refl, upserts_of-CarryDeltas same old new)
      | inr e ↦ rw e (upserts_of-CarryDeltas same old new)
    ]

map_patch-ScopeCarries :
    (same : PlayerData → PlayerData → Bool) (old new : Map Text PlayerData)
    → ScopeCarries (map_option to_scope (map_patch same (object_upsert player_kind) old new))
unfolding map_patch nonempty_patch
map_patch-ScopeCarries same old new =
    scope (upserts_of same (object_upsert player_kind) old new)
      (deletes_of same (object_upsert player_kind) old new) (upserts_of-CarryDeltas same old new)
  where
    scope :
        (upserts : List (ObjectUpsert PlayerDelta)) (deletes : List Text)
        → CarryDeltas upserts
        → ScopeCarries
            (map_option to_scope (nonempty_patch same (object_upsert player_kind) upserts deletes))
    scope [] [] c = tt
    scope [] (id ∷ ids) c = tt
    scope (u ∷ us) ids c = c

build_patch-PatchCarries :
    (same : Same) (old new : SnapshotFull) → PatchCarries (build_patch same old new)
unfolding build_patch scopes_patch
build_patch-PatchCarries same old new =
    either
      (has_no_scope same (scopes_patch same old new connections_changed) && not connections_changed)
  where
    connections_changed : Bool
    connections_changed = ite (Texts-discrete old.connections new.connections) false true

    either :
        (skipped : Bool)
        → PatchCarries
            (if skipped then none else some (scopes_patch same old new connections_changed))
    either true = tt
    either false = map_patch-ScopeCarries same.player old.players new.players

-- The patch between two snapshots, with the battle chunks of a room put in or not, carries a delta in each
-- of its player upserts, so that the `expect` of `strip_player_positions` does not fail on it.
pub with_battle-PatchCarries :
    (same : Same) (battle : Option BattleChunkPatchScope) (old new : SnapshotFull)
    → PatchCarries (with_battle battle (build_patch same old new))
with_battle-PatchCarries same battle old new =
    kept battle (build_patch same old new) (build_patch-PatchCarries same old new)
  where
    kept :
        (scope : Option BattleChunkPatchScope) (patch : Option Patch)
        → PatchCarries patch
        → PatchCarries (with_battle scope patch)
    kept none patch c = unfold with_battle in c
    kept (some scope) none c = unfold with_battle in tt
    kept (some scope) (some patch) c = unfold with_battle in c
