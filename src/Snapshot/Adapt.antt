-- ===== src/Snapshot/Adapt.antt =====
-- `adapt_outbound_patch` of src/protocol_compat.rs: for a peer that does not know `clear_fields`, an
-- object with cleared fields is deleted and sent anew.
use minecraft_team_viewer_ba.Battle.Update.{is_empty, upsert}
use minecraft_team_viewer_ba.Battle.Types.{
  BattleChunkPatchScope, BattleChunkRef, BattleChunkUpsert, battle_key_order,
}
use minecraft_team_viewer_ba.Compat.Profile.{ProtocolProfile, supports_clear_fields}
use minecraft_team_viewer_ba.Objects.Table.{ObjectUpsert}
use minecraft_team_viewer_ba.Prelude.Text.{Text, Text-discrete, nat_key, text_key}
use minecraft_team_viewer_ba.Snapshot.Types.{Patch, PatchScope}
use minecraft_team_viewer_ba.Prelude.{
  List, Option, [], contains, if◌then◌else◌, map_option, none, some, ℕ_discrete, ◌++◌, ◌∷◌,
}

unfoldable pub BattleChunkRef-discrete : Discrete BattleChunkRef
unfolding ℕ_discrete
BattleChunkRef-discrete = hlevel ℕ_discrete

-- `if !delete.contains(id) { delete.push(id) }`
unfoldable pub push_new : {A : Type 0} → Discrete A → A → List A → List A
unfolding contains
push_new eq id delete = if contains eq id delete then delete else delete ++ id ∷ []

-- The loop over a scope's upserts, with its list of deletions.
unfoldable pub rebuild_upserts :
    {D : Type 0} → List (ObjectUpsert D) → List Text → List (ObjectUpsert D) × List Text
rebuild_upserts [] delete = ([], delete)
rebuild_upserts (upsert ∷ upserts) delete =
    let rest =
      rebuild_upserts upserts (
        if is_empty upsert.clear_fields then delete else push_new Text-discrete upsert.id delete) in
    (record upsert { clear_fields = [] } ∷ rest.0, rest.1)

unfoldable pub rebuild_scope : {D : Type 0} → PatchScope D → PatchScope D
unfolding rebuild_upserts
rebuild_scope scope =
    let result = rebuild_upserts scope.upsert scope.delete in
    record { upsert = result.0; delete = result.1 }

-- The same loop over battle chunks, which are named by references.
unfoldable pub push_reference : Option BattleChunkRef → List BattleChunkRef → List BattleChunkRef
unfolding BattleChunkRef-discrete
push_reference none delete = delete
push_reference (some reference) delete = push_new BattleChunkRef-discrete reference delete

unfoldable pub rebuild_chunk_upserts :
    List BattleChunkUpsert → List BattleChunkRef → List BattleChunkUpsert × List BattleChunkRef
rebuild_chunk_upserts [] delete = ([], delete)
rebuild_chunk_upserts (upsert ∷ upserts) delete =
    let rest =
      rebuild_chunk_upserts upserts
        (if is_empty upsert.clear_fields then delete else push_reference upsert.reference delete) in
    (record upsert { clear_fields = [] } ∷ rest.0, rest.1)

unfoldable pub rebuild_chunks : BattleChunkPatchScope → BattleChunkPatchScope
unfolding rebuild_chunk_upserts
rebuild_chunks scope =
    let result = rebuild_chunk_upserts scope.upsert scope.delete in
    record { upsert = result.0; delete = result.1 }

unfoldable pub adapt_outbound_patch : ProtocolProfile → Patch → Patch
unfolding rebuild_scope rebuild_chunks
adapt_outbound_patch profile patch = if supports_clear_fields profile then patch else record patch {
  players = map_option rebuild_scope patch.players;
  entities = map_option rebuild_scope patch.entities;
  waypoints = map_option rebuild_scope patch.waypoints;
  battle_chunks = map_option rebuild_chunks patch.battle_chunks;
  last_seen_players = map_option rebuild_scope patch.last_seen_players;
  player_marks = map_option rebuild_scope patch.player_marks;
}
