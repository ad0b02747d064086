-- ===== src/Snapshot/Diff.antt =====
-- `build_patch` of src/relay.rs: the patch from one snapshot of a room to the next.
use minecraft_team_viewer_ba.Objects.Waypoint.{WaypointData}
use minecraft_team_viewer_ba.Battle.Update.{is_empty, upsert}
use minecraft_team_viewer_ba.Objects.Entity.{EntityData}
use minecraft_team_viewer_ba.Objects.Fields.{is_cleared}
use minecraft_team_viewer_ba.Prelude.Int.{pos}
use minecraft_team_viewer_ba.Battle.Types.{
  BattleChunkEntry, BattleChunkRef, BattleChunkUpsert, BattleChunkValue, battle_key_order,
}
use minecraft_team_viewer_ba.Objects.Player.{PlayerData}
use minecraft_team_viewer_ba.Objects.Table.{
  ObjectUpsert, deletes_of, entity_kind, last_seen_upsert, map_patch, object_upsert, player_kind,
  upserts_of, waypoint_kind,
}
use minecraft_team_viewer_ba.Prelude.Map.{Map, insert}
use minecraft_team_viewer_ba.Prelude.Text.{
  Text, Text-discrete, codes, missing_names, nat_key, text_key,
}
use minecraft_team_viewer_ba.Snapshot.Keys.{battle_entry_key, parse_battle_key}
use minecraft_team_viewer_ba.Snapshot.Types.{
  LastSeenPlayerData, Patch, PatchScope, PlayerMark, SameServerGroup, SnapshotFull, TabPlayerReport,
  TabStatePatch, WebMapTabState, default_tab_state,
}
use minecraft_team_viewer_ba.Prelude.{
  Bool, List, Option, [], false, if◌then◌else◌, is_some, ite, map_option, none, not, some, true,
  unwrap_or, ℕ_discrete, ◌&&◌, ◌||◌, ◌∷◌,
}

-- The equalities of the generated message types.
pub record Same : Type 0 where
  pub player : PlayerData → PlayerData → Bool
  pub entity : EntityData → EntityData → Bool
  pub waypoint : WaypointData → WaypointData → Bool
  pub battle_chunk : BattleChunkEntry → BattleChunkEntry → Bool
  pub last_seen : LastSeenPlayerData → LastSeenPlayerData → Bool
  pub mark : PlayerMark → PlayerMark → Bool
  pub tab_report : TabPlayerReport → TabPlayerReport → Bool
  pub groups : List SameServerGroup → List SameServerGroup → Bool

unfoldable pub player_mark_upsert : Text → PlayerMark → Option PlayerMark → ObjectUpsert PlayerMark
unfolding missing_names is_cleared
player_mark_upsert id value old = record {
  id = id;
  payload = some value;
  clear_fields = elim old [
    | none ↦ []
    | some old ↦ missing_names (
        (codes "color", is_cleared old.color value.color)
        ∷ (codes "label", is_cleared old.label value.label)
        ∷ (codes "source", is_cleared old.source value.source)
        ∷ [])
  ];
}

unfoldable pub battle_cleared_fields : BattleChunkValue → BattleChunkValue → List Text
unfolding missing_names is_cleared
battle_cleared_fields old new = missing_names (
    (codes "symbol", is_cleared old.symbol new.symbol)
    ∷ (codes "markerType", is_cleared old.marker_type new.marker_type)
    ∷ (codes "colorNote", is_cleared old.color_note new.color_note)
    ∷ (codes "roomCode", is_cleared old.room_code new.room_code)
    ∷ (codes "colorMode", is_cleared old.color_mode new.color_mode)
    ∷ (codes "colorSemanticKey", is_cleared old.color_semantic_key new.color_semantic_key)
    ∷ (codes "mode", is_cleared old.mode new.mode)
    ∷ [])

-- `old.data.zip(value.data)`
unfoldable pub cleared_between : Option BattleChunkValue → Option BattleChunkValue → List Text
unfolding battle_cleared_fields
cleared_between (some old) (some new) = battle_cleared_fields old new
cleared_between old new = []

unfoldable pub battle_upsert : Text → BattleChunkEntry → Option BattleChunkEntry → BattleChunkUpsert
unfolding cleared_between
battle_upsert id value old = record {
  reference = value.reference;
  payload = value.payload;
  clear_fields = elim old [ none ↦ [] | some old ↦ cleared_between old.payload value.payload ];
}

-- The entries of a snapshot that have a key, in a map.
unfoldable pub keyed_chunks :
    List BattleChunkEntry → Map Text BattleChunkEntry → Map Text BattleChunkEntry
unfolding battle_entry_key
keyed_chunks [] m = m
keyed_chunks (entry ∷ entries) m =
    keyed_chunks entries
      (elim (battle_entry_key entry) [ none ↦ m | some key ↦ insert key entry m ])

-- `filter_map(parse_battle_key)`
unfoldable pub parse_battle_keys : List Text → List BattleChunkRef
unfolding parse_battle_key
parse_battle_keys [] = []
parse_battle_keys (key ∷ keys) = elim (parse_battle_key key) [
  | none ↦ parse_battle_keys keys
  | some reference ↦ reference ∷ parse_battle_keys keys
]

abbrev pub changed_option : {A : Type 0} → (A → A → Bool) → A → A → Option A
changed_option same old new = if same old new then none else some new

abbrev pub same_bool : Bool → Bool → Bool
same_bool true b = b
same_bool false b = not b

abbrev pub same_text : Text → Text → Bool
same_text a b = ite (Text-discrete a b) true false

unfoldable pub Texts-discrete : Discrete (List Text)
unfolding ℕ_discrete
Texts-discrete = hlevel ℕ_discrete

abbrev pub to_scope : {D : Type 0} → List (ObjectUpsert D) × List Text → PatchScope D
to_scope (upsert, delete) = record { upsert = upsert; delete = delete }

abbrev pub tab_entry : Text → TabPlayerReport → Option TabPlayerReport → Text × TabPlayerReport
tab_entry id report before = (id, report)

module _ (same : Same) where
  -- The reports that are new or changed, with their sources.
  unfoldable pub tab_upserts :
      Map Text TabPlayerReport → Map Text TabPlayerReport → List (Text × TabPlayerReport)
  tab_upserts old new = upserts_of same.tab_report tab_entry old new

  unfoldable pub tab_deletes : Map Text TabPlayerReport → Map Text TabPlayerReport → List Text
  tab_deletes old new = deletes_of same.tab_report tab_entry old new

  unfoldable pub tab_patch : WebMapTabState → WebMapTabState → TabStatePatch
  unfolding tab_upserts tab_deletes
  tab_patch old new = record {
    enabled = changed_option same_bool old.enabled new.enabled;
    room_code = changed_option same_text old.room_code new.room_code;
    groups = changed_option same.groups old.groups new.groups;
    upsert_reports = tab_upserts old.reports new.reports;
    delete_reports = tab_deletes old.reports new.reports;
  }

  unfoldable pub build_tab_state_patch :
      Option WebMapTabState → Option WebMapTabState → Option TabStatePatch
  unfolding tab_patch
  build_tab_state_patch old new =
      let patch = tab_patch (unwrap_or old default_tab_state) (unwrap_or new default_tab_state) in
      if is_some patch.enabled
        || is_some patch.room_code
        || is_some patch.groups
        || not (is_empty patch.upsert_reports)
        || not (is_empty patch.delete_reports)
      then some patch
      else none

  -- The patch with the scopes that changed, whether or not any did.
  unfoldable pub scopes_patch : SnapshotFull → SnapshotFull → Bool → Patch
  unfolding map_patch object_upsert player_mark_upsert battle_upsert keyed_chunks parse_battle_keys
      build_tab_state_patch
  scopes_patch old new connections_changed = record {
    players =
        map_option to_scope
          (map_patch same.player (object_upsert player_kind) old.players new.players);
    entities =
        map_option to_scope
          (map_patch same.entity (object_upsert entity_kind) old.entities new.entities);
    waypoints =
        map_option to_scope
          (map_patch same.waypoint (object_upsert waypoint_kind) old.waypoints new.waypoints);
    battle_chunks =
        map_option (λ p. record { upsert = p.0; delete = parse_battle_keys p.1 })
          (map_patch same.battle_chunk battle_upsert (keyed_chunks old.battle_chunks [])
            (keyed_chunks new.battle_chunks []));
    last_seen_players =
        map_option to_scope
          (map_patch same.last_seen last_seen_upsert old.last_seen_players new.last_seen_players);
    player_marks =
        map_option to_scope
          (map_patch same.mark player_mark_upsert old.player_marks new.player_marks);
    tab_state_patch = build_tab_state_patch old.tab_state new.tab_state;
    connections = if connections_changed then some (new.connections) else none;
    connections_count =
        if connections_changed then some (unwrap_or new.connections_count (pos 0)) else none;
    server_time = new.server_time;
  }

  -- No scope of the patch is there, and the connections are the same.
  unfoldable pub has_no_scope : Patch → Bool
  has_no_scope patch =
      not (is_some patch.players)
      && not (is_some patch.entities)
      && not (is_some patch.waypoints)
      && not (is_some patch.battle_chunks)
      && not (is_some patch.last_seen_players)
      && not (is_some patch.player_marks)
      && not (is_some patch.tab_state_patch)

  unfoldable pub build_patch : SnapshotFull → SnapshotFull → Option Patch
  unfolding scopes_patch has_no_scope
  build_patch old new =
      let connections_changed = ite (Texts-discrete old.connections new.connections) false true in
      let patch = scopes_patch old new connections_changed in
      if has_no_scope patch && not connections_changed then none else some patch
