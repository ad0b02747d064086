-- ===== src/Relay/Apply.antt =====
-- The rest of `apply_report` of src/relay.rs: the battle map, the keepalive, the deletions and the
-- composition of all parts on the relay.
use minecraft_team_viewer_ba.Battle.Cache.{empty_cache}
use minecraft_team_viewer_ba.Snapshot.Strip.{same_option}
use minecraft_team_viewer_ba.Battle.Types.{
  BattleChunkEntry, BattleChunkRef, BattleRoomCache, battle_key_order,
}
use minecraft_team_viewer_ba.Objects.Waypoint.{WaypointData}
use minecraft_team_viewer_ba.Snapshot.Project.{map_values}
use minecraft_team_viewer_ba.Sources.Candidates.{Timed}
use minecraft_team_viewer_ba.Battle.Update.{is_empty, upsert}
use minecraft_team_viewer_ba.Door.Suite.{to_ascii_lowercase}
use minecraft_team_viewer_ba.Prelude.Int.{ℤ}
use minecraft_team_viewer_ba.Prelude.Map.{Map, insert, lookup, modify, retain}
use minecraft_team_viewer_ba.Relay.Observation.{
  BattleMapObservation, apply_battle_observation, remove_keys,
}
use minecraft_team_viewer_ba.Relay.Report.{
  PlayerReportBundle, StateKeepalive, apply_objects, apply_status, patch_tab, replace_tab,
}
use minecraft_team_viewer_ba.Relay.Types.{Clock, Relay, SourceState, default_source}
use minecraft_team_viewer_ba.Snapshot.Diff.{same_text}
use minecraft_team_viewer_ba.Snapshot.Keys.{battle_ref_key}
use minecraft_team_viewer_ba.Prelude.{
  Bool, List, Option, [], contains, if◌then◌else◌, map, none, not, some, true, unwrap_or, ℕ, ◌||◌,
  ◌∷◌,
}
use minecraft_team_viewer_ba.Prelude.Text.{Text, Text-discrete, codes, nat_key, text_key, trim}

-- `received_at = now` for each named object that is there.
unfoldable pub keep_alive : {V : Type 0} → ℕ → List Text → Map Text (Timed V) → Map Text (Timed V)
unfolding modify
keep_alive now [] table = table
keep_alive now (id ∷ ids) table =
    keep_alive now ids (modify id (λ value. record value { received_at = now }) table)

-- `filter_map(battle_ref_key)`
unfoldable pub ref_keys : List BattleChunkRef → List Text
unfolding battle_ref_key
ref_keys [] = []
ref_keys (chunk ∷ chunks) = elim (battle_ref_key chunk) [
  | none ↦ ref_keys chunks
  | some key ↦ key ∷ ref_keys chunks
]

unfoldable pub apply_keepalive : ℕ → Option StateKeepalive → SourceState → SourceState
unfolding keep_alive ref_keys
apply_keepalive now none source = source
apply_keepalive now (some keepalive) source = record source {
  players = keep_alive now keepalive.players source.players;
  entities = keep_alive now keepalive.entities source.entities;
  battle_chunks = keep_alive now (ref_keys keepalive.battle_chunks) source.battle_chunks;
}

unfoldable pub delete_reported_waypoints : Option (List Text) → SourceState → SourceState
unfolding remove_keys
delete_reported_waypoints none source = source
delete_reported_waypoints (some ids) source = record source {
  waypoints = remove_keys ids source.waypoints;
}

unfoldable pub has_scope : List Text → Text → Bool
unfolding contains
has_scope scopes scope = contains Text-discrete scope scopes

-- Without a scope, all but the last-seen players are cleared.
unfoldable pub clears_scope : List Text → Text → Bool
unfolding has_scope
clears_scope scopes scope = is_empty scopes || has_scope scopes scope

unfoldable pub clears_tab : List Text → Bool
unfolding clears_scope has_scope
clears_tab scopes = clears_scope scopes (codes "tab_players") || has_scope scopes (codes "tab")

unfoldable pub clear_scopes : List Text → SourceState → SourceState
unfolding clears_scope has_scope clears_tab
clear_scopes scopes source = record source {
  players = if clears_scope scopes (codes "players") then [] else source.players;
  entities = if clears_scope scopes (codes "entities") then [] else source.entities;
  waypoints = if clears_scope scopes (codes "waypoints") then [] else source.waypoints;
  last_seen_players =
      if has_scope scopes (codes "last_seen_players") then [] else source.last_seen_players;
  tab_players = if clears_tab scopes then [] else source.tab_players;
  tab_received_at = if clears_tab scopes then none else source.tab_received_at;
  tab_timestamp = if clears_tab scopes then none else source.tab_timestamp;
  battle_chunks = if clears_scope scopes (codes "battle_chunks") then [] else source.battle_chunks;
  battle_projection =
      if clears_scope scopes (codes "battle_chunks") then none else source.battle_projection;
}

unfoldable pub apply_clear : Option (List Text) → SourceState → SourceState
unfolding clear_scopes to_ascii_lowercase
apply_clear none source = source
apply_clear (some scopes) source =
    clear_scopes (map (λ scope. map to_ascii_lowercase (trim scope)) scopes) source

unfoldable pub observe_map :
    Text → ℕ → Option BattleMapObservation → SourceState → SourceState × List BattleChunkEntry
unfolding apply_battle_observation
observe_map id now none source = (source, [])
observe_map id now (some observation) source = apply_battle_observation source id observation now

-- What the report changes in its own source, and the entries for the room's cache.
unfoldable pub report_source :
    (Text → Text)
    → ℤ
    → Clock
    → Text
    → PlayerReportBundle
    → SourceState
    → SourceState × List BattleChunkEntry
unfolding apply_status apply_objects replace_tab patch_tab observe_map apply_keepalive
    delete_reported_waypoints apply_clear
report_source to_lowercase healthy clock id report source =
    let reported = patch_tab to_lowercase clock report.tab_players_patch (
      replace_tab clock report.tab_players_replace (
        apply_objects clock.now report
          (apply_status healthy clock report.external_source_status source))) in
    let observed = observe_map id clock.now report.battle_map_observation reported in
    (
      apply_clear report.source_state_clear (
          delete_reported_waypoints report.waypoints_delete
            (apply_keepalive clock.now report.state_keepalive observed.0)),
      observed.1,
    )

-- `self.battle_caches.entry(room).or_default().upsert(...)`
unfoldable pub update_cache :
    ℕ → ℕ → Text → List BattleChunkEntry → Map Text BattleRoomCache → Map Text BattleRoomCache
unfolding upsert
update_cache now max_entries room [] caches = caches
update_cache now max_entries room (entry ∷ entries) caches =
    insert room
      (upsert (unwrap_or (lookup room caches) empty_cache) (entry ∷ entries) now max_entries).0
      caches

-- The targets that are not blank.
unfoldable pub death_targets : Option (List Text) → List Text
death_targets none = []
death_targets (some []) = []
death_targets (some (target ∷ targets)) =
    let rest = death_targets (some targets) in
    if is_empty (trim target) then rest else target ∷ rest

-- The test of `retain`: the mark is not on one of the dead entities.
unfoldable pub survives : List Text → WaypointData → Bool
unfolding contains same_option
survives targets waypoint =
    not (same_option same_text waypoint.target_type (some (codes "entity")))
    || (elim waypoint.target_entity_id [
      | none ↦ true
      | some target ↦ not (contains Text-discrete target targets)
    ])

unfoldable pub cancel_deaths : List Text → SourceState → SourceState
unfolding survives retain
cancel_deaths targets source = record source {
  waypoints = retain (λ id waypoint. survives targets waypoint.content) source.waypoints;
}

-- The room of the connection, or "default".
unfoldable pub room_of : Text → Relay → Text
room_of id relay = elim (lookup id relay.connections) [
  | none ↦ codes "default"
  | some connection ↦ connection.room
]

unfoldable pub apply_report : (Text → Text) → ℤ → Clock → Text → PlayerReportBundle → Relay → Relay
unfolding room_of report_source update_cache death_targets cancel_deaths
apply_report to_lowercase healthy clock id report relay =
    let room = room_of id relay in
    let source = unwrap_or (lookup id relay.sources) default_source in
    let result =
      report_source to_lowercase healthy clock id report (record source { room = room }) in
    let sources = insert id result.0 relay.sources in
    let targets = death_targets report.waypoints_entity_death_cancel in
    record relay {
      sources = if is_empty targets then sources else map_values (cancel_deaths targets) sources;
      battle_caches =
          update_cache clock.now relay.config.battle_chunk_cache_max_entries room result.1
            relay.battle_caches;
    }
