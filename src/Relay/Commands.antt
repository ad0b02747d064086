-- ===== src/Relay/Commands.antt =====
-- `apply_web_map_command` of src/relay.rs on the relay, with its acknowledgement.
use minecraft_team_viewer_ba.Objects.Waypoint.{WaypointData}
use minecraft_team_viewer_ba.Sources.Candidates.{Timed}
use minecraft_team_viewer_ba.Battle.Update.{is_empty}
use minecraft_team_viewer_ba.Objects.Fields.{F64}
use minecraft_team_viewer_ba.Snapshot.Diff.{same_text}
use minecraft_team_viewer_ba.Snapshot.Types.{PlayerMark}
use minecraft_team_viewer_ba.Prelude.Map.{Map, contains_key, insert, lookup, modify, remove}
use minecraft_team_viewer_ba.Relay.Types.{
  Clock, ConnectionKind, Relay, SourceState, default_source, external_source, player, timed,
  web_map,
}
use minecraft_team_viewer_ba.Relay.WebMap.{
  Command, TacticalWaypoint, WebMapAck, all_player_marks, clear_all_player_marks, clear_player_mark,
  delete_waypoints, done, failed, filled, is_finite, player_mark, resync_request,
  same_server_filter, set_player_mark, set_same_server_filter, set_tactical_waypoint, tactical,
  tactical_id, tactical_source, tactical_waypoint, waypoints_delete,
}
use minecraft_team_viewer_ba.Prelude.{
  Bool, List, Option, [], false, if◌then◌else◌, length, ltb, min, none, not, some, true, unwrap_or,
  ◌&&◌, ◌||◌, ◌∷◌,
}
use minecraft_team_viewer_ba.Prelude.Text.{Text, codes, nat_key, text_key, trim}

unfoldable pub place_tactical :
    Clock → Text → Text → TacticalWaypoint → Relay → F64 → F64 → Relay × WebMapAck
unfolding tactical tactical_id
place_tactical clock random room command relay x z =
    let waypoint_id = tactical_id clock random command.waypoint_id in
    let waypoint = tactical clock room command x z in
    let source = unwrap_or (lookup (tactical_source room) relay.sources) default_source in
    let placed = record source {
      room = room;
      waypoints = insert waypoint_id (timed waypoint clock.now) source.waypoints;
    } in
    (
      record relay { sources = insert (tactical_source room) placed relay.sources; dirty = true },
      done (codes "command_tactical_waypoint_set") (tactical_waypoint waypoint_id waypoint),
    )

unfoldable pub finite : Option F64 → Option F64
unfolding is_finite
finite none = none
finite (some x) = if is_finite x then some x else none

-- Both coordinates are needed.
unfoldable pub place_finite :
    Clock → Text → Text → TacticalWaypoint → Relay → Option F64 → Option F64 → Relay × WebMapAck
unfolding place_tactical
place_finite clock random room command relay (some x) (some z) =
    place_tactical clock random room command relay x z
place_finite clock random room command relay x z =
    (relay, failed (codes "invalid_tactical_waypoint_payload"))

unfoldable pub set_tactical : Clock → Text → Text → TacticalWaypoint → Relay → Relay × WebMapAck
unfolding finite place_finite
set_tactical clock random room command relay =
    place_finite clock random room command relay (finite command.x) (finite command.z)

-- Who may delete a waypoint; one that is not there is open to everyone.
unfoldable pub deletable_value : Option (Timed WaypointData) → Text
deletable_value none = codes "everyone"
deletable_value (some value) = unwrap_or (value.content).deletable_by (codes "everyone")

unfoldable pub deletable_by : Text → SourceState → Text
unfolding deletable_value
deletable_by waypoint_id source = deletable_value (lookup waypoint_id source.waypoints)

unfoldable pub may_delete : Text → Text → Text → SourceState → Bool
unfolding deletable_by
may_delete room waypoint_id source_id source =
    same_text source.room room
    && (same_text (deletable_by waypoint_id source) (codes "everyone")
        || (same_text (deletable_by waypoint_id source) (codes "owner")
            && same_text source_id (tactical_source room)))

-- The loop over the sources of the room, and whether one of them had the waypoint.
unfoldable pub delete_waypoint : Text → Text → Map Text SourceState → Map Text SourceState × Bool
unfolding may_delete
delete_waypoint room waypoint_id [] = ([], false)
delete_waypoint room waypoint_id ((source_id, source) ∷ sources) =
    let rest = delete_waypoint room waypoint_id sources in
    if may_delete room waypoint_id source_id source
    then (
      (source_id, record source { waypoints = remove waypoint_id source.waypoints }) ∷ rest.0,
      contains_key waypoint_id source.waypoints || rest.1,
    )
    else ((source_id, source) ∷ rest.0, rest.1)

-- The loop over the ids of the command, with those that were removed.
unfoldable pub delete_all :
    Text → List Text → Map Text SourceState → Map Text SourceState × List Text
unfolding delete_waypoint
delete_all room [] sources = (sources, [])
delete_all room (waypoint_id ∷ ids) sources =
    let one = delete_waypoint room waypoint_id sources in
    let rest = delete_all room ids one.0 in (rest.0, if one.1 then waypoint_id ∷ rest.1 else rest.1)

unfoldable pub set_mark : Text → PlayerMark → Relay → Relay × WebMapAck
unfolding filled
set_mark player_id command relay =
    let mark : PlayerMark = record {
      team = trim command.team;
      color = filled command.color;
      label = filled command.label;
      source = filled command.source;
    } in
    if is_empty (trim player_id) then (relay, failed (codes "invalid_player_id")) else (
      record relay { player_marks = insert (trim player_id) mark relay.player_marks; dirty = true },
      done (codes "command_player_mark_set") (player_mark (trim player_id) (some mark)),
    )

unfoldable pub clear_mark : Text → Relay → Relay × WebMapAck
clear_mark player_id relay =
    let removed = contains_key (trim player_id) relay.player_marks in
    (
      record relay {
        player_marks = remove (trim player_id) relay.player_marks;
        dirty = relay.dirty || removed;
      },
      record {
        ok = removed;
        action = some (codes "command_player_mark_clear");
        error = if removed then none else some (codes "mark_not_found");
        detail = some (player_mark (trim player_id) none);
      },
    )

-- `i32::try_from(len).unwrap_or(i32::MAX)`
unfoldable pub clear_marks : Relay → Relay × WebMapAck
clear_marks relay =
    let removed_count = min (length relay.player_marks) 2147483647 in
    (
      record relay { player_marks = []; dirty = relay.dirty || ltb 0 removed_count },
      done (codes "command_player_mark_clear_all") (all_player_marks removed_count),
    )

unfoldable pub delete_room_waypoints : Text → List Text → Relay → Relay × WebMapAck
unfolding delete_all
delete_room_waypoints room ids relay =
    let deleted = delete_all room ids relay.sources in
    (
      record relay { sources = deleted.0; dirty = relay.dirty || not (is_empty deleted.1) },
      record {
        ok = not (is_empty deleted.1);
        action = some (codes "waypoints_delete");
        error = if is_empty deleted.1 then some (codes "waypoint_not_found") else none;
        detail = some (waypoints_delete deleted.1);
      },
    )

unfoldable pub force_full : Text → Relay → Relay
unfolding modify
force_full id relay = record relay {
  connections = modify id (λ connection. record connection { force_full = true }) relay.connections;
  dirty = true;
}

abbrev pub acknowledged : Relay × WebMapAck → Relay × Option WebMapAck
acknowledged result = (result.0, some result.1)

-- The `match` on the command of a connection of the web map.
unfoldable pub run_command :
    Clock → Text → Text → Text → Option Command → Relay → Relay × Option WebMapAck
unfolding force_full set_mark clear_mark clear_marks set_tactical delete_room_waypoints
run_command clock random id room none relay = (relay, some (failed (codes "unsupported_command")))
run_command clock random id room (some resync_request) relay = (force_full id relay, none)
run_command clock random id room (some (set_player_mark player_id mark)) relay =
    acknowledged (set_mark player_id mark relay)
run_command clock random id room (some (clear_player_mark player_id)) relay =
    acknowledged (clear_mark player_id relay)
run_command clock random id room (some clear_all_player_marks) relay =
    acknowledged (clear_marks relay)
run_command clock random id room (some (set_same_server_filter enabled)) relay = (
  record relay { same_server_filter_enabled = enabled; dirty = true },
  some (done (codes "command_same_server_filter_set") (same_server_filter enabled)),
)
run_command clock random id room (some (set_tactical_waypoint command)) relay =
    acknowledged (set_tactical clock random room command relay)
run_command clock random id room (some (delete_waypoints ids)) relay =
    acknowledged (delete_room_waypoints room ids relay)

abbrev pub is_web_map : ConnectionKind → Bool
is_web_map player = false
is_web_map external_source = false
is_web_map web_map = true

unfoldable pub apply_web_map_command :
    Clock → Text → Text → Option Command → Relay → Relay × Option WebMapAck
unfolding run_command
apply_web_map_command clock random id command relay = elim (lookup id relay.connections) [
  | none ↦ (relay, none)
  | some connection ↦
      if is_web_map connection.kind
      then run_command clock random id connection.room command relay
      else (relay, none)
]
