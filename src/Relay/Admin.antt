-- ===== src/Relay/Admin.antt =====
-- What the administration asks of the relay in `handle_event` of src/relay.rs: the deletion of
-- last-seen players, and of a whole room.
use minecraft_team_viewer_ba.Relay.Events.{RoomPurgeResult, count}
use minecraft_team_viewer_ba.Snapshot.Types.{LastSeenPlayerData}
use minecraft_team_viewer_ba.Door.Suite.{to_ascii_lowercase}
use minecraft_team_viewer_ba.Prelude.Map.{Map, contains_key, insert, lookup, remove, retain}
use minecraft_team_viewer_ba.Relay.Observation.{remove_keys}
use minecraft_team_viewer_ba.Relay.Types.{DisconnectedSource, Relay, SourceState}
use minecraft_team_viewer_ba.Snapshot.Diff.{same_text}
use minecraft_team_viewer_ba.Sources.Candidates.{Timed}
use minecraft_team_viewer_ba.Prelude.{
  Bool, List, [], if◌then◌else◌, length, ltb, map, none, not, some, true, ℕ, ◌&&◌, ◌+◌, ◌-◌, ◌||◌,
  ◌∷◌,
}
use minecraft_team_viewer_ba.Prelude.Text.{Text, nat_key, text_key}

unfoldable pub eq_ignore_ascii_case : Text → Text → Bool
unfolding to_ascii_lowercase
eq_ignore_ascii_case a b = same_text (map to_ascii_lowercase a) (map to_ascii_lowercase b)

-- A record of the deletion: the room, the source and the player.
abbrev pub LastSeenRecord : Type 0
LastSeenRecord = Text × Text × Text

-- The test of `retain`.
unfoldable pub is_other : Text → Text → Timed LastSeenPlayerData → Bool
unfolding eq_ignore_ascii_case
is_other player_uuid object_id value =
    not (eq_ignore_ascii_case object_id player_uuid)
    && not (eq_ignore_ascii_case (value.content).player_uuid player_uuid)

unfoldable pub forget_player : Text → SourceState → SourceState
unfolding is_other retain
forget_player player_uuid source = record source {
  last_seen_players = retain (is_other player_uuid) source.last_seen_players;
}

-- The body of the loop, with the number of deleted players.
unfoldable pub delete_record : LastSeenRecord → Map Text SourceState → Map Text SourceState × ℕ
unfolding forget_player
delete_record (room, source_id, player_uuid) sources = elim (lookup source_id sources) [
  | none ↦ (sources, 0)
  | some source ↦
      let after = forget_player player_uuid source in
      if same_text source.room room
      then (
        insert source_id after sources,
        length source.last_seen_players - length after.last_seen_players,
      )
      else (sources, 0)
]

unfoldable pub delete_records :
    List LastSeenRecord → Map Text SourceState → Map Text SourceState × ℕ
unfolding delete_record
delete_records [] sources = (sources, 0)
delete_records (entry ∷ entries) sources =
    let one = delete_record entry sources in
    let rest = delete_records entries one.0 in (rest.0, one.1 + rest.1)

unfoldable pub delete_last_seen : List LastSeenRecord → Relay → Relay × ℕ
unfolding delete_records
delete_last_seen records relay =
    let deleted = delete_records records relay.sources in
    (record relay { sources = deleted.0; dirty = relay.dirty || ltb 0 deleted.1 }, deleted.1)

unfoldable pub room_active_connections : Text → Relay → ℕ
unfolding count
room_active_connections room relay =
    count (λ connection. same_text connection.room room) relay.connections

abbrev pub in_room : Text → SourceState → Bool
in_room room source = same_text source.room room

-- The ids of the sources of a room.
unfoldable pub source_ids : Text → Map Text SourceState → List Text
source_ids room [] = []
source_ids room ((id, source) ∷ sources) =
    let rest = source_ids room sources in if in_room room source then id ∷ rest else rest

unfoldable pub last_seen_records : List Text → Map Text SourceState → ℕ
last_seen_records [] sources = 0
last_seen_records (id ∷ ids) sources = elim (lookup id sources) [
  | none ↦ last_seen_records ids sources
  | some source ↦ length source.last_seen_players + last_seen_records ids sources
]

-- `retain(|record| record["roomCode"] != room)`
unfoldable pub of_other_rooms : Text → List DisconnectedSource → List DisconnectedSource
of_other_rooms room [] = []
of_other_rooms room (record' ∷ records) =
    let rest = of_other_rooms room records in
    if same_text record'.room_code room then rest else record' ∷ rest

unfoldable pub removed_room : Text → Relay → Relay × RoomPurgeResult
unfolding source_ids last_seen_records of_other_rooms remove_keys
removed_room room relay =
    let ids = source_ids room relay.sources in
    let records = of_other_rooms room relay.disconnected_external_sources in
    (
      record relay {
        sources = remove_keys ids relay.sources;
        last_refresh_sent = remove_keys ids relay.last_refresh_sent;
        rooms = remove room relay.rooms;
        battle_caches = remove room relay.battle_caches;
        disconnected_external_sources = records;
        scoped_selections = [];
        dirty = true;
      },
      record {
        active_connections = 0;
        last_seen_records = last_seen_records ids relay.sources;
        sources = length ids;
        room_frames = if contains_key room relay.rooms then 1 else 0;
        disconnected_external_sources = length relay.disconnected_external_sources - length records;
      },
    )

-- A room with a connection stays as it is.
unfoldable pub purge_room : Text → Relay → Relay × RoomPurgeResult
unfolding room_active_connections removed_room
purge_room room relay =
    let active_connections = room_active_connections room relay in
    if ltb 0 active_connections
    then (
      relay,
      record {
        active_connections = active_connections;
        last_seen_records = 0;
        sources = 0;
        room_frames = 0;
        disconnected_external_sources = 0;
      },
    )
    else removed_room room relay
