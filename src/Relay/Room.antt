-- ===== src/Relay/Room.antt =====
-- `build_room_snapshot` of src/relay.rs: the state of a room, with the selections it is made from.
use minecraft_team_viewer_ba.Battle.Update.{is_empty}
use minecraft_team_viewer_ba.Relay.Events.{is_external_source, is_player}
use minecraft_team_viewer_ba.Snapshot.Diff.{same_text}
use minecraft_team_viewer_ba.Snapshot.Project.{map_values}
use minecraft_team_viewer_ba.Objects.Fields.{F64}
use minecraft_team_viewer_ba.Objects.Player.{PlayerData}
use minecraft_team_viewer_ba.Snapshot.Types.{
  LastSeenPlayerData, SnapshotFull, TabPlayerReport, default_snapshot,
}
use minecraft_team_viewer_ba.Sources.Candidates.{Candidate, resolve_candidates}
use minecraft_team_viewer_ba.Sources.Players.{resolve_player_candidates}
use minecraft_team_viewer_ba.Door.Suite.{to_ascii_lowercase}
use minecraft_team_viewer_ba.Prelude.Map.{Key, Map, contains_key, insert, lookup, retain}
use minecraft_team_viewer_ba.Prelude.Sort.{sort}
use minecraft_team_viewer_ba.Relay.Admin.{eq_ignore_ascii_case}
use minecraft_team_viewer_ba.Relay.Candidates.{collect_candidates}
use minecraft_team_viewer_ba.Relay.Grouping.{
  SameServerGrouping, connected_ids, same_server_grouping, sort_texts,
}
use minecraft_team_viewer_ba.Relay.Types.{
  Clock, Connection, Relay, RoomFrame, ScopeSelections, SourceState, default_room,
  default_selections,
}
use minecraft_team_viewer_ba.Prelude.{
  Bool, List, Option, [], contains, false, if◌then◌else◌, leb, length, map, min, none, not, some,
  true, unwrap_or, ℕ, ℕ_discrete, ◌&&◌, ◌++◌, ◌∷◌,
}
use minecraft_team_viewer_ba.Prelude.Text.{Text, Text-discrete, nat_key, text_key, text_ltb}
use minecraft_team_viewer_ba.Prelude.Int.{pos, ℤ}

-- The numbers of the generated enumeration `PlayerPositionSourceKind`.
pub record SourceKinds : Type 0 where
  pub external : ℤ
  pub self_report : ℤ
  pub player_report : ℤ

unfoldable pub is_external : Map Text Connection → Text → Bool
is_external connections source_id = elim (lookup source_id connections) [
  | none ↦ false
  | some connection ↦ is_external_source connection.kind
]

-- A player's own report goes before those of others.
unfoldable pub player_priority : Text → Text → ℤ
unfolding eq_ignore_ascii_case
player_priority object_id source_id =
    if eq_ignore_ascii_case object_id source_id then pos 2 else pos 1

unfoldable pub source_kind : SourceKinds → Text → Text → Option Connection → ℤ
unfolding eq_ignore_ascii_case
source_kind kinds player_id source_id none =
    if eq_ignore_ascii_case player_id source_id then kinds.self_report else kinds.player_report
source_kind kinds player_id source_id (some connection) =
    if is_external_source connection.kind
    then kinds.external
    else if eq_ignore_ascii_case player_id source_id
    then kinds.self_report
    else kinds.player_report

abbrev pub display_name_of : Option Connection → Option Text
display_name_of none = none
display_name_of (some connection) = connection.display_name

abbrev pub resolution_of : Option Connection → Option F64
resolution_of none = none
resolution_of (some connection) = connection.position_resolution

-- A player with what is known of the source of its position.
unfoldable pub attributed :
    SourceKinds → Map Text Connection → Text → Text × PlayerData → PlayerData
unfolding source_kind
attributed kinds connections player_id (source_id, reported) =
    let connection = lookup source_id connections in
    record reported {
      position_source_id = some source_id;
      position_source_kind = some (source_kind kinds player_id source_id connection);
      position_source_display_name = display_name_of connection;
      position_resolution = resolution_of connection;
    }

unfoldable pub attribute_all :
    SourceKinds → Map Text Connection → Map Text (Text × PlayerData) → Map Text PlayerData
unfolding attributed
attribute_all kinds connections [] = []
attribute_all kinds connections ((id, reported) ∷ players) =
    (id, attributed kinds connections id reported) ∷ attribute_all kinds connections players

-- `resolve_candidates` without a priority, and only the chosen values.
unfoldable pub resolve_values :
    {T : Type 0} → Map Text Text → Map Text (List (Candidate T)) → Map Text T × Map Text Text
resolve_values selected candidates =
    let result = resolve_candidates (λ object source. pos 0) selected candidates in
    (map_values (λ e. e.1) result.0, result.1)

-- `to_ascii_lowercase` of a text.
abbrev pub lower : Text → Text
lower text = map to_ascii_lowercase text

abbrev pub uuid_ids : Option Text → List Text
uuid_ids none = []
uuid_ids (some uuid) = lower uuid ∷ []

-- The ids and uuids of the players, in lower case.
unfoldable pub online_ids : Map Text PlayerData → List Text
online_ids [] = []
online_ids ((id, value) ∷ players) = lower id ∷ (uuid_ids value.player_uuid ++ online_ids players)

unfoldable pub is_offline : List Text → Text → LastSeenPlayerData → Bool
unfolding contains to_ascii_lowercase
is_offline online id value =
    not (contains Text-discrete (lower id) online)
    && not (contains Text-discrete (lower value.player_uuid) online)

-- The objects of the room and the selections after them. The code resolves chunks elsewhere and clears
-- their selection.
unfoldable pub room_objects :
    SourceKinds
    → ℕ
    → Text
    → Option (List Text)
    → ScopeSelections
    → Relay
    → SnapshotFull × ScopeSelections
unfolding collect_candidates resolve_player_candidates resolve_candidates resolve_values
    attribute_all player_priority is_external online_ids is_offline retain
room_objects kinds now room allowed selections relay =
    let players =
      resolve_player_candidates player_priority (is_external relay.connections) now
        selections.players
        (collect_candidates relay.sources room allowed false (λ source. source.players)) in
    let entities =
      resolve_values selections.entities
        (collect_candidates relay.sources room allowed false (λ source. source.entities)) in
    let waypoints =
      resolve_values selections.waypoints
        (collect_candidates relay.sources room allowed true (λ source. source.waypoints)) in
    let last_seen =
      resolve_values selections.last_seen_players (
        collect_candidates relay.sources room allowed false (λ source. source.last_seen_players)) in
    let shown = attribute_all kinds relay.connections players.0 in
    (
      record default_snapshot {
        players = shown;
        entities = entities.0;
        waypoints = waypoints.0;
        last_seen_players = retain (is_offline (online_ids shown)) last_seen.0;
        player_marks = relay.player_marks;
      },
      record {
        players = players.1;
        entities = entities.1;
        waypoints = waypoints.1;
        battle_chunks = [];
        last_seen_players = last_seen.1;
      },
    )

-- The reports of the tab lists of the active sources.
unfoldable pub tab_reports : Text → List Text → Map Text SourceState → Map Text TabPlayerReport
unfolding contains
tab_reports room active [] = []
tab_reports room active ((source_id, source) ∷ sources) =
    let rest = tab_reports room active sources in
    if same_text source.room room
      && contains Text-discrete source_id active
      && not (is_empty source.tab_players)
    then (source_id, record { timestamp = source.tab_timestamp; players = source.tab_players })
      ∷ rest
    else rest

-- What only the web map is sent.
unfoldable pub with_web_state :
    Clock → Text → SameServerGrouping → Relay → SnapshotFull → SnapshotFull
unfolding tab_reports connected_ids sort
with_web_state clock room grouping relay snapshot =
    let connections = sort_texts (connected_ids is_player room relay.connections) in
    record snapshot {
      room_code = some room;
      connections_count = some (pos (min (length connections) 2147483647));
      connections = connections;
      server_time = some clock.unix_seconds;
      tab_state = some (record {
        enabled = relay.same_server_filter_enabled;
        room_code = room;
        reports = tab_reports room grouping.active_sources relay.sources;
        groups = grouping.groups;
      });
    }

abbrev pub room_selections : Option RoomFrame → ScopeSelections
room_selections none = default_selections
room_selections (some frame) = frame.selections

unfoldable pub texts_ltb : List Text → List Text → Bool
unfolding text_ltb
texts_ltb [] [] = false
texts_ltb [] (y ∷ ys) = true
texts_ltb (x ∷ xs) [] = false
texts_ltb (x ∷ xs) (y ∷ ys) =
    let rest = texts_ltb xs ys in
    if text_ltb x y then true else if text_ltb y x then false else rest

unfoldable pub scope_ltb : Text × List Text → Text × List Text → Bool
unfolding text_ltb texts_ltb
scope_ltb a b =
    if text_ltb a.0 b.0 then true else if text_ltb b.0 a.0 then false else texts_ltb a.1 b.1

unfoldable pub Scope-discrete : Discrete (Text × List Text)
unfolding ℕ_discrete
Scope-discrete = hlevel ℕ_discrete

instance abbrev pub scope_order : Key (Text × List Text)
scope_order = record { eq = Scope-discrete; ltb = scope_ltb }

-- The key of the selections for some sources only: the room and the sorted sources.
unfoldable pub scoped_key : Text → List Text → Text × List Text
unfolding sort
scoped_key room allowed = (room, sort_texts allowed)

unfoldable pub selections_for : Text → Option (List Text) → Relay → ScopeSelections
unfolding scoped_key
selections_for room none relay = room_selections (lookup room relay.rooms)
selections_for room (some allowed) relay =
    unwrap_or (lookup (scoped_key room allowed) relay.scoped_selections) default_selections

abbrev pub max_scoped_selections : ℕ
max_scoped_selections = 128

-- At 128 selections a new one clears the others first.
unfoldable pub with_room :
    Text × List Text
    → Map (Text × List Text) ScopeSelections
    → Map (Text × List Text) ScopeSelections
with_room key selections =
    if leb max_scoped_selections (length selections) && not (contains_key key selections)
    then []
    else selections

unfoldable pub keep_selections : Text → Option (List Text) → ScopeSelections → Relay → Relay
unfolding scoped_key with_room
keep_selections room none selections relay = record relay {
  rooms =
      insert room
        (record (unwrap_or (lookup room relay.rooms) default_room) { selections = selections })
        relay.rooms;
}
keep_selections room (some allowed) selections relay =
    let key = scoped_key room allowed in
    record relay {
      scoped_selections = insert key selections (with_room key relay.scoped_selections);
    }

unfoldable pub build_room_snapshot :
    (Text → Text)
    → SourceKinds
    → Clock
    → Text
    → Bool
    → Option (List Text)
    → Relay
    → SnapshotFull × Relay
unfolding room_objects selections_for with_web_state keep_selections same_server_grouping
build_room_snapshot lowercase_nfkc kinds clock room for_web allowed relay =
    let result =
      room_objects kinds clock.now room allowed (selections_for room allowed relay) relay in
    let grouping = same_server_grouping lowercase_nfkc room relay in
    (
      if for_web then with_web_state clock room grouping relay result.0 else result.0,
      keep_selections room allowed result.1 relay,
    )
