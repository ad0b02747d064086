-- ===== src/Relay/Events.antt =====
-- `handle_event` of src/relay.rs without the commands of the web map, which have a file of their own:
-- who connects and leaves, what is delivered, and the operations of the administration.
use minecraft_team_viewer_ba.Battle.Update.{is_empty}
use minecraft_team_viewer_ba.Objects.Fields.{F64}
use minecraft_team_viewer_ba.Compat.Profile.{ProtocolProfile}
use minecraft_team_viewer_ba.Prelude.Int.{ℤ}
use minecraft_team_viewer_ba.Prelude.Map.{Map, insert, lookup, remove}
use minecraft_team_viewer_ba.Relay.Types.{
  Clock, Connection, ConnectionKind, DisconnectedSource, Relay, SourceState, external_source,
  player, web_map,
}
use minecraft_team_viewer_ba.Prelude.{
  Bool, List, Option, [], drop, false, if◌then◌else◌, leb, length, none, not, some, suc, true,
  unwrap_or, ℕ, ◌&&◌, ◌++◌, ◌-◌, ◌||◌, ◌∷◌,
}
use minecraft_team_viewer_ba.Prelude.Text.{Text, nat_key, text_key}

pub record RegisterConnection : Type 0 where
  pub id : Text
  pub room : Text
  pub protocol : ProtocolProfile
  pub kind : ConnectionKind
  pub display_name : Option Text
  pub position_resolution : Option F64
  pub program_version : Text
  pub remote_addr : Text
  pub unreliable_positions : Bool

pub record RoomPurgeResult : Type 0 where
  pub active_connections : ℕ
  pub last_seen_records : ℕ
  pub sources : ℕ
  pub room_frames : ℕ
  pub disconnected_external_sources : ℕ

-- The connection that a registration makes.
unfoldable pub registered : Clock → RegisterConnection → Connection
registered clock register = record {
  room = register.room;
  protocol = register.protocol;
  kind = register.kind;
  display_name = register.display_name;
  position_resolution = register.position_resolution;
  program_version = register.program_version;
  remote_addr = register.remote_addr;
  connected_at = clock.unix_millis;
  state = none;
  movement = none;
  unreliable_positions = register.unreliable_positions;
  last_position_refresh = clock.now;
  delivered_revision = 0;
  delivered_snapshot = none;
  delivered_battle_revision = 0;
  next_digest_at = clock.now;
  force_full = true;
  tab_history_subscribed = false;
}

abbrev pub is_player : ConnectionKind → Bool
is_player player = true
is_player external_source = false
is_player web_map = false

abbrev pub is_external_source : ConnectionKind → Bool
is_external_source player = false
is_external_source external_source = true
is_external_source web_map = false

-- `filter(...).count()` over the values of a map.
unfoldable pub count : {V : Type 0} → (V → Bool) → Map Text V → ℕ
count test [] = 0
count test ((id, value) ∷ m) = if test value then suc (count test m) else count test m

unfoldable pub update_player_connection_count : Relay → Relay
unfolding count
update_player_connection_count relay = record relay {
  player_connection_count = count (λ connection. is_player connection.kind) relay.connections;
}

unfoldable pub digest_due : ℕ → Map Text Connection → Bool
digest_due now [] = false
digest_due now ((id, connection) ∷ connections) =
    (is_player connection.kind && leb connection.next_digest_at now) || digest_due now connections

unfoldable pub register_connection : Clock → RegisterConnection → Relay → Relay
unfolding registered update_player_connection_count
register_connection clock register relay = update_player_connection_count (record relay {
  connections = insert register.id (registered clock register) relay.connections;
  dirty = true;
})

-- `ExternalSourceHealth::try_from(health).ok()`, whose values the generated protocol types list, is a
-- parameter.
unfoldable pub disconnected_source :
    (ℤ → Bool) → Clock → Text → Connection → Option SourceState → DisconnectedSource
disconnected_source is_health clock id connection none = record {
  actor_id = id;
  display_name = unwrap_or connection.display_name id;
  room_code = connection.room;
  protocol_version = connection.protocol.peer_current;
  program_version = connection.program_version;
  remote_addr = connection.remote_addr;
  connected_at = connection.connected_at;
  disconnected_at = clock.unix_millis;
  health = none;
  failure_code = none;
  status_received_at = none;
  last_healthy_at = none;
  last_seen_player_count = 0;
}
disconnected_source is_health clock id connection (some source) = record {
  actor_id = id;
  display_name = unwrap_or connection.display_name id;
  room_code = connection.room;
  protocol_version = connection.protocol.peer_current;
  program_version = connection.program_version;
  remote_addr = connection.remote_addr;
  connected_at = connection.connected_at;
  disconnected_at = clock.unix_millis;
  health = elim source.external_health [
    | none ↦ none
    | some health ↦ if is_health health then some health else none
  ];
  failure_code = source.external_failure_code;
  status_received_at = source.external_status_received_at;
  last_healthy_at = source.external_last_healthy_at;
  last_seen_player_count = length source.last_seen_players;
}

abbrev pub max_disconnected_sources : ℕ
max_disconnected_sources = 128

-- `push_back`, and `pop_front` while there are more than 128.
unfoldable pub push_disconnected :
    DisconnectedSource → List DisconnectedSource → List DisconnectedSource
push_disconnected record' records =
    let pushed = records ++ record' ∷ [] in drop (length pushed - max_disconnected_sources) pushed

unfoldable pub record_disconnected :
    (ℤ → Bool)
    → Clock
    → Text
    → Option Connection
    → Option SourceState
    → List DisconnectedSource
    → List DisconnectedSource
unfolding disconnected_source push_disconnected
record_disconnected is_health clock id none source records = records
record_disconnected is_health clock id (some connection) source records =
    if is_external_source connection.kind
    then push_disconnected (disconnected_source is_health clock id connection source) records
    else records

unfoldable pub has_live_state : SourceState → Bool
has_live_state source =
    not (is_empty source.players)
    || not (is_empty source.entities)
    || not (is_empty source.waypoints)
    || not (is_empty source.tab_players)
    || not (is_empty source.battle_chunks)

-- A source that left keeps its last-seen players.
unfoldable pub cleared_source : SourceState → SourceState
cleared_source source = record source {
  players = [];
  entities = [];
  waypoints = [];
  tab_players = [];
  tab_received_at = none;
  tab_timestamp = none;
  battle_chunks = [];
  battle_projection = none;
}

-- What becomes of the source of a connection that left, and whether it showed something.
unfoldable pub clear_source : Text → Map Text SourceState → Map Text SourceState × Bool
unfolding cleared_source has_live_state
clear_source id sources = elim (lookup id sources) [
  | none ↦ (sources, false)
  | some source ↦ (
    if is_empty source.last_seen_players
        then remove id sources
        else insert id (cleared_source source) sources,
    has_live_state source,
  )
]

unfoldable pub disconnect : (ℤ → Bool) → Clock → Text → Relay → Relay
unfolding record_disconnected update_player_connection_count clear_source
disconnect is_health clock id relay =
    let records =
      record_disconnected is_health clock id (lookup id relay.connections) (lookup id relay.sources)
        relay.disconnected_external_sources in
    let counted = update_player_connection_count (record relay {
      connections = remove id relay.connections;
      disconnected_external_sources = records;
    }) in
    let cleared = clear_source id relay.sources in
    record counted {
      sources = cleared.0;
      dirty = relay.dirty || cleared.1;
      last_refresh_sent = remove id relay.last_refresh_sent;
    }
