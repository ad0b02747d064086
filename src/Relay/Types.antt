-- ===== src/Relay/Types.antt =====
-- `Relay` of src/relay.rs with its connections, sources and rooms. A `watch` channel is the last value
-- put into it; what goes into a connection's control channel is returned by the operations.
use minecraft_team_viewer_ba.Objects.Waypoint.{WaypointData}
use minecraft_team_viewer_ba.Objects.Entity.{EntityData}
use minecraft_team_viewer_ba.Objects.Table.{ObjectUpsert}
use minecraft_team_viewer_ba.Battle.Types.{BattleChunkEntry, BattleRoomCache, battle_key_order}
use minecraft_team_viewer_ba.Compat.Profile.{ProtocolProfile}
use minecraft_team_viewer_ba.Compat.Version.{ProtocolVersion}
use minecraft_team_viewer_ba.Objects.Fields.{F64}
use minecraft_team_viewer_ba.Objects.Player.{PlayerData, PlayerDelta}
use minecraft_team_viewer_ba.Prelude.Int.{ℤ}
use minecraft_team_viewer_ba.Prelude.Map.{Map}
use minecraft_team_viewer_ba.Prelude.Text.{Text, nat_key, text_key}
use minecraft_team_viewer_ba.Snapshot.Payload.{Payload}
use minecraft_team_viewer_ba.Snapshot.Types.{
  LastSeenPlayerData, PlayerMark, SnapshotFull, TabPlayerEntry, default_snapshot,
}
use minecraft_team_viewer_ba.Sources.Candidates.{Timed}
use minecraft_team_viewer_ba.Sources.Players.{PlayerSourceSelections}
use minecraft_team_viewer_ba.Prelude.{Bool, List, Option, [], false, none, ℕ, ◌*◌}

pub data ConnectionKind : Type 0 where
  player : ConnectionKind
  external_source : ConnectionKind
  web_map : ConnectionKind

-- `bytes` is the payload before its encoding, and `has_digest` whether a digest goes with it.
pub record StateFrame : Type 0 where
  pub revision : ℕ
  pub bytes : Option Payload
  pub has_digest : Bool
  pub snapshot : SnapshotFull
  pub battle_revision : ℕ

pub record Connection : Type 0 where
  pub room : Text
  pub protocol : ProtocolProfile
  pub kind : ConnectionKind
  pub display_name : Option Text
  pub position_resolution : Option F64
  pub program_version : Text
  pub remote_addr : Text
  pub connected_at : ℤ
  pub state : Option StateFrame
  pub movement : Option (List (List (ObjectUpsert PlayerDelta)))
  pub unreliable_positions : Bool
  pub last_position_refresh : ℕ
  pub delivered_revision : ℕ
  pub delivered_snapshot : Option SnapshotFull
  pub delivered_battle_revision : ℕ
  pub next_digest_at : ℕ
  pub force_full : Bool
  pub tab_history_subscribed : Bool

pub record BattleProjection : Type 0 where
  pub dimension : Text
  pub base_chunk_x : ℤ
  pub base_chunk_z : ℤ
  pub snapshot_observed_at : ℤ
  pub chunk_ids : List Text

pub record SourceState : Type 0 where
  pub room : Text
  pub players : Map Text (Timed PlayerData)
  pub entities : Map Text (Timed EntityData)
  pub waypoints : Map Text (Timed WaypointData)
  pub last_seen_players : Map Text (Timed LastSeenPlayerData)
  pub tab_players : List TabPlayerEntry
  pub tab_received_at : Option ℕ
  pub tab_timestamp : Option F64
  pub battle_chunks : Map Text (Timed BattleChunkEntry)
  pub battle_projection : Option BattleProjection
  pub external_health : Option ℤ
  pub external_failure_code : Option Text
  pub external_status_received_at : Option F64
  pub external_last_healthy_at : Option F64

-- `SourceState::default()`
abbrev pub default_source : SourceState
default_source = record {
  room = [];
  players = [];
  entities = [];
  waypoints = [];
  last_seen_players = [];
  tab_players = [];
  tab_received_at = none;
  tab_timestamp = none;
  battle_chunks = [];
  battle_projection = none;
  external_health = none;
  external_failure_code = none;
  external_status_received_at = none;
  external_last_healthy_at = none;
}

pub record ScopeSelections : Type 0 where
  pub players : PlayerSourceSelections
  pub entities : Map Text Text
  pub waypoints : Map Text Text
  pub battle_chunks : Map Text Text
  pub last_seen_players : Map Text Text

-- The fields `selected_*` of the source are the record `selections`.
pub record RoomFrame : Type 0 where
  pub revision : ℕ
  pub snapshot : SnapshotFull
  pub web_snapshot : SnapshotFull
  pub selections : ScopeSelections

abbrev pub default_selections : ScopeSelections
default_selections = record {
  players = record { selected_sources = []; game_seen_since = [] };
  entities = [];
  waypoints = [];
  battle_chunks = [];
  last_seen_players = [];
}

-- `RoomFrame::default()`
abbrev pub default_room : RoomFrame
default_room = record {
  revision = 0;
  snapshot = default_snapshot;
  web_snapshot = default_snapshot;
  selections = default_selections;
}

-- The fields of the JSON record of an external source that left.
pub record DisconnectedSource : Type 0 where
  pub actor_id : Text
  pub display_name : Text
  pub room_code : Text
  pub protocol_version : ProtocolVersion
  pub program_version : Text
  pub remote_addr : Text
  pub connected_at : ℤ
  pub disconnected_at : ℤ
  pub health : Option ℤ
  pub failure_code : Option Text
  pub status_received_at : Option F64
  pub last_healthy_at : Option F64
  pub last_seen_player_count : ℕ

-- The parts of `RuntimeConfig` of src/config.rs that the relay reads, in seconds; the two durations of
-- the refresh requests, which are fractions of seconds there, in nanoseconds.
pub record RelayConfig : Type 0 where
  pub player_timeout_sec : ℕ
  pub entity_timeout_sec : ℕ
  pub waypoint_timeout_sec : ℕ
  pub battle_chunk_timeout_sec : ℕ
  pub tab_report_timeout_sec : ℕ
  pub battle_chunk_cache_retention_sec : ℕ
  pub battle_chunk_cache_max_entries : ℕ
  pub movement_refresh_sec : ℕ
  pub digest_interval_sec : ℕ
  pub refresh_cooldown : ℕ
  pub refresh_lead : ℕ
  pub refresh_max_items : ℕ

-- Without the broadcast frequency, which only sets the pace of the event loop, and the counters of the
-- feature memory-debug.
pub record Relay : Type 0 where
  pub connections : Map Text Connection
  pub sources : Map Text SourceState
  pub battle_caches : Map Text BattleRoomCache
  pub rooms : Map Text RoomFrame
  pub dirty : Bool
  pub config : RelayConfig
  pub player_connection_count : ℕ
  pub last_refresh_sent : Map Text ℕ
  pub player_marks : Map Text PlayerMark
  pub same_server_filter_enabled : Bool
  pub scoped_selections : Map (Text × List Text) ScopeSelections
  pub disconnected_external_sources : List DisconnectedSource

-- `Relay::new`
unfoldable pub new_relay : RelayConfig → Bool → Relay
new_relay config same_server_filter_enabled = record {
  connections = [];
  sources = [];
  battle_caches = [];
  rooms = [];
  dirty = false;
  config = config;
  player_connection_count = 0;
  last_refresh_sent = [];
  player_marks = [];
  same_server_filter_enabled = same_server_filter_enabled;
  scoped_selections = [];
  disconnected_external_sources = [];
}

-- What the clocks of the system say: `Instant::now`, `unix_millis` and `unix_seconds`.
pub record Clock : Type 0 where
  pub now : ℕ
  pub unix_millis : ℤ
  pub unix_seconds : F64

abbrev pub seconds : ℕ → ℕ
seconds n = n * 1000000000

-- `Timed::new`
abbrev pub timed : {T : Type 0} → T → ℕ → Timed T
timed content received_at = record { content = content; received_at = received_at }
