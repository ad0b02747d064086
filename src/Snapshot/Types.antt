-- ===== src/Snapshot/Types.antt =====
-- The messages that src/relay.rs and src/protocol_compat.rs build: snapshots and patches.
use minecraft_team_viewer_ba.Battle.Types.{
  BattleChunkEntry, BattleChunkPatchScope, battle_key_order,
}
use minecraft_team_viewer_ba.Objects.Waypoint.{WaypointData, WaypointDelta}
use minecraft_team_viewer_ba.Objects.Entity.{EntityData, EntityDelta}
use minecraft_team_viewer_ba.Prelude.Int.{ℤ}
use minecraft_team_viewer_ba.Objects.Fields.{F64}
use minecraft_team_viewer_ba.Objects.Player.{PlayerData, PlayerDelta}
use minecraft_team_viewer_ba.Objects.Table.{ObjectUpsert}
use minecraft_team_viewer_ba.Prelude.Map.{Map}
use minecraft_team_viewer_ba.Prelude.Text.{Text, nat_key, text_key}
use minecraft_team_viewer_ba.Prelude.{Bool, List, Option, [], false, none, ℕ}

pub record FormattedTextSpan : Type 0 where
  pub text : Text
  pub color_argb : Option ℕ
  pub shadow_color_argb : Option ℕ
  pub bold : Option Bool
  pub italic : Option Bool
  pub underlined : Option Bool
  pub strikethrough : Option Bool
  pub obfuscated : Option Bool
  pub font_id : Option Text

pub record FormattedText : Type 0 where
  pub plain_text : Text
  pub spans : List FormattedTextSpan

pub record TabPlayerEntry : Type 0 where
  pub uuid : Option Text
  pub name : Option Text
  pub display_name : Option Text
  pub prefixed_name : Option Text
  pub scoreboard_team_id : Option Text
  pub scoreboard_prefix : Option Text
  pub scoreboard_suffix : Option Text
  pub scoreboard_color_rgb : Option ℕ
  pub formatted_display_name : Option FormattedText
  pub formatted_scoreboard_prefix : Option FormattedText
  pub formatted_scoreboard_suffix : Option FormattedText

pub record TabPlayerReport : Type 0 where
  pub timestamp : Option F64
  pub players : List TabPlayerEntry

pub record SameServerGroup : Type 0 where
  pub group_id : Text
  pub members : List Text

pub record WebMapTabState : Type 0 where
  pub enabled : Bool
  pub room_code : Text
  pub reports : Map Text TabPlayerReport
  pub groups : List SameServerGroup

-- `WebMapTabState::default()`
abbrev pub default_tab_state : WebMapTabState
default_tab_state = record { enabled = false; room_code = []; reports = []; groups = [] }

pub record LastSeenPlayerData : Type 0 where
  pub player_uuid : Text
  pub player_name : Option Text
  pub dimension : Text
  pub x : F64
  pub y : F64
  pub z : F64
  pub last_seen_at_utc_ms : ℤ
  pub position_observed_at_utc_ms : Option ℤ
  pub offline_detected_at_utc_ms : Option ℤ

pub record PlayerMark : Type 0 where
  pub team : Text
  pub color : Option Text
  pub label : Option Text
  pub source : Option Text

pub record SnapshotFull : Type 0 where
  pub players : Map Text PlayerData
  pub entities : Map Text EntityData
  pub waypoints : Map Text WaypointData
  pub battle_chunks : List BattleChunkEntry
  pub last_seen_players : Map Text LastSeenPlayerData
  pub player_marks : Map Text PlayerMark
  pub tab_state : Option WebMapTabState
  pub room_code : Option Text
  pub connections : List Text
  pub connections_count : Option ℤ
  pub server_time : Option F64

-- `SnapshotFull::default()`
abbrev pub default_snapshot : SnapshotFull
default_snapshot = record {
  players = [];
  entities = [];
  waypoints = [];
  battle_chunks = [];
  last_seen_players = [];
  player_marks = [];
  tab_state = none;
  room_code = none;
  connections = [];
  connections_count = none;
  server_time = none;
}

-- `PlayerPatchScope` and its like.
pub record PatchScope (D : Type 0) : Type 0 where
  pub upsert : List (ObjectUpsert D)
  pub delete : List Text

pub record TabStatePatch : Type 0 where
  pub enabled : Option Bool
  pub room_code : Option Text
  pub groups : Option (List SameServerGroup)
  pub upsert_reports : Map Text TabPlayerReport
  pub delete_reports : List Text

pub record Patch : Type 0 where
  pub players : Option (PatchScope PlayerDelta)
  pub entities : Option (PatchScope EntityDelta)
  pub waypoints : Option (PatchScope WaypointDelta)
  pub battle_chunks : Option BattleChunkPatchScope
  pub last_seen_players : Option (PatchScope LastSeenPlayerData)
  pub player_marks : Option (PatchScope PlayerMark)
  pub tab_state_patch : Option TabStatePatch
  pub connections : Option (List Text)
  pub connections_count : Option ℤ
  pub server_time : Option F64

-- `Patch::default()`
abbrev pub default_patch : Patch
default_patch = record {
  players = none;
  entities = none;
  waypoints = none;
  battle_chunks = none;
  last_seen_players = none;
  player_marks = none;
  tab_state_patch = none;
  connections = none;
  connections_count = none;
  server_time = none;
}
