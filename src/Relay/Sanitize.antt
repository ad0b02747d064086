-- ===== src/Relay/Sanitize.antt =====
-- `sanitize_player_report` of src/protocol_compat.rs: what a peer of an older version does not know is
-- dropped from its report.
use minecraft_team_viewer_ba.Relay.Report.{PlayerReportBundle}
use minecraft_team_viewer_ba.Compat.Profile.{
  ProtocolProfile, supports_battle_chunk_mode, supports_external_source_role,
  supports_last_seen_players,
}
use minecraft_team_viewer_ba.Relay.Observation.{BattleMapObservation}
use minecraft_team_viewer_ba.Prelude.{if◌then◌else◌, map_option, none}
use minecraft_team_viewer_ba.Prelude.Text.{nat_key, text_key}

abbrev pub without_map_mode : BattleMapObservation → BattleMapObservation
without_map_mode observation = record observation { mode = none }

unfoldable pub sanitize_player_report : ProtocolProfile → PlayerReportBundle → PlayerReportBundle
sanitize_player_report profile report =
    let knows_last_seen = supports_last_seen_players profile in
    record report {
      battle_map_observation =
          if supports_battle_chunk_mode profile
          then report.battle_map_observation
          else map_option without_map_mode report.battle_map_observation;
      external_source_status =
          if supports_external_source_role profile then report.external_source_status else none;
      last_seen_players_replace =
          if knows_last_seen then report.last_seen_players_replace else none;
      last_seen_players_patch = if knows_last_seen then report.last_seen_players_patch else none;
    }
