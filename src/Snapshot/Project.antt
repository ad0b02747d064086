-- ===== src/Snapshot/Project.antt =====
-- `project_snapshot` of src/protocol_compat.rs: a snapshot without what a peer does not know.
use minecraft_team_viewer_ba.Prelude.Text.{nat_key, text_key}
use minecraft_team_viewer_ba.Battle.Types.{BattleChunkEntry, BattleChunkValue, battle_key_order}
use minecraft_team_viewer_ba.Compat.Profile.{
  ProtocolProfile, supports_battle_chunk_mode, supports_last_seen_players,
  supports_player_source_metadata, supports_tab_history,
}
use minecraft_team_viewer_ba.Objects.Player.{PlayerData}
use minecraft_team_viewer_ba.Prelude.Map.{Map}
use minecraft_team_viewer_ba.Snapshot.Types.{
  SnapshotFull, TabPlayerEntry, TabPlayerReport, WebMapTabState,
}
use minecraft_team_viewer_ba.Prelude.{Bool, [], if◌then◌else◌, map, map_option, none, not, ◌||◌}

-- A map with a function applied to every value.
abbrev pub map_values : {K V W : Type 0} → (V → W) → Map K V → Map K W
map_values f = map (λ e. (e.0, f e.1))

unfoldable pub without_mode : BattleChunkValue → BattleChunkValue
without_mode value = record value { mode = none }

unfoldable pub omit_mode : BattleChunkEntry → BattleChunkEntry
unfolding without_mode
omit_mode entry = record entry { payload = map_option without_mode entry.payload }

unfoldable pub omit_source_metadata : PlayerData → PlayerData
omit_source_metadata player = record player {
  position_source_id = none;
  position_source_kind = none;
  position_source_display_name = none;
  position_resolution = none;
}

unfoldable pub omit_scoreboard : TabPlayerEntry → TabPlayerEntry
omit_scoreboard player = record player {
  scoreboard_team_id = none;
  scoreboard_prefix = none;
  scoreboard_suffix = none;
  scoreboard_color_rgb = none;
  formatted_display_name = none;
  formatted_scoreboard_prefix = none;
  formatted_scoreboard_suffix = none;
}

unfoldable pub omit_scoreboards : TabPlayerReport → TabPlayerReport
unfolding omit_scoreboard
omit_scoreboards report = record report { players = map omit_scoreboard report.players }

unfoldable pub omit_tab_history : WebMapTabState → WebMapTabState
unfolding omit_scoreboards
omit_tab_history tab = record tab { reports = map_values omit_scoreboards tab.reports }

-- The four steps, each on a snapshot of its own.
unfoldable pub project_mode : ProtocolProfile → SnapshotFull → SnapshotFull
unfolding omit_mode
project_mode profile snapshot =
    if supports_battle_chunk_mode profile
    then snapshot
    else record snapshot { battle_chunks = map omit_mode snapshot.battle_chunks }

unfoldable pub project_last_seen : ProtocolProfile → SnapshotFull → SnapshotFull
project_last_seen profile snapshot =
    if supports_last_seen_players profile
    then snapshot
    else record snapshot { last_seen_players = [] }

unfoldable pub project_source_metadata : ProtocolProfile → SnapshotFull → SnapshotFull
unfolding omit_source_metadata
project_source_metadata profile snapshot =
    if supports_player_source_metadata profile
    then snapshot
    else record snapshot { players = map_values omit_source_metadata snapshot.players }

unfoldable pub project_tab_history : ProtocolProfile → SnapshotFull → SnapshotFull
unfolding omit_tab_history
project_tab_history profile snapshot =
    if supports_tab_history profile
    then snapshot
    else record snapshot { tab_state = map_option omit_tab_history snapshot.tab_state }

unfoldable pub needs_projection : ProtocolProfile → Bool
needs_projection profile =
    not (supports_battle_chunk_mode profile)
    || not (supports_last_seen_players profile)
    || not (supports_player_source_metadata profile)
    || not (supports_tab_history profile)

unfoldable pub project_snapshot : ProtocolProfile → SnapshotFull → SnapshotFull
unfolding needs_projection project_mode project_last_seen project_source_metadata
    project_tab_history
project_snapshot profile snapshot =
    if needs_projection profile
    then project_tab_history profile (
        project_source_metadata profile (project_last_seen profile (project_mode profile snapshot)))
    else snapshot
