-- ===== src/Relay/Report.antt =====
-- `apply_report` of src/relay.rs: what one report of a client changes.
use minecraft_team_viewer_ba.Objects.Waypoint.{WaypointData, WaypointDelta}
use minecraft_team_viewer_ba.Objects.Entity.{EntityData, EntityDelta}
use minecraft_team_viewer_ba.Objects.Player.{PlayerData, PlayerDelta}
use minecraft_team_viewer_ba.Sources.Candidates.{Timed}
use minecraft_team_viewer_ba.Battle.Types.{BattleChunkRef, battle_key_order}
use minecraft_team_viewer_ba.Objects.Table.{
  ObjectKind, apply_object_patch, entity_kind, last_seen_kind, player_kind, replace_objects,
  waypoint_kind,
}
use minecraft_team_viewer_ba.Prelude.Map.{Map, insert}
use minecraft_team_viewer_ba.Relay.Observation.{BattleMapObservation, remove_keys}
use minecraft_team_viewer_ba.Relay.Types.{Clock, SourceState}
use minecraft_team_viewer_ba.Snapshot.Types.{LastSeenPlayerData, PatchScope, TabPlayerEntry}
use minecraft_team_viewer_ba.Prelude.{List, Option, [], ite, map, map_option, none, some, ℕ, ◌∷◌}
use minecraft_team_viewer_ba.Prelude.Text.{Text, nat_key, text_key}
use minecraft_team_viewer_ba.Prelude.Int.{pos, ℤ, ℤ-discrete}

pub record ExternalSourceStatus : Type 0 where
  pub health : ℤ
  pub failure_code : Option Text

-- `TabPlayersPatch`, with the key and the data of each upsert.
pub record TabPlayersPatch : Type 0 where
  pub upsert : List (Text × Option TabPlayerEntry)
  pub delete : List Text

pub record StateKeepalive : Type 0 where
  pub players : List Text
  pub entities : List Text
  pub battle_chunks : List BattleChunkRef

pub record PlayerReportBundle : Type 0 where
  pub external_source_status : Option ExternalSourceStatus
  pub players_replace : Option (Map Text PlayerData)
  pub players_patch : Option (PatchScope PlayerDelta)
  pub entities_replace : Option (Map Text EntityData)
  pub entities_patch : Option (PatchScope EntityDelta)
  pub waypoints_replace : Option (Map Text WaypointData)
  pub waypoints_patch : Option (PatchScope WaypointDelta)
  pub last_seen_players_replace : Option (Map Text LastSeenPlayerData)
  pub last_seen_players_patch : Option (PatchScope LastSeenPlayerData)
  pub tab_players_replace : Option (List TabPlayerEntry)
  pub tab_players_patch : Option TabPlayersPatch
  pub battle_map_observation : Option BattleMapObservation
  pub state_keepalive : Option StateKeepalive
  pub waypoints_delete : Option (List Text)
  pub source_state_clear : Option (List Text)
  pub waypoints_entity_death_cancel : Option (List Text)

-- `PlayerReportBundle::default()`
abbrev pub default_report : PlayerReportBundle
default_report = record {
  external_source_status = none;
  players_replace = none;
  players_patch = none;
  entities_replace = none;
  entities_patch = none;
  waypoints_replace = none;
  waypoints_patch = none;
  last_seen_players_replace = none;
  last_seen_players_patch = none;
  tab_players_replace = none;
  tab_players_patch = none;
  battle_map_observation = none;
  state_keepalive = none;
  waypoints_delete = none;
  source_state_clear = none;
  waypoints_entity_death_cancel = none;
}

-- `ExternalSourceHealth::Healthy as i32`, a number of the generated protocol types, is a parameter of
-- what reads it.
unfoldable pub apply_status : ℤ → Clock → Option ExternalSourceStatus → SourceState → SourceState
apply_status healthy clock none source = source
apply_status healthy clock (some status) source = record source {
  external_health = some status.health;
  external_failure_code = status.failure_code;
  external_status_received_at = some clock.unix_seconds;
  external_last_healthy_at =
      ite (ℤ-discrete status.health healthy) (some clock.unix_seconds)
        source.external_last_healthy_at;
}

-- A replacement and then a patch of a table of objects.
module _ {V D : Type 0} (kind : ObjectKind V D) (now : ℕ) where
  unfoldable pub replaced : Option (Map Text V) → Map Text (Timed V) → Map Text (Timed V)
  unfolding replace_objects
  replaced none table = table
  replaced (some objects) table = replace_objects kind now objects

  unfoldable pub patched : Option (PatchScope D) → Map Text (Timed V) → Map Text (Timed V)
  unfolding apply_object_patch
  patched none table = table
  patched (some patch) table = apply_object_patch kind now (patch.upsert, patch.delete) table

-- An empty last-seen player, which its table never uses.
abbrev pub default_last_seen : LastSeenPlayerData
default_last_seen = record {
  player_uuid = [];
  player_name = none;
  dimension = [];
  x = 0;
  y = 0;
  z = 0;
  last_seen_at_utc_ms = pos 0;
  position_observed_at_utc_ms = none;
  offline_detected_at_utc_ms = none;
}

unfoldable pub apply_objects : ℕ → PlayerReportBundle → SourceState → SourceState
unfolding replaced patched
apply_objects now report source = record source {
  players =
      patched player_kind now report.players_patch
        (replaced player_kind now report.players_replace source.players);
  entities =
      patched entity_kind now report.entities_patch
        (replaced entity_kind now report.entities_replace source.entities);
  waypoints =
      patched waypoint_kind now report.waypoints_patch
        (replaced waypoint_kind now report.waypoints_replace source.waypoints);
  last_seen_players =
      patched (last_seen_kind default_last_seen) now report.last_seen_players_patch (
        replaced (last_seen_kind default_last_seen) now report.last_seen_players_replace
          source.last_seen_players);
}

-- `to_lowercase` of the standard library, which follows the tables of Unicode, is a parameter.
unfoldable pub tab_key : (Text → Text) → TabPlayerEntry → Option Text
tab_key to_lowercase entry = elim entry.uuid [
  | some uuid ↦ some uuid
  | none ↦ map_option to_lowercase entry.name
]

-- `filter_map(...).collect()` of the entries with a key; a later entry replaces an earlier one.
unfoldable pub keyed_tab :
    (Text → Text) → List TabPlayerEntry → Map Text TabPlayerEntry → Map Text TabPlayerEntry
unfolding tab_key
keyed_tab to_lowercase [] keyed = keyed
keyed_tab to_lowercase (entry ∷ entries) keyed =
    keyed_tab to_lowercase entries
      (elim (tab_key to_lowercase entry) [ none ↦ keyed | some key ↦ insert key entry keyed ])

unfoldable pub upsert_tab :
    List (Text × Option TabPlayerEntry) → Map Text TabPlayerEntry → Map Text TabPlayerEntry
upsert_tab [] keyed = keyed
upsert_tab ((key, none) ∷ upserts) keyed = upsert_tab upserts keyed
upsert_tab ((key, some entry) ∷ upserts) keyed = upsert_tab upserts (insert key entry keyed)

unfoldable pub replace_tab : Clock → Option (List TabPlayerEntry) → SourceState → SourceState
replace_tab clock none source = source
replace_tab clock (some entries) source = record source {
  tab_players = entries;
  tab_received_at = some clock.now;
  tab_timestamp = some clock.unix_seconds;
}

unfoldable pub patch_tab :
    (Text → Text) → Clock → Option TabPlayersPatch → SourceState → SourceState
unfolding keyed_tab upsert_tab remove_keys
patch_tab to_lowercase clock none source = source
patch_tab to_lowercase clock (some patch) source = record source {
  tab_players =
      map (λ e. e.1)
        (remove_keys patch.delete
          (upsert_tab patch.upsert (keyed_tab to_lowercase source.tab_players [])));
  tab_received_at = some clock.now;
  tab_timestamp = some clock.unix_seconds;
}
