-- ===== src/Relay/Tests.antt =====
-- Runs of the relay of src/relay.rs, and its theorems at them.
use minecraft_team_viewer_ba.Objects.Waypoint.{default_waypoint}
use minecraft_team_viewer_ba.Relay.Online.{IsOther, room_objects-offline}
use minecraft_team_viewer_ba.Sources.Candidates.{
  choose, find_source, max_by, max_from, newer, outranks, resolve_candidates, same_priority, stick,
  still_there,
}
use minecraft_team_viewer_ba.Sources.Players.{
  better_game, choose_player, find_selected, game_sources, has_taken_over, is_among, keep_sources,
  or_else, or_insert_all, pick, resolve_player_candidates, resolve_players, retain_active,
  retain_selected, seen_after, update_seen,
}
use minecraft_team_viewer_ba.Relay.Candidates.{
  collect_candidates, collect_from, is_allowed, push_candidates,
}
use minecraft_team_viewer_ba.Relay.Keeps.{IsSound}
use minecraft_team_viewer_ba.Relay.Room.{
  SourceKinds, attribute_all, attributed, is_external, is_offline, online_ids, player_priority,
  resolve_values, room_objects, scope_order, source_kind,
}
use minecraft_team_viewer_ba.Snapshot.Types.{LastSeenPlayerData, SnapshotFull}
use minecraft_team_viewer_ba.Relay.Isolation.{
  HasDistinctWaypoints, IsIsolated, apply_report-IsIsolated,
}
use minecraft_team_viewer_ba.Snapshot.Diff.{same_text}
use minecraft_team_viewer_ba.Battle.Update.{is_empty}
use minecraft_team_viewer_ba.Compat.Version.{version, version_ltb, version_min}
use minecraft_team_viewer_ba.Compat.Profile.{agree}
use minecraft_team_viewer_ba.Objects.Entity.{default_entity, normalize_entity}
use minecraft_team_viewer_ba.Objects.Table.{replace_objects}
use minecraft_team_viewer_ba.Relay.Commands.{delete_all}
use minecraft_team_viewer_ba.Door.Suite.{to_ascii_lowercase}
use minecraft_team_viewer_ba.Objects.Player.{PlayerData, default_player, normalize_player}
use minecraft_team_viewer_ba.Relay.Deletion.{Deleted, delete_all-at, waypoint_at}
use minecraft_team_viewer_ba.Relay.Events.{
  RegisterConnection, clear_source, cleared_source, count, disconnect, disconnected_source,
  has_live_state, push_disconnected, record_disconnected, register_connection, registered,
  update_player_connection_count,
}
use minecraft_team_viewer_ba.Relay.Timeouts.{cleanup_timeouts}
use minecraft_team_viewer_ba.Prelude.Map.{contains_key, insert, lookup, remove, retain}
use minecraft_team_viewer_ba.Relay.Admin.{eq_ignore_ascii_case, purge_room, room_active_connections}
use minecraft_team_viewer_ba.Relay.Apply.{
  apply_clear, apply_keepalive, apply_report, death_targets, delete_reported_waypoints, observe_map,
  report_source, room_of, update_cache,
}
use minecraft_team_viewer_ba.Relay.Fresh.{Cleaned, DistinctAt, cleanup_timeouts-Cleaned}
use minecraft_team_viewer_ba.Relay.Handler.{
  Protocol, RelayEvent, disconnected, handle_event, player_report, register,
}
use minecraft_team_viewer_ba.Relay.Invariant.{Reached, Reached-IsSound, handled, start}
use minecraft_team_viewer_ba.Relay.Purge.{purge_room-refuses}
use minecraft_team_viewer_ba.Relay.Report.{
  PlayerReportBundle, apply_objects, apply_status, default_last_seen, default_report, patch_tab,
  patched, replace_tab, replaced,
}
use minecraft_team_viewer_ba.Relay.Types.{
  Clock, Connection, ConnectionKind, Relay, RelayConfig, default_selections, default_source,
  new_relay, seconds, timed,
}
use minecraft_team_viewer_ba.Prelude.{
  [], arith, contains, false, map, none, refl, some, sym, true, ℕ, ℕ_discrete, ◌&&◌, ◌*◌, ◌<◌, ◌∙◌,
  ◌∷◌, ◌≡◌, ◌≢◌,
}
use minecraft_team_viewer_ba.Prelude.Text.{Text, Text-discrete, codes, nat_key, text_key, text_ltb}
use minecraft_team_viewer_ba.Prelude.Int.{ltb_ℤ, pos}

-- ASCII letters in lower case, and the health numbers 1 (healthy) to 3.
abbrev protocol : Protocol
protocol = record {
  to_lowercase = map to_ascii_lowercase;
  healthy = pos 1;
  is_health = λ n. ltb_ℤ (pos 0) n && ltb_ℤ n (pos 4);
}

abbrev config : RelayConfig
config = record {
  player_timeout_sec = 60;
  entity_timeout_sec = 60;
  waypoint_timeout_sec = 120;
  battle_chunk_timeout_sec = 240;
  tab_report_timeout_sec = 30;
  battle_chunk_cache_retention_sec = 3600;
  battle_chunk_cache_max_entries = 100;
  movement_refresh_sec = 5;
  digest_interval_sec = 10;
  refresh_cooldown = seconds 2;
  refresh_lead = seconds 5;
  refresh_max_items = 50;
}

abbrev at : ℕ → Clock
at s = record { now = seconds s; unix_millis = pos (s * 1000); unix_seconds = s }

abbrev client : ConnectionKind → Text → RegisterConnection
client kind id = record {
  id = id;
  room = codes "home";
  protocol = agree (version 0 9 5) (version 0 8 0);
  kind = kind;
  display_name = none;
  position_resolution = none;
  program_version = codes "1.0";
  remote_addr = codes "10.0.0.1";
  unreliable_positions = true;
}

abbrev Event : Type 0
Event = RelayEvent Text Text

abbrev handle : ℕ → Event → Relay → Relay
handle s e relay = (handle_event protocol (at s) (codes "0123abcd") e relay).0

-- Two players come at once, and one reports a player and an entity.
abbrev seen : PlayerReportBundle
seen = record default_report {
  players_replace = some ((codes "p1", record default_player { x = 5 }) ∷ []);
  entities_replace = some ((codes "e1", default_entity) ∷ []);
}

abbrev joined : Relay
joined =
    handle 1 (register (client ConnectionKind.player (codes "b")))
      (handle 1 (register (client ConnectionKind.player (codes "a"))) (new_relay config false))

abbrev reported : Relay
reported = handle 2 (player_report (codes "a") seen) joined

abbrev left : Relay
left = handle 3 (disconnected (codes "b")) (handle 3 (disconnected (codes "a")) reported)

program : Unit {0}
unfolding handle_event new_relay register_connection registered update_player_connection_count count
    disconnect record_disconnected disconnected_source push_disconnected clear_source has_live_state
    cleared_source apply_report room_of report_source apply_status apply_objects replaced patched
    replace_objects replace_tab patch_tab observe_map apply_keepalive delete_reported_waypoints
    apply_clear update_cache death_targets is_empty insert lookup remove normalize_player
    normalize_entity text_ltb Text-discrete ℕ_discrete agree version_min version_ltb
    room_active_connections
program = tt

counted : reported.player_connection_count ≡ 2
unfolding program
counted = refl

emptied : left.sources ≡ []
unfolding program
emptied = refl

home_active : room_active_connections (codes "home") reported ≡ 2
unfolding program
home_active = refl

home_left : room_active_connections (codes "home") left ≡ 0
unfolding program
home_left = refl

-- One source has a mark that lasts three seconds, the other one on an entity.
abbrev marked : Relay
marked = record reported {
  sources =
      (
        codes "a",
        record default_source {
          room = codes "home";
          waypoints =
              (codes "w", timed (record default_waypoint { ttl_seconds = some (pos 3) }) 0) ∷ [];
        },
      )
      ∷ (
        codes "b",
        record default_source {
          room = codes "home";
          waypoints =
              (
                codes "m",
                timed
                    (record default_waypoint {
                      target_type = some (codes "entity");
                      target_entity_id = some (codes "e1");
                    })
                    0,
              )
              ∷ [];
        },
      )
      ∷ [];
}

marked-IsDistinct : DistinctAt (lookup (codes "a") marked.sources)
unfolding program
marked-IsDistinct = record {
  players = tt;
  entities = tt;
  waypoints = (refl, tt);
  battle_chunks = tt;
}

cleanup_timeouts-Cleaned_example :
    let after = (cleanup_timeouts (seconds 90) marked).0 in
    Cleaned marked.config
      (seconds 90)
      (contains_key (codes "a") marked.connections)
      (lookup (codes "a") marked.sources)
      (lookup (codes "a") after.sources)
    × (record after { sources = marked.sources; battle_caches = marked.battle_caches } ≡ marked)
cleanup_timeouts-Cleaned_example =
    cleanup_timeouts-Cleaned (seconds 90) marked (codes "a") marked-IsDistinct

history : Reached Text Text protocol config left
history = handled (at 3) (codes "0123abcd") (disconnected (codes "b")) (
    handled (at 3) (codes "0123abcd") (disconnected (codes "a")) (
      handled (at 2) (codes "0123abcd") (player_report (codes "a") seen) (
        handled (at 1) (codes "0123abcd") (register (client ConnectionKind.player (codes "b"))) (
          handled (at 1) (codes "0123abcd") (register (client ConnectionKind.player (codes "a")))
            (start false)))))

Reached-IsSound_example : IsSound left
Reached-IsSound_example = Reached-IsSound Text Text protocol config history

abbrev first : Connection
first = registered (at 1) (client ConnectionKind.player (codes "a"))

first-connected : lookup (codes "a") reported.connections ≡ some first
unfolding program
first-connected = refl

first-at_home : same_text first.room (codes "home") ≡ true
unfolding registered Text-discrete
first-at_home = refl

purge_room-refuses_example :
    let answer = purge_room (codes "home") reported in
    (answer.0 ≡ reported)
    × (0 < (answer.1).active_connections)
    × ((answer.1).active_connections ≡ room_active_connections (codes "home") reported)
    × ((answer.1).sources ≡ 0)
    × ((answer.1).last_seen_records ≡ 0)
    × ((answer.1).room_frames ≡ 0)
    × ((answer.1).disconnected_external_sources ≡ 0)
purge_room-refuses_example =
    purge_room-refuses (codes "home") (codes "a") first reported first-connected first-at_home

-- A source of a room that nobody is in any more.
abbrev abandoned : Relay
abandoned = record left {
  sources =
      (codes "a", record default_source { room = codes "home" })
      ∷ (codes "b", record default_source { room = codes "away" })
      ∷ [];
}

home-is_room : room_of (codes "a") marked ≡ codes "home"
unfolding program
home-is_room = refl

home-ne_camp : room_of (codes "a") marked ≢ codes "camp"
home-ne_camp e = ground (arith, sym home-is_room ∙ e)

a-ne_b : codes "a" ≢ codes "b"
a-ne_b e = ground (arith, e)

b-IsDistinct : HasDistinctWaypoints (lookup (codes "b") marked.sources)
unfolding program
b-IsDistinct = (refl, tt)

-- The report says that the entity of the other source's mark died.
abbrev mourning : PlayerReportBundle
mourning = record seen { waypoints_entity_death_cancel = some (codes "e1" ∷ []) }

apply_report-IsIsolated_example :
    IsIsolated mourning.waypoints_entity_death_cancel
      (codes "b")
      (codes "camp")
      marked
      (apply_report protocol.to_lowercase protocol.healthy (at 2) (codes "a") mourning marked)
apply_report-IsIsolated_example =
    apply_report-IsIsolated protocol.to_lowercase protocol.healthy (at 2) (codes "a") mourning
      marked (codes "b") (codes "camp") a-ne_b home-ne_camp b-IsDistinct

delete_all-at_example :
    Deleted
      (codes "home")
      (codes "m" ∷ [])
      (codes "m")
      (codes "b")
      (lookup (codes "b") marked.sources)
      (waypoint_at
        (codes "m")
        (lookup (codes "b") (delete_all (codes "home") (codes "m" ∷ []) marked.sources).0))
delete_all-at_example =
    delete_all-at (codes "home") (codes "m") (codes "b") (codes "m" ∷ []) marked.sources

-- A player who is online, and one who was seen before.
abbrev steve : PlayerData
steve = record default_player { player_uuid = some (codes "U1") }

abbrev gone : LastSeenPlayerData
gone = record default_last_seen { player_uuid = codes "u2" }

abbrev busy : Relay
busy = record joined {
  sources =
      (
        codes "a",
        record default_source {
          room = codes "home";
          players = (codes "p1", timed steve 0) ∷ [];
          last_seen_players =
              (codes "P1", timed (record gone { player_uuid = codes "u1" }) 0)
              ∷ (codes "p2", timed gone 0)
              ∷ [];
        },
      )
      ∷ [];
}

abbrev kinds : SourceKinds
kinds = record { external = pos 3; self_report = pos 1; player_report = pos 2 }

abbrev shown : SnapshotFull
shown = (room_objects kinds 5 (codes "home") none default_selections busy).0

building : Unit {0}
unfolding program room_objects collect_candidates collect_from is_allowed push_candidates
    resolve_player_candidates resolve_players choose_player pick keep_sources seen_after or_else
    find_selected find_source better_game has_taken_over retain_selected is_external player_priority
    eq_ignore_ascii_case outranks newer update_seen or_insert_all retain_active is_among
    game_sources still_there stick same_priority resolve_candidates choose max_by max_from
    resolve_values attribute_all attributed source_kind online_ids is_offline contains retain
    to_ascii_lowercase
building = tt

gone-seen : lookup (codes "p2") shown.last_seen_players ≡ some gone
unfolding building
gone-seen = refl

abbrev reported_steve : PlayerData
reported_steve = record steve {
  position_source_id = some (codes "a");
  position_source_kind = some (pos 2);
}

steve-shown : lookup (codes "p1") shown.players ≡ some reported_steve
unfolding building
steve-shown = refl

-- Steve himself is not shown as last seen.
steve-not_seen : lookup (codes "P1") shown.last_seen_players ≡ none
unfolding building
steve-not_seen = refl

room_objects-offline_example :
    IsOther (codes "p2") (codes "p1")
    × IsOther gone.player_uuid (codes "p1")
    × ((uuid : Text)
        → reported_steve.player_uuid ≡ some uuid
        → IsOther (codes "p2") uuid × IsOther gone.player_uuid uuid)
room_objects-offline_example =
    room_objects-offline kinds 5 (codes "home") none default_selections busy (codes "p2")
      (codes "p1") gone reported_steve gone-seen steve-shown
