-- ===== src/Relay/Keeps.antt =====
-- The operations of the relay of src/relay.rs that neither connect nor disconnect anyone.
use minecraft_team_viewer_ba.Battle.Update.{is_empty}
use minecraft_team_viewer_ba.Objects.Fields.{F64}
use minecraft_team_viewer_ba.Relay.WebMap.{
  Command, TacticalWaypoint, clear_all_player_marks, clear_player_mark, delete_waypoints,
  resync_request, set_player_mark, set_same_server_filter, set_tactical_waypoint,
}
use minecraft_team_viewer_ba.Snapshot.Types.{PlayerMark, SnapshotFull}
use minecraft_team_viewer_ba.Prelude.Int.{ℤ}
use minecraft_team_viewer_ba.Prelude.Map.{Map, lookup, modify}
use minecraft_team_viewer_ba.Relay.Admin.{
  of_other_rooms, purge_room, removed_room, room_active_connections,
}
use minecraft_team_viewer_ba.Relay.Commands.{
  apply_web_map_command, clear_mark, clear_marks, delete_room_waypoints, finite, force_full,
  is_web_map, place_finite, place_tactical, run_command, set_mark, set_tactical,
}
use minecraft_team_viewer_ba.Relay.Handler.{deliver}
use minecraft_team_viewer_ba.Relay.Types.{Clock, Connection, DisconnectedSource, Relay, SourceState}
use minecraft_team_viewer_ba.Relay.Events.{
  count, is_external_source, is_player, max_disconnected_sources, push_disconnected,
  record_disconnected,
}
use minecraft_team_viewer_ba.Prelude.{
  Bool, Bool-cases, List, Option, [], ap, arith, inl, inr, length, length-drop, ltb, none, refl,
  some, sym, true, ℕ, ◌++◌, ◌-◌, ◌∙◌, ◌∷◌, ◌≡◌, ◌≤◌,
}
use minecraft_team_viewer_ba.Prelude.Text.{Text, nat_key, text_key, trim}

abbrev pub players_of : Map Text Connection → ℕ
players_of connections = count (λ connection. is_player connection.kind) connections

pub record IsSound (relay : Relay) : Type 0 where
  pub counted : relay.player_connection_count ≡ players_of relay.connections
  pub bounded : length relay.disconnected_external_sources ≤ max_disconnected_sources

-- What an event may do to the part that the invariant is about.
count-modify :
    {V : Type 0} (test : V → Bool) (k : Text) (f : V → V) (m : Map Text V)
    → ((v : V) → test (f v) ≡ test v)
    → count test (modify k f m) ≡ count test m
unfolding count modify
count-modify test k f [] same = refl
count-modify test k f ((i, v) ∷ m) same = ground (arith, count-modify test k f m same, same v)

pub length-push_disconnected :
    (d : DisconnectedSource) (records : List DisconnectedSource)
    → length (push_disconnected d records) ≤ max_disconnected_sources
unfolding push_disconnected
length-push_disconnected d records =
    omega (arith, length-drop (length (records ++ d ∷ []) - 128) (records ++ d ∷ []))

length-of_other_rooms :
    (room : Text) (records : List DisconnectedSource)
    → length (of_other_rooms room records) ≤ length records
unfolding of_other_rooms
length-of_other_rooms room [] = omega arith
length-of_other_rooms room (d ∷ records) = ground (arith, length-of_other_rooms room records)

pub length-record_disconnected :
    (is_health : ℤ → Bool) (clock : Clock) (id : Text) (connection : Option Connection)
    (source : Option SourceState) (records : List DisconnectedSource)
    → length records ≤ max_disconnected_sources
    → length (record_disconnected is_health clock id connection source records)
      ≤ max_disconnected_sources
unfolding record_disconnected
length-record_disconnected is_health clock id none source records le = le
length-record_disconnected is_health clock id (some connection) source records le =
    elim (Bool-cases (is_external_source connection.kind)) [
      | inl e ↦ rw e (length-push_disconnected _ records)
      | inr e ↦ rw e le
    ]

-- An operation that neither connects nor disconnects anyone.
pub record Keeps (before after : Relay) : Type 0 where
  pub counter : after.player_connection_count ≡ before.player_connection_count
  pub players : players_of after.connections ≡ players_of before.connections
  pub disconnected :
      length after.disconnected_external_sources ≤ length before.disconnected_external_sources

pub Keeps-IsSound : {before after : Relay} → Keeps before after → IsSound before → IsSound after
Keeps-IsSound k s = record {
  counted = k.counter ∙ s.counted ∙ sym k.players;
  bounded = omega (arith, k.disconnected, s.bounded);
}

pub unchanged : {relay : Relay} → Keeps relay relay
unchanged = record { counter = refl; players = refl; disconnected = omega arith }

pub modify-Keeps :
    (relay : Relay) (id : Text) (f : Connection → Connection)
    → ((c : Connection) → (f c).kind ≡ c.kind)
    → Keeps relay (record relay { connections = modify id f relay.connections })
modify-Keeps relay id f same = record {
  counter = refl;
  players =
      count-modify (λ connection. is_player connection.kind) id f relay.connections
        (λ c. ap is_player (same c));
  disconnected = omega arith;
}

pub deliver-kind :
    (revision : ℕ) (snapshot : SnapshotFull) (battle_revision : ℕ) (c : Connection)
    → (deliver revision snapshot battle_revision c).kind ≡ c.kind
unfolding deliver
deliver-kind revision snapshot battle_revision c = ground arith

place_finite-Keeps :
    (clock : Clock) (random room : Text) (command : TacticalWaypoint) (relay : Relay)
    (x z : Option F64)
    → Keeps relay (place_finite clock random room command relay x z).0
unfolding place_finite place_tactical
place_finite-Keeps clock random room command relay (some x) (some z) = record {
  counter = refl;
  players = refl;
  disconnected = omega arith;
}
place_finite-Keeps clock random room command relay (some x) none = unchanged
place_finite-Keeps clock random room command relay none z = unchanged

set_mark-Keeps :
    (player_id : Text) (mark : PlayerMark) (relay : Relay)
    → Keeps relay (set_mark player_id mark relay).0
unfolding set_mark
set_mark-Keeps player_id mark relay = elim (Bool-cases (is_empty (trim player_id))) [
  | inl e ↦ rw e unchanged
  | inr e ↦ rw e (record { counter = refl; players = refl; disconnected = omega arith })
]

run_command-Keeps :
    (clock : Clock) (random id room : Text) (command : Option Command) (relay : Relay)
    → Keeps relay (run_command clock random id room command relay).0
unfolding run_command set_tactical force_full clear_mark clear_marks delete_room_waypoints
run_command-Keeps clock random id room none relay = unchanged
run_command-Keeps clock random id room (some resync_request) relay =
    let k = modify-Keeps relay id (λ c. record c { force_full = true }) (λ c. refl) in
    record { counter = refl; players = k.players; disconnected = k.disconnected }
run_command-Keeps clock random id room (some (set_player_mark player_id mark)) relay =
    set_mark-Keeps player_id mark relay
run_command-Keeps clock random id room (some (clear_player_mark player_id)) relay = record {
  counter = refl;
  players = refl;
  disconnected = omega arith;
}
run_command-Keeps clock random id room (some clear_all_player_marks) relay = record {
  counter = refl;
  players = refl;
  disconnected = omega arith;
}
run_command-Keeps clock random id room (some (set_same_server_filter enabled)) relay = record {
  counter = refl;
  players = refl;
  disconnected = omega arith;
}
run_command-Keeps clock random id room (some (set_tactical_waypoint command)) relay =
    place_finite-Keeps clock random room command relay (finite command.x) (finite command.z)
run_command-Keeps clock random id room (some (delete_waypoints ids)) relay = record {
  counter = refl;
  players = refl;
  disconnected = omega arith;
}

pub apply_web_map_command-Keeps :
    (clock : Clock) (random id : Text) (command : Option Command) (relay : Relay)
    → Keeps relay (apply_web_map_command clock random id command relay).0
unfolding apply_web_map_command
apply_web_map_command-Keeps clock random id command relay = go (lookup id relay.connections) refl
  where
    go :
        (c : Option Connection)
        → lookup id relay.connections ≡ c
        → Keeps relay (apply_web_map_command clock random id command relay).0
    go none e = rw (e, apply_web_map_command) unchanged
    go (some connection) e =
        rw (e, apply_web_map_command)
          (elim (Bool-cases (is_web_map connection.kind)) [
            | inl w ↦ rw w (run_command-Keeps clock random id connection.room command relay)
            | inr w ↦ rw w unchanged
          ])

pub purge_room-Keeps : (room : Text) (relay : Relay) → Keeps relay (purge_room room relay).0
unfolding purge_room removed_room
purge_room-Keeps room relay = elim (Bool-cases (ltb 0 (room_active_connections room relay))) [
  | inl e ↦ rw e unchanged
  | inr e ↦ rw e (record {
    counter = refl;
    players = refl;
    disconnected = length-of_other_rooms room relay.disconnected_external_sources;
  })
]
