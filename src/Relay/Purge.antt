-- ===== src/Relay/Purge.antt =====
-- What the deletion of a room in src/relay.rs leaves.
use minecraft_team_viewer_ba.Snapshot.Diff.{same_text}
use minecraft_team_viewer_ba.Relay.Events.{count}
use minecraft_team_viewer_ba.Prelude.Map.{Map, lookup}
use minecraft_team_viewer_ba.Relay.Admin.{in_room, purge_room, room_active_connections}
use minecraft_team_viewer_ba.Relay.Types.{Connection, DisconnectedSource, Relay, SourceState}
use minecraft_team_viewer_ba.Prelude.{
  Bool, List, Option, [], arith, false, if◌then◌else◌, ltb, none, refl, some, true, ℕ, ◌<◌, ◌∷◌,
  ◌≡◌, ◌≢◌, ◌⊎◌,
}
use minecraft_team_viewer_ba.Prelude.Text.{Text, Text-discrete, nat_key, text_key}

abbrev pub is_of_room : Text → Option SourceState → Bool
is_of_room room none = false
is_of_room room (some source) = in_room room source

abbrev pub NotOf : Text → List DisconnectedSource → List DisconnectedSource → Type 0
NotOf room [] after = after ≡ []
NotOf room (r ∷ before) after =
    ((r.room_code ≡ room) × NotOf room before after)
    ⊎ ((r.room_code ≢ room)
        × ((rest : List DisconnectedSource) × ((after ≡ r ∷ rest) × NotOf room before rest)))

-- The relay before and after the deletion of a room: what belongs to it is gone, the selections of all
-- rooms are forgotten, the broadcast is due, and all else is as before.
pub record IsPurged (room : Text) (before after : Relay) : Type 0 where
  pub sources :
      (id : Text)
      → lookup id after.sources
        ≡ (if is_of_room room (lookup id before.sources) then none else lookup id before.sources)
  pub refreshes :
      (id : Text)
      → lookup id after.last_refresh_sent ≡ (
          if is_of_room room (lookup id before.sources)
          then none
          else lookup id before.last_refresh_sent)
  pub no_frame : lookup room after.rooms ≡ none
  pub other_frames : (r : Text) → room ≢ r → lookup r after.rooms ≡ lookup r before.rooms
  pub no_cache : lookup room after.battle_caches ≡ none
  pub other_caches :
      (r : Text) → room ≢ r → lookup r after.battle_caches ≡ lookup r before.battle_caches
  pub disconnected :
      NotOf room before.disconnected_external_sources after.disconnected_external_sources
  pub no_selections : after.scoped_selections ≡ []
  pub is_dirty : after.dirty ≡ true
  pub connections : after.connections ≡ before.connections
  pub config : after.config ≡ before.config
  pub player_connection_count : after.player_connection_count ≡ before.player_connection_count
  pub player_marks : after.player_marks ≡ before.player_marks
  pub filter : after.same_server_filter_enabled ≡ before.same_server_filter_enabled

-- A connection of the room is counted.
count-positive :
    (room id : Text) (connection : Connection) (connections : Map Text Connection)
    → lookup id connections ≡ some connection
    → same_text connection.room room ≡ true
    → 0 < count (λ c. same_text c.room room) connections
unfolding count lookup
count-positive room id connection [] h same = ground arith
count-positive room id connection ((i, c) ∷ connections) h same = elim (Text-discrete i id) [
  | yes e ↦ ground arith
  | no n ↦ ground (arith, count-positive room id connection connections)
]

lt→ltb : {a b : ℕ} → a < b → ltb a b ≡ true
lt→ltb h = ground arith

-- A room with a connection is not deleted: the relay stays as it is, and the answer says how many
-- connections there are and that nothing was removed.
pub purge_room-refuses :
    (room id : Text) (connection : Connection) (relay : Relay)
    → lookup id relay.connections ≡ some connection
    → same_text connection.room room ≡ true
    → let answer = purge_room room relay in
      (answer.0 ≡ relay)
      × (0 < (answer.1).active_connections)
      × ((answer.1).active_connections ≡ room_active_connections room relay)
      × ((answer.1).sources ≡ 0)
      × ((answer.1).last_seen_records ≡ 0)
      × ((answer.1).room_frames ≡ 0)
      × ((answer.1).disconnected_external_sources ≡ 0)
unfolding purge_room room_active_connections
purge_room-refuses room id connection relay h same =
    let positive = count-positive room id connection relay.connections h same in
    rw (lt→ltb positive) (refl, positive, refl, refl, refl, refl, refl)
