-- ===== src/Relay/Handler.antt =====
-- `handle_event` of src/relay.rs: the events of the relay, and what it sends and answers.
use minecraft_team_viewer_ba.Prelude.Sort.{sort}
use minecraft_team_viewer_ba.Prelude.Int.{ℤ}
use minecraft_team_viewer_ba.Relay.Apply.{apply_report, ref_keys}
use minecraft_team_viewer_ba.Compat.Profile.{supports_relationships}
use minecraft_team_viewer_ba.Relay.Commands.{apply_web_map_command, force_full, is_web_map}
use minecraft_team_viewer_ba.Battle.Cache.{to_ref}
use minecraft_team_viewer_ba.Relay.Admin.{
  LastSeenRecord, delete_last_seen, purge_room, room_active_connections,
}
use minecraft_team_viewer_ba.Snapshot.Diff.{same_text}
use minecraft_team_viewer_ba.Battle.Types.{
  BattleCacheKey, BattleChunkEntry, BattleChunkRef, BattleRoomCache, CachedBattleChunk,
  battle_key_order,
}
use minecraft_team_viewer_ba.Relay.Report.{PlayerReportBundle}
use minecraft_team_viewer_ba.Relay.Types.{Clock, Connection, Relay}
use minecraft_team_viewer_ba.Prelude.Map.{Map, lookup, modify}
use minecraft_team_viewer_ba.Relay.Events.{
  RegisterConnection, RoomPurgeResult, disconnect, is_player, register_connection,
}
use minecraft_team_viewer_ba.Relay.WebMap.{Command, WebMapAck}
use minecraft_team_viewer_ba.Snapshot.Keys.{battle_entry_key, battle_key}
use minecraft_team_viewer_ba.Snapshot.Types.{SnapshotFull}
use minecraft_team_viewer_ba.Prelude.{
  Bool, List, Option, [], contains, false, if◌then◌else◌, leb, none, some, true, ℕ, ◌&&◌, ◌∷◌,
}
use minecraft_team_viewer_ba.Prelude.Text.{Text, Text-discrete, nat_key, text_key, text_ltb}

-- The head of a tab history and a report policy are messages that the relay only passes on: their types
-- are parameters.
pub data RelayEvent (Head Policy : Type 0) : Type 0 where
  register : RegisterConnection → RelayEvent Head Policy
  disconnected : (id : Text) → RelayEvent Head Policy
  delivered :
      (id : Text) → (revision : ℕ) → SnapshotFull → (battle_revision : ℕ) → RelayEvent Head Policy
  player_report : (id : Text) → PlayerReportBundle → RelayEvent Head Policy
  resync : (id : Text) → RelayEvent Head Policy
  battle_chunk_meta : (id : Text) → List BattleChunkRef → RelayEvent Head Policy
  web_map_command : (id : Text) → Option Command → RelayEvent Head Policy
  tab_history_subscription : (id : Text) → (enabled : Bool) → RelayEvent Head Policy
  tab_history_changed : (room : Text) → Head → RelayEvent Head Policy
  report_policy_update : (room : Text) → Policy → RelayEvent Head Policy
  snapshot_request : (room : Option Text) → RelayEvent Head Policy
  delete_last_seen_players : List LastSeenRecord → RelayEvent Head Policy
  purge : (room : Text) → RelayEvent Head Policy
  active_connections_request : (room : Text) → RelayEvent Head Policy

-- What goes into the control channel of a connection, and the answers to requests. A digest and the meta
-- entries go through the channel of the web map or through that of the players.
pub data Message (Head Policy : Type 0) : Type 0 where
  web_map_ack : (id : Text) → WebMapAck → Message Head Policy
  meta_snapshot : (id : Text) → Bool → List BattleChunkEntry → Message Head Policy
  tab_history_digest : (id : Text) → Bool → Head → Message Head Policy
  policy_update : (id : Text) → Policy → Message Head Policy
  deleted_players : ℕ → Message Head Policy
  purged : RoomPurgeResult → Message Head Policy
  active_connections : ℕ → Message Head Policy

-- A revision that is older than the delivered one changes nothing.
unfoldable pub deliver : ℕ → SnapshotFull → ℕ → Connection → Connection
deliver revision snapshot battle_revision connection =
    if leb connection.delivered_revision revision
    then record connection {
      delivered_revision = revision;
      delivered_snapshot = some snapshot;
      delivered_battle_revision = battle_revision;
    }
    else connection

-- `BattleRoomCache::meta_entries`, which are not adapted to a peer.
unfoldable pub meta_entries :
    List Text → Map BattleCacheKey CachedBattleChunk → List BattleChunkEntry
unfolding contains battle_key
meta_entries requested [] = []
meta_entries requested ((key, entry) ∷ entries) =
    let rest = meta_entries requested entries in
    if contains Text-discrete (battle_key key.dimension key.chunk_x key.chunk_z) requested
    then record { reference = some (to_ref key); payload = some entry.value } ∷ rest
    else rest

-- The derived order of `Option<String>`: a missing key is less than any other.
abbrev pub option_ltb : Option Text → Option Text → Bool
option_ltb none none = false
option_ltb none (some b) = true
option_ltb (some a) none = false
option_ltb (some a) (some b) = text_ltb a b

abbrev pub meta_key : BattleChunkEntry → Option Text
meta_key entry = battle_entry_key entry

-- `sort_by_key` with the key of the chunk.
unfoldable pub sort_meta : List BattleChunkEntry → List BattleChunkEntry
unfolding sort
sort_meta entries = sort (λ a b. option_ltb (meta_key a) (meta_key b)) entries

unfoldable pub room_meta : List BattleChunkRef → Option BattleRoomCache → List BattleChunkEntry
unfolding meta_entries ref_keys
room_meta requested none = []
room_meta requested (some cache) = meta_entries (ref_keys requested) cache.entries

module _ {Head Policy : Type 0} where
  unfoldable pub digests : Text → Head → Map Text Connection → List (Message Head Policy)
  digests room head [] = []
  digests room head ((id, connection) ∷ connections) =
      let rest = digests room head connections in
      if same_text connection.room room && connection.tab_history_subscribed
      then tab_history_digest id (is_web_map connection.kind) head ∷ rest
      else rest

  unfoldable pub policy_updates : Text → Policy → Map Text Connection → List (Message Head Policy)
  policy_updates room policy [] = []
  policy_updates room policy ((id, connection) ∷ connections) =
      let rest = policy_updates room policy connections in
      if same_text connection.room room
        && is_player connection.kind
        && supports_relationships connection.protocol
      then policy_update id policy ∷ rest
      else rest

  abbrev pub acks : Text → Option WebMapAck → List (Message Head Policy)
  acks id none = []
  acks id (some ack) = web_map_ack id ack ∷ []

  unfoldable pub send_battle_chunk_meta :
      Text → List BattleChunkRef → Relay → List (Message Head Policy)
  unfolding room_meta sort_meta
  send_battle_chunk_meta id requested relay = elim (lookup id relay.connections) [
    | none ↦ []
    | some connection ↦
        meta_snapshot id (is_web_map connection.kind)
          (sort_meta (room_meta requested (lookup connection.room relay.battle_caches)))
        ∷ []
  ]

-- The parameters of the relay: `to_lowercase`, the health `Healthy`, and the values of the health that
-- the protocol knows.
pub record Protocol : Type 0 where
  pub to_lowercase : Text → Text
  pub healthy : ℤ
  pub is_health : ℤ → Bool

unfoldable pub handle_event :
    {Head Policy : Type 0}
    → Protocol
    → Clock
    → Text
    → RelayEvent Head Policy
    → Relay
    → Relay × List (Message Head Policy)
unfolding register_connection disconnect deliver modify apply_report force_full
    send_battle_chunk_meta apply_web_map_command digests policy_updates delete_last_seen purge_room
    room_active_connections
handle_event protocol clock random (register connection) relay =
    (register_connection clock connection relay, [])
handle_event protocol clock random (disconnected id) relay =
    (disconnect protocol.is_health clock id relay, [])
handle_event protocol clock random (delivered id revision snapshot battle_revision) relay = (
  record relay {
    connections = modify id (deliver revision snapshot battle_revision) relay.connections;
  },
  [],
)
handle_event protocol clock random (player_report id report) relay = (
  record (apply_report protocol.to_lowercase protocol.healthy clock id report relay) {
    dirty = true;
  },
  [],
)
handle_event protocol clock random (resync id) relay = (force_full id relay, [])
handle_event protocol clock random (battle_chunk_meta id requested) relay =
    (relay, send_battle_chunk_meta id requested relay)
handle_event protocol clock random (web_map_command id command) relay =
    let result = apply_web_map_command clock random id command relay in (result.0, acks id result.1)
handle_event protocol clock random (tab_history_subscription id enabled) relay = (
  record relay {
    connections =
        modify id (λ connection. record connection { tab_history_subscribed = enabled })
          relay.connections;
  },
  [],
)
handle_event protocol clock random (tab_history_changed room head) relay =
    (relay, digests room head relay.connections)
handle_event protocol clock random (report_policy_update room policy) relay =
    (relay, policy_updates room policy relay.connections)
handle_event protocol clock random (snapshot_request room) relay = (relay, [])
handle_event protocol clock random (delete_last_seen_players records) relay =
    let result = delete_last_seen records relay in (result.0, deleted_players result.1 ∷ [])
handle_event protocol clock random (purge room) relay =
    let result = purge_room room relay in (result.0, purged result.1 ∷ [])
handle_event protocol clock random (active_connections_request room) relay =
    (relay, active_connections (room_active_connections room relay) ∷ [])
