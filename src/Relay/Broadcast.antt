-- ===== src/Relay/Broadcast.antt =====
-- `broadcast` of src/relay.rs. The caches of its loop are left out: the projections and the payloads that
-- it keeps for recipients of the same kind, scope and protocol epoch are what each would be made anew.
-- The snapshots of a scope, whose making changes the selections, are kept as in the code.
use minecraft_team_viewer_ba.Objects.Table.{ObjectUpsert}
use minecraft_team_viewer_ba.Objects.Fields.{F64}
use minecraft_team_viewer_ba.Objects.Player.{PlayerData, PlayerDelta, player_delta}
use minecraft_team_viewer_ba.Relay.Commands.{is_web_map}
use minecraft_team_viewer_ba.Relay.Events.{is_external_source, is_player}
use minecraft_team_viewer_ba.Snapshot.Project.{project_snapshot}
use minecraft_team_viewer_ba.Battle.Types.{BattleRoomCache, battle_key_order}
use minecraft_team_viewer_ba.Movement.{movement_batch}
use minecraft_team_viewer_ba.Prelude.Map.{Map, insert, lookup, modify}
use minecraft_team_viewer_ba.Prelude.Sort.{sort}
use minecraft_team_viewer_ba.Relay.Grouping.{
  SameServerGrouping, allowed_sources_for_player, same_server_grouping, sort_texts,
}
use minecraft_team_viewer_ba.Relay.Room.{SourceKinds, build_room_snapshot, scope_order, scoped_key}
use minecraft_team_viewer_ba.Relay.Types.{
  Clock, Connection, Relay, RelayConfig, RoomFrame, default_room, seconds,
}
use minecraft_team_viewer_ba.Snapshot.Diff.{Same, Texts-discrete, same_text}
use minecraft_team_viewer_ba.Snapshot.Payload.{Payload, state_payload}
use minecraft_team_viewer_ba.Snapshot.Types.{SnapshotFull}
use minecraft_team_viewer_ba.Prelude.{
  Bool, List, Option, [], false, if◌then◌else◌, is_some, ite, leb, map, none, not, some, true,
  unwrap_or, ℕ, ◌%◌, ◌&&◌, ◌+◌, ◌-◌, ◌^◌, ◌∷◌,
}
use minecraft_team_viewer_ba.Prelude.Text.{Text, Text-discrete, nat_key, text_key}

-- What the broadcast is given from outside: the equalities of the messages, the normal form of an
-- identity, the numbers of the source kinds and the encoded length of an upsert.
pub record Encoding : Type 0 where
  pub same : Same
  pub same_f64 : F64 → F64 → Bool
  pub lowercase_nfkc : Text → Text
  pub kinds : SourceKinds
  pub encoded_len : ObjectUpsert PlayerDelta → ℕ

-- `rooms.dedup()`
unfoldable pub dedup : List Text → List Text
unfolding Text-discrete
dedup [] = []
dedup (a ∷ []) = a ∷ []
dedup (a ∷ b ∷ rooms) = let rest = dedup (b ∷ rooms) in ite (Text-discrete a b) rest (a ∷ rest)

unfoldable pub connected_rooms : Map Text Connection → List Text
unfolding dedup sort
connected_rooms connections = dedup (sort_texts (map (λ e. e.1.room) connections))

-- A position batch carries the whole of each player.
unfoldable pub movement_upserts : Map Text PlayerData → List (ObjectUpsert PlayerDelta)
movement_upserts [] = []
movement_upserts ((id, value) ∷ players) =
    record { id = id; payload = some (player_delta value); clear_fields = [] }
    ∷ movement_upserts players

-- The connections of a room that are sent its state.
unfoldable pub recipients : Text → Map Text Connection → List (Text × Connection)
recipients room [] = []
recipients room ((id, connection) ∷ connections) =
    let rest = recipients room connections in
    if same_text connection.room room && not (is_external_source connection.kind)
    then (id, connection) ∷ rest
    else rest

abbrev pub refresh_due : RelayConfig → ℕ → Connection → Bool
refresh_due config now connection =
    leb (seconds config.movement_refresh_sec) (now - connection.last_position_refresh)

-- Whether the positions leave the reliable patch of a connection.
abbrev pub strips : RelayConfig → ℕ → Connection → Bool
strips config now connection =
    connection.unreliable_positions && not (refresh_due config now connection)

abbrev pub has_digest_due : ℕ → Connection → Bool
has_digest_due now connection = is_player connection.kind && leb connection.next_digest_at now

-- The two sets are equal.
unfoldable pub same_sources : List Text → List Text → Bool
unfolding sort Texts-discrete
same_sources a b = ite (Texts-discrete (sort_texts a) (sort_texts b)) true false

-- The room of a turn of the loop, with both snapshots.
pub record Turn : Type 0 where
  pub room : Text
  pub now : ℕ
  pub clock : Clock
  pub state_dirty : Bool
  pub player_snapshot : SnapshotFull
  pub web_snapshot : SnapshotFull
  pub battle_revision : ℕ
  pub revision : ℕ
  pub grouping : SameServerGrouping

abbrev pub ScopedSnapshots : Type 0
ScopedSnapshots = Map (Text × List Text) SnapshotFull

-- The snapshot for some sources only, made once in a turn.
unfoldable pub scoped_snapshot :
    Encoding → Turn → List Text → Relay × ScopedSnapshots → SnapshotFull × Relay × ScopedSnapshots
unfolding build_room_snapshot scoped_key
scoped_snapshot encoding turn allowed (relay, scoped) =
    let key = scoped_key turn.room allowed in
    elim (lookup key scoped) [
      | some snapshot ↦ (snapshot, relay, scoped)
      | none ↦
          let built =
            build_room_snapshot encoding.lowercase_nfkc encoding.kinds turn.clock turn.room false
              (some allowed) relay in
          (built.0, built.1, insert key built.0 scoped)
    ]

-- The snapshot for a recipient before its projection.
unfoldable pub base_target :
    Encoding
    → Turn
    → Text
    → Connection
    → Relay × ScopedSnapshots
    → SnapshotFull × Relay × ScopedSnapshots
unfolding allowed_sources_for_player same_sources scoped_snapshot
base_target encoding turn id connection (relay, scoped) =
    let allowed = allowed_sources_for_player relay.same_server_filter_enabled id turn.grouping in
    let limited = scoped_snapshot encoding turn allowed (relay, scoped) in
    if is_web_map connection.kind
    then (turn.web_snapshot, relay, scoped)
    else if same_sources allowed turn.grouping.active_sources
    then (turn.player_snapshot, relay, scoped)
    else limited

-- `connection.movement.send_replace(..)`
unfoldable pub publish_movement : Encoding → SnapshotFull → Connection → Connection
unfolding movement_batch movement_upserts
publish_movement encoding target connection =
    if connection.unreliable_positions
    then record connection {
      movement = some (movement_batch encoding.encoded_len (movement_upserts target.players));
    }
    else connection

-- What a sent frame leaves in the connection.
unfoldable pub publish_frame :
    RelayConfig → Turn → SnapshotFull → Option Payload → Connection → Connection
publish_frame config turn target bytes connection = record connection {
  state = some (record {
    revision = turn.revision;
    bytes = bytes;
    has_digest = has_digest_due turn.now connection;
    snapshot = target;
    battle_revision = turn.battle_revision;
  });
  force_full = if is_some bytes then false else connection.force_full;
  last_position_refresh =
      if is_some bytes && not (strips config turn.now connection)
      then turn.now
      else connection.last_position_refresh;
  next_digest_at =
      if has_digest_due turn.now connection
      then turn.now + seconds config.digest_interval_sec
      else connection.next_digest_at;
}

-- The payload for a recipient.
unfoldable pub payload_of : Encoding → Turn → Connection → SnapshotFull → Relay → Option Payload
unfolding state_payload
payload_of encoding turn connection target relay =
    state_payload encoding.same encoding.same_f64 connection.protocol connection.force_full
      connection.delivered_snapshot connection.delivered_battle_revision
      (strips relay.config turn.now connection) target (lookup turn.room relay.battle_caches)

-- The connection after its turn; without a payload and a digest no frame is sent.
unfoldable pub served : Encoding → Turn → SnapshotFull → Relay → Connection → Connection
unfolding publish_movement publish_frame payload_of
served encoding turn target relay connection =
    let bytes = payload_of encoding turn connection target relay in
    let moved = publish_movement encoding target connection in
    if not (is_some bytes) && not (has_digest_due turn.now connection)
    then moved
    else publish_frame relay.config turn target bytes moved

-- The body of the loop over the recipients.
unfoldable pub serve :
    Encoding → Turn → Text × Connection → Relay × ScopedSnapshots → Relay × ScopedSnapshots
unfolding base_target served modify project_snapshot
serve encoding turn (id, connection) (relay, scoped) =
    let base = base_target encoding turn id connection (relay, scoped) in
    let relay' : Relay = base.1 in
    let target = project_snapshot connection.protocol base.0 in
    if not turn.state_dirty && not (is_player connection.kind) then (relay, scoped) else (
      record relay' {
        connections = modify id (served encoding turn target relay') relay'.connections;
      },
      base.2,
    )

unfoldable pub serve_all :
    Encoding → Turn → List (Text × Connection) → Relay × ScopedSnapshots → Relay × ScopedSnapshots
unfolding serve
serve_all encoding turn [] state = state
serve_all encoding turn (recipient ∷ rest) state =
    serve_all encoding turn rest (serve encoding turn recipient state)

abbrev pub revision_of : Option RoomFrame → ℕ
revision_of none = 0
revision_of (some frame) = frame.revision

abbrev pub cache_revision : Option BattleRoomCache → ℕ
cache_revision none = 0
cache_revision (some cache) = cache.revision

-- The frame of the room after its turn.
unfoldable pub keep_frame : Turn → Relay → Relay
keep_frame turn relay = record relay {
  rooms =
      insert turn.room
        (record (unwrap_or (lookup turn.room relay.rooms) default_room) {
          revision = turn.revision;
          snapshot = turn.player_snapshot;
          web_snapshot = turn.web_snapshot;
        })
        relay.rooms;
}

-- The turn of a room, from its two snapshots and the relay after them.
unfoldable pub turn_of :
    Encoding → ℕ → Clock → Bool → Text → SnapshotFull → SnapshotFull → Relay → Turn
unfolding same_server_grouping
turn_of encoding now clock state_dirty room player_snapshot web_snapshot relay = record {
  room = room;
  now = now;
  clock = clock;
  state_dirty = state_dirty;
  player_snapshot = player_snapshot;
  web_snapshot = web_snapshot;
  battle_revision = cache_revision (lookup room relay.battle_caches);
  revision = (revision_of (lookup room relay.rooms) + 1) % 2 ^ 64;
  grouping = same_server_grouping encoding.lowercase_nfkc room relay;
}

unfoldable pub serve_room : Encoding → Turn → Relay → Relay
unfolding serve_all recipients keep_frame
serve_room encoding turn relay =
    keep_frame turn (serve_all encoding turn (recipients turn.room relay.connections) (relay, [])).0

-- A snapshot of the room with all its sources.
unfoldable pub room_snapshot : Encoding → Clock → Text → Bool → Relay → SnapshotFull × Relay
unfolding build_room_snapshot
room_snapshot encoding clock room for_web relay =
    build_room_snapshot encoding.lowercase_nfkc encoding.kinds clock room for_web none relay

-- The body of the loop over the rooms.
unfoldable pub broadcast_room : Encoding → ℕ → Clock → Bool → Text → Relay → Relay
unfolding room_snapshot turn_of serve_room
broadcast_room encoding now clock state_dirty room relay =
    let players = room_snapshot encoding clock room false relay in
    let web = room_snapshot encoding clock room true players.1 in
    serve_room encoding (turn_of encoding now clock state_dirty room players.0 web.0 web.1) web.1

unfoldable pub broadcast_rooms : Encoding → ℕ → Clock → Bool → List Text → Relay → Relay
unfolding broadcast_room
broadcast_rooms encoding now clock state_dirty [] relay = relay
broadcast_rooms encoding now clock state_dirty (room ∷ rooms) relay =
    broadcast_rooms encoding now clock state_dirty rooms
      (broadcast_room encoding now clock state_dirty room relay)

unfoldable pub broadcast : Encoding → ℕ → Clock → Bool → Relay → Relay
unfolding connected_rooms broadcast_rooms
broadcast encoding now clock state_dirty relay =
    broadcast_rooms encoding now clock state_dirty (connected_rooms relay.connections) relay
