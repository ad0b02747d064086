-- ===== src/Relay/Spread.antt =====
-- The broadcast of src/relay.rs neither connects nor disconnects anyone.
use minecraft_team_viewer_ba.Relay.Commands.{is_web_map}
use minecraft_team_viewer_ba.Relay.Grouping.{allowed_sources_for_player}
use minecraft_team_viewer_ba.Snapshot.Project.{project_snapshot}
use minecraft_team_viewer_ba.Prelude.Map.{lookup}
use minecraft_team_viewer_ba.Relay.Events.{is_player}
use minecraft_team_viewer_ba.Relay.Keeps.{Keeps, modify-Keeps, unchanged}
use minecraft_team_viewer_ba.Snapshot.Types.{SnapshotFull}
use minecraft_team_viewer_ba.Relay.Broadcast.{
  Encoding, ScopedSnapshots, Turn, base_target, broadcast, broadcast_room, broadcast_rooms,
  connected_rooms, has_digest_due, keep_frame, payload_of, publish_frame, publish_movement,
  recipients, room_snapshot, same_sources, scoped_snapshot, serve, serve_all, serve_room, served,
  turn_of,
}
use minecraft_team_viewer_ba.Relay.Room.{
  SourceKinds, build_room_snapshot, keep_selections, scope_order, scoped_key,
}
use minecraft_team_viewer_ba.Relay.Types.{Clock, Connection, ConnectionKind, Relay}
use minecraft_team_viewer_ba.Prelude.{
  Bool, List, Option, [], arith, false, if◌then◌else◌, is_some, none, not, refl, some, true, ℕ,
  ◌&&◌, ◌∙◌, ◌∷◌, ◌≡◌,
}
use minecraft_team_viewer_ba.Prelude.Text.{Text, nat_key, text_key}

Keeps-trans : {a b c : Relay} → Keeps a b → Keeps b c → Keeps a c
Keeps-trans h k = record {
  counter = k.counter ∙ h.counter;
  players = k.players ∙ h.players;
  disconnected = omega (arith, h.disconnected, k.disconnected);
}

build_room_snapshot-Keeps :
    (lowercase_nfkc : Text → Text) (kinds : SourceKinds) (clock : Clock) (room : Text)
    (for_web : Bool) (allowed : Option (List Text)) (relay : Relay)
    → Keeps relay (build_room_snapshot lowercase_nfkc kinds clock room for_web allowed relay).1
unfolding build_room_snapshot keep_selections
build_room_snapshot-Keeps lowercase_nfkc kinds clock room for_web none relay = record {
  counter = refl;
  players = refl;
  disconnected = omega arith;
}
build_room_snapshot-Keeps lowercase_nfkc kinds clock room for_web (some allowed) relay = record {
  counter = refl;
  players = refl;
  disconnected = omega arith;
}

-- Either branch of a test.
either : {A : Type 0} (P : A → Type 0) (b : Bool) (x y : A) → P x → P y → P (if b then x else y)
either P true x y px py = px
either P false x y px py = py

abbrev HasKind : ConnectionKind → Connection → Type 0
HasKind kind c = c.kind ≡ kind

publish_movement-HasKind :
    (encoding : Encoding) (target : SnapshotFull) (c : Connection)
    → HasKind c.kind (publish_movement encoding target c)
unfolding publish_movement
publish_movement-HasKind encoding target c =
    either (HasKind c.kind) c.unreliable_positions _ _ refl refl

served-kind :
    (encoding : Encoding) (turn : Turn) (target : SnapshotFull) (relay : Relay) (c : Connection)
    → (served encoding turn target relay c).kind ≡ c.kind
unfolding served publish_frame
served-kind encoding turn target relay c =
    let moved = publish_movement-HasKind encoding target c in
    either (HasKind c.kind)
      (not (is_some (payload_of encoding turn c target relay)) && not (has_digest_due turn.now c)) _
      _ moved moved

module _ (encoding : Encoding) (turn : Turn) where
  scoped_snapshot-Keeps :
      (allowed : List Text) (relay : Relay) (scoped : ScopedSnapshots)
      → Keeps relay (scoped_snapshot encoding turn allowed (relay, scoped)).1
  unfolding scoped_snapshot
  scoped_snapshot-Keeps allowed relay scoped =
      go (lookup (scoped_key turn.room allowed) scoped) refl
    where
      go :
          (found : Option SnapshotFull)
          → lookup (scoped_key turn.room allowed) scoped ≡ found
          → Keeps relay (scoped_snapshot encoding turn allowed (relay, scoped)).1
      go (some snapshot) e = rw (e, scoped_snapshot) unchanged
      go none e =
          rw (e, scoped_snapshot)
            (build_room_snapshot-Keeps encoding.lowercase_nfkc encoding.kinds turn.clock turn.room
              false (some allowed) relay)

  base_target-Keeps :
      (id : Text) (c : Connection) (relay : Relay) (scoped : ScopedSnapshots)
      → Keeps relay (base_target encoding turn id c (relay, scoped)).1
  unfolding base_target
  base_target-Keeps id c relay scoped =
      let allowed = allowed_sources_for_player relay.same_server_filter_enabled id turn.grouping in
      either KeepsRelay (is_web_map c.kind) _ _ unchanged (
        either KeepsRelay (same_sources allowed turn.grouping.active_sources) _ _ unchanged
          (scoped_snapshot-Keeps allowed relay scoped))
    where
      KeepsRelay : SnapshotFull × Relay × ScopedSnapshots → Type 0
      KeepsRelay result = Keeps relay result.1

  serve-Keeps :
      (recipient : Text × Connection) (relay : Relay) (scoped : ScopedSnapshots)
      → Keeps relay (serve encoding turn recipient (relay, scoped)).0
  unfolding serve
  serve-Keeps (id, c) relay scoped =
      let base = base_target encoding turn id c (relay, scoped) in
      let relay' : Relay = base.1 in
      let target = project_snapshot c.protocol base.0 in
      either (λ (state : Relay × ScopedSnapshots). Keeps relay state.0)
        (not turn.state_dirty && not (is_player c.kind)) _ _ unchanged
        (Keeps-trans (base_target-Keeps id c relay scoped) (
          modify-Keeps relay' id (served encoding turn target relay')
            (served-kind encoding turn target relay')))

  serve_all-Keeps :
      (rest : List (Text × Connection)) (relay : Relay) (scoped : ScopedSnapshots)
      → Keeps relay (serve_all encoding turn rest (relay, scoped)).0
  unfolding serve_all
  serve_all-Keeps [] relay scoped = unchanged
  serve_all-Keeps (recipient ∷ rest) relay scoped =
      let first = serve encoding turn recipient (relay, scoped) in
      Keeps-trans (serve-Keeps recipient relay scoped) (serve_all-Keeps rest first.0 first.1)

keep_frame-Keeps : (turn : Turn) (relay : Relay) → Keeps relay (keep_frame turn relay)
unfolding keep_frame
keep_frame-Keeps turn relay = record { counter = refl; players = refl; disconnected = omega arith }

serve_room-Keeps :
    (encoding : Encoding) (turn : Turn) (relay : Relay)
    → Keeps relay (serve_room encoding turn relay)
unfolding serve_room
serve_room-Keeps encoding turn relay =
    let chosen = recipients turn.room relay.connections in
    Keeps-trans (serve_all-Keeps encoding turn chosen relay [])
      (keep_frame-Keeps turn (serve_all encoding turn chosen (relay, [])).0)

broadcast_room-Keeps :
    (encoding : Encoding) (now : ℕ) (clock : Clock) (state_dirty : Bool) (room : Text)
    (relay : Relay)
    → Keeps relay (broadcast_room encoding now clock state_dirty room relay)
unfolding broadcast_room room_snapshot
broadcast_room-Keeps encoding now clock state_dirty room relay =
    let build = build_room_snapshot-Keeps encoding.lowercase_nfkc encoding.kinds clock room in
    let players = room_snapshot encoding clock room false relay in
    let web = room_snapshot encoding clock room true players.1 in
    Keeps-trans (build false none relay) (
      Keeps-trans (build true none players.1) (
        serve_room-Keeps encoding
          (turn_of encoding now clock state_dirty room players.0 web.0 web.1) web.1))

broadcast_rooms-Keeps :
    (encoding : Encoding) (now : ℕ) (clock : Clock) (state_dirty : Bool) (rooms : List Text)
    (relay : Relay)
    → Keeps relay (broadcast_rooms encoding now clock state_dirty rooms relay)
unfolding broadcast_rooms
broadcast_rooms-Keeps encoding now clock state_dirty [] relay = unchanged
broadcast_rooms-Keeps encoding now clock state_dirty (room ∷ rooms) relay =
    Keeps-trans (broadcast_room-Keeps encoding now clock state_dirty room relay) (
      broadcast_rooms-Keeps encoding now clock state_dirty rooms
        (broadcast_room encoding now clock state_dirty room relay))

pub broadcast-Keeps :
    (encoding : Encoding) (now : ℕ) (clock : Clock) (state_dirty : Bool) (relay : Relay)
    → Keeps relay (broadcast encoding now clock state_dirty relay)
unfolding broadcast
broadcast-Keeps encoding now clock state_dirty relay =
    broadcast_rooms-Keeps encoding now clock state_dirty (connected_rooms relay.connections) relay
