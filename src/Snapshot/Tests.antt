-- ===== src/Snapshot/Tests.antt =====
-- Runs of the snapshots and patches of src/relay.rs and src/protocol_compat.rs, and the theorems at them.
use minecraft_team_viewer_ba.Snapshot.Carried.{PatchCarries, with_battle-PatchCarries}
use minecraft_team_viewer_ba.Relay.Report.{default_last_seen}
use minecraft_team_viewer_ba.Snapshot.Rebuilt.{Rebuilt, RebuiltChunks, adapt_outbound_patch-Rebuilt}
use minecraft_team_viewer_ba.Objects.Player.{default_player}
use minecraft_team_viewer_ba.Snapshot.Adapt.{
  adapt_outbound_patch, push_new, rebuild_scope, rebuild_upserts,
}
use minecraft_team_viewer_ba.Snapshot.Projected.{IsProjected, project_snapshot-IsProjected}
use minecraft_team_viewer_ba.Battle.Client.{copy_of}
use minecraft_team_viewer_ba.Snapshot.Delivery.{state_payload-delivers}
use minecraft_team_viewer_ba.Snapshot.Receiving.{receive_payload}
use minecraft_team_viewer_ba.Battle.Cache.{empty_cache}
use minecraft_team_viewer_ba.Battle.History.{run}
use minecraft_team_viewer_ba.Battle.Update.{is_empty}
use minecraft_team_viewer_ba.Compat.Version.{version, version_ltb, version_min}
use minecraft_team_viewer_ba.Compat.Profile.{
  ProtocolProfile, agree, supports_battle_chunk_mode, supports_clear_fields,
}
use minecraft_team_viewer_ba.Snapshot.Diff.{Same, build_patch, same_text}
use minecraft_team_viewer_ba.Snapshot.Project.{project_snapshot}
use minecraft_team_viewer_ba.Snapshot.Types.{
  Patch, PlayerMark, SnapshotFull, default_patch, default_snapshot, default_tab_state,
}
use minecraft_team_viewer_ba.Snapshot.Payload.{state_payload, with_battle}
use minecraft_team_viewer_ba.Compat.Version.{version, version_ltb, version_min}
use minecraft_team_viewer_ba.Prelude.{
  [], arith, contains, false, length, map_option, none, refl, some, true, ◌==◌, ◌∷◌, ◌≡◌,
}
use minecraft_team_viewer_ba.Prelude.Text.{Text-discrete, codes, nat_key, text_key}
use minecraft_team_viewer_ba.Battle.Tests.{after, before, chunk_at, key_at, red}

-- A peer of the first version that is accepted.
abbrev first_profile : ProtocolProfile
first_profile = agree (version 0 6 1) (version 0 6 1)

abbrev mark : PlayerMark
mark = record { team = codes "red"; color = some (codes "#f00"); label = none; source = none }

abbrev marked : SnapshotFull
marked = record default_snapshot {
  player_marks = (codes "p1", mark) ∷ [];
  room_code = some (codes "home");
  tab_state = some (record default_tab_state { enabled = true });
}

-- The mark loses its colour.
abbrev faded : Patch
faded = record default_patch {
  player_marks = some (record {
    upsert =
        record {
          id = codes "p1";
          payload = some (record mark { color = none });
          clear_fields = codes "color" ∷ [];
        }
        ∷ [];
    delete = [];
  });
  battle_chunks = some (record {
    upsert =
        record {
          reference = (chunk_at 1 red).reference;
          payload = some (record red { symbol = none });
          clear_fields = codes "symbol" ∷ [];
        }
        ∷ [];
    delete = [];
  });
}

rebuilt_marks :
    map_option (λ scope. scope.delete) (adapt_outbound_patch first_profile faded).player_marks
    ≡ some (codes "p1" ∷ [])
unfolding adapt_outbound_patch rebuild_scope rebuild_upserts push_new contains is_empty
    supports_clear_fields agree version_min version_ltb Text-discrete
rebuilt_marks = refl

-- A player with a source, a chunk with a mode and someone who was seen before.
abbrev rich : SnapshotFull
rich = record marked {
  players = (codes "p1", record default_player { position_source_id = some (codes "map") }) ∷ [];
  battle_chunks = chunk_at 1 red ∷ [];
  last_seen_players = (codes "p2", default_last_seen) ∷ [];
}

project_snapshot-IsProjected_example :
    IsProjected first_profile.negotiated rich (project_snapshot first_profile rich)
project_snapshot-IsProjected_example = project_snapshot-IsProjected first_profile rich

lacks_clear_fields : supports_clear_fields first_profile ≡ false
unfolding supports_clear_fields agree version_min version_ltb
lacks_clear_fields = refl

adapt_outbound_patch-Rebuilt_example :
    let after = adapt_outbound_patch first_profile faded in
    Rebuilt faded.players after.players
    × Rebuilt faded.entities after.entities
    × Rebuilt faded.waypoints after.waypoints
    × RebuiltChunks faded.battle_chunks after.battle_chunks
    × Rebuilt faded.last_seen_players after.last_seen_players
    × Rebuilt faded.player_marks after.player_marks
    × (record after {
      players = faded.players;
      entities = faded.entities;
      waypoints = faded.waypoints;
      battle_chunks = faded.battle_chunks;
      last_seen_players = faded.last_seen_players;
      player_marks = faded.player_marks;
    }
        ≡ faded)
adapt_outbound_patch-Rebuilt_example =
    adapt_outbound_patch-Rebuilt first_profile faded lacks_clear_fields

-- Objects are compared by one field here.
abbrev same_objects : Same
same_objects = record {
  player = λ a b. a.x == b.x;
  entity = λ a b. a.x == b.x;
  waypoint = λ a b. a.x == b.x;
  battle_chunk = λ a b. false;
  last_seen = λ a b. a.x == b.x;
  mark = λ a b. same_text a.team b.team;
  tab_report = λ a b. length a.players == length b.players;
  groups = λ a b. length a == length b;
}

abbrev renamed : SnapshotFull
renamed = record marked { room_code = some (codes "camp") }

state_payload-delivers_example :
    let mode = supports_battle_chunk_mode first_profile in
    let d = run empty_cache before in
    let c = run d after in
    receive_payload
      (supports_clear_fields first_profile)
      (state_payload same_objects
        (λ a b. a == b)
        first_profile
        false
        (some marked)
        d.revision
        true
        renamed
        (some c))
      (copy_of d mode)
      (key_at 2)
    ≡ copy_of c mode (key_at 2)
state_payload-delivers_example =
    state_payload-delivers same_objects (λ a b. a == b) first_profile false true marked renamed
      before after (key_at 2) refl refl (omega arith)

with_battle-PatchCarries_example :
    PatchCarries (with_battle faded.battle_chunks (build_patch same_objects marked rich))
with_battle-PatchCarries_example =
    with_battle-PatchCarries same_objects faded.battle_chunks marked rich
