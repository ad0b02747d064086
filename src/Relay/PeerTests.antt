-- ===== src/Relay/PeerTests.antt =====
-- Runs of the battle map reports of src/relay.rs and of what two peers are sent, and a theorem at them.
use minecraft_team_viewer_ba.Relay.Sharing.{IsNegotiated, state_payload-same_epoch}
use minecraft_team_viewer_ba.Snapshot.Types.{default_snapshot}
use minecraft_team_viewer_ba.Compat.Profile.{agree}
use minecraft_team_viewer_ba.Relay.Observation.{ObservationCandidate, distance, is_near}
use minecraft_team_viewer_ba.Relay.Types.{BattleProjection}
use minecraft_team_viewer_ba.Snapshot.Diff.{Same, same_text}
use minecraft_team_viewer_ba.Snapshot.Project.{project_snapshot}
use minecraft_team_viewer_ba.Compat.Epoch.{epoch_version, find_epoch, from_version}
use minecraft_team_viewer_ba.Compat.Version.{version, version_ltb, version_min}
use minecraft_team_viewer_ba.Snapshot.Payload.{state_payload}
use minecraft_team_viewer_ba.Prelude.{[], false, length, none, refl, some, true, ◌==◌, ◌≡◌}
use minecraft_team_viewer_ba.Prelude.Text.{codes, nat_key, text_key}
use minecraft_team_viewer_ba.Prelude.Int.{negsuc, pos, wrap_signed}

-- The ends of the `i32` range are one apart for the subtraction that wraps around.
abbrev far_candidate : ObservationCandidate
far_candidate = record {
  source = codes "history_primary";
  base_chunk_x = negsuc 2147483647;
  base_chunk_z = pos 0;
  position_sampled_at = pos 0;
}

abbrev far_projection : BattleProjection
far_projection = record {
  dimension = codes "nether";
  base_chunk_x = pos 2147483647;
  base_chunk_z = pos 0;
  snapshot_observed_at = pos 0;
  chunk_ids = [];
}

wrapped_is_near : is_near far_projection far_candidate ≡ true
unfolding is_near distance wrap_signed
wrapped_is_near = refl

first-IsNegotiated : IsNegotiated (agree (version 0 9 5) (version 0 8 0))
unfolding agree version_min version_ltb
first-IsNegotiated = record { epoch = refl; supported = refl }

second-IsNegotiated : IsNegotiated (agree (version 0 8 3) (version 0 8 0))
unfolding agree version_min version_ltb
second-IsNegotiated = record { epoch = refl; supported = refl }

agreed_epoch :
    (agree (version 0 9 5) (version 0 8 0)).epoch ≡ (agree (version 0 8 3) (version 0 8 0)).epoch
unfolding agree version_min version_ltb from_version find_epoch epoch_version
agreed_epoch = refl

-- Objects are compared by one field here.
abbrev same_objects : Same
same_objects = record {
  player = λ a b. a.x == b.x;
  entity = λ a b. a.x == b.x;
  waypoint = λ a b. a.x == b.x;
  battle_chunk = λ a b. false;
  last_seen = λ a b. a.x == b.x;
  mark = λ a b. same_text a.team b.team;
  tab_report = λ a b. length a.players == length b.players;
  groups = λ a b. length a == length b;
}

state_payload-same_epoch_example :
    (project_snapshot (agree (version 0 9 5) (version 0 8 0)) default_snapshot
      ≡ project_snapshot (agree (version 0 8 3) (version 0 8 0)) default_snapshot)
    × (state_payload same_objects
          (λ a b. a == b)
          (agree (version 0 9 5) (version 0 8 0))
          false
          (some default_snapshot)
          0
          true
          default_snapshot
          none
        ≡ state_payload same_objects
            (λ a b. a == b)
            (agree (version 0 8 3) (version 0 8 0))
            false
            (some default_snapshot)
            0
            true
            default_snapshot
            none)
state_payload-same_epoch_example =
    state_payload-same_epoch (agree (version 0 9 5) (version 0 8 0))
      (agree (version 0 8 3) (version 0 8 0)) first-IsNegotiated second-IsNegotiated agreed_epoch
      same_objects (λ a b. a == b) false true (some default_snapshot) 0 default_snapshot none
