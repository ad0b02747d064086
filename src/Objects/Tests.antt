-- ===== src/Objects/Tests.antt =====
-- Runs of the patches of object tables of src/relay.rs, and the theorems at them.
use minecraft_team_viewer_ba.Objects.Fields.{clear_each, cleared_by, f64_0_6, is_cleared}
use minecraft_team_viewer_ba.Prelude.Int.{pos, ℤ-discrete}
use minecraft_team_viewer_ba.Sources.Candidates.{Timed}
use minecraft_team_viewer_ba.Objects.Entity.{
  EntityData, apply-entity_delta, apply_entity_delta, clear_entity_fields, default_entity,
  entity_cleared_fields, entity_delta,
}
use minecraft_team_viewer_ba.Objects.Player.{
  PlayerData, apply-player_delta, apply_player_delta, clear_player_field, clear_player_fields,
  default_player, player_cleared_fields, player_clearings, player_delta,
}
use minecraft_team_viewer_ba.Objects.Sync.{contents}
use minecraft_team_viewer_ba.Objects.Table.{deletes_of, object_upsert, player_kind}
use minecraft_team_viewer_ba.Objects.Waypoint.{
  WaypointData, apply-waypoint_delta, apply_waypoint_delta, clear_waypoint_fields, default_waypoint,
  waypoint_cleared_fields, waypoint_delta,
}
use minecraft_team_viewer_ba.Prelude.Map.{Map, lookup}
use minecraft_team_viewer_ba.Prelude.{Bool, [], false, ite, refl, some, true, ℕ_discrete, ◌∷◌, ◌≡◌}
use minecraft_team_viewer_ba.Prelude.Text.{
  Text, Text-discrete, codes, missing_names, nat_key, text_key,
}

abbrev walker : PlayerData
walker = record default_player {
  x = 5;
  vx = some 3;
  health = some 7;
  player_uuid = some (codes "u1");
}

-- It stopped, lost its identity and left its health unknown.
abbrev stopped : PlayerData
stopped = record default_player { x = 6; vx = some 4; player_name = some (codes "Al") }

abbrev cow : EntityData
cow = record default_entity { x = 1; entity_type = some (codes "cow") }

abbrev calf : EntityData
calf = record default_entity { x = 2; entity_name = some (codes "Bo"); width = some f64_0_6 }

abbrev mark : WaypointData
mark = record default_waypoint { name = codes "base"; ttl_seconds = some (pos 60) }

abbrev lasting : WaypointData
lasting = record default_waypoint { name = codes "base"; permanent = some true }

PlayerData-discrete : Discrete PlayerData
unfolding Text-discrete ℤ-discrete ℕ_discrete
PlayerData-discrete = hlevel ℕ_discrete

-- All fields are compared.
abbrev same_player : PlayerData → PlayerData → Bool
same_player a b = ite (PlayerData-discrete a b) true false

abbrev before : Map Text (Timed PlayerData)
before =
    (codes "a", record { content = walker; received_at = 1 })
    ∷ (codes "b", record { content = walker; received_at = 1 })
    ∷ (codes "c", record { content = walker; received_at = 1 })
    ∷ []

abbrev target : Map Text PlayerData
target = (codes "b", stopped) ∷ (codes "c", walker) ∷ (codes "d", walker) ∷ []

clear_uuid : player_cleared_fields walker stopped ≡ codes "playerUUID" ∷ codes "health" ∷ []
unfolding player_cleared_fields player_clearings missing_names is_cleared
clear_uuid = refl

clear_both_spellings :
    clear_player_fields walker (codes "playerUuid" ∷ [])
    ≡ clear_player_fields walker (codes "playerUUID" ∷ [])
unfolding clear_player_fields clear_each clear_player_field cleared_by Text-discrete ℕ_discrete
clear_both_spellings = refl

deletes_of-before :
    deletes_of same_player (object_upsert player_kind) (contents before) target ≡ codes "a" ∷ []
unfolding deletes_of lookup Text-discrete ℕ_discrete
deletes_of-before = refl

apply-player_delta_example :
    apply_player_delta
      (clear_player_fields walker (player_cleared_fields walker stopped))
      (player_delta stopped)
    ≡ stopped
apply-player_delta_example = apply-player_delta walker stopped

apply-entity_delta_example :
    apply_entity_delta
      (clear_entity_fields cow (entity_cleared_fields cow calf))
      (entity_delta calf)
    ≡ calf
apply-entity_delta_example = apply-entity_delta cow calf

apply-waypoint_delta_example :
    apply_waypoint_delta
      (clear_waypoint_fields mark (waypoint_cleared_fields mark lasting))
      (waypoint_delta lasting)
    ≡ lasting
apply-waypoint_delta_example = apply-waypoint_delta mark lasting
