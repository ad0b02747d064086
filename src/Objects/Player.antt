-- ===== src/Objects/Player.antt =====
-- `PlayerData` of src/relay.rs: its difference, its cleared fields, and their application.
use minecraft_team_viewer_ba.Prelude.Int.{ℤ}
use minecraft_team_viewer_ba.Objects.Fields.{
  F64, assigned, assigned_some, clear_each, cleared_by, cleared_by-none, f64_0_6, f64_1_8, f64_20,
  f64_zero, flagged, is_cleared, optional_restored, or_default,
}
use minecraft_team_viewer_ba.Prelude.{
  Bool, List, Option, [], false, none, refl, some, ℕ_discrete, ◌||◌, ◌∷◌, ◌≡◌,
}
use minecraft_team_viewer_ba.Prelude.Text.{
  Text, Text-discrete, codes, missing_names, nat_key, text_key,
}

pub record PlayerData : Type 0 where
  pub x : F64
  pub y : F64
  pub z : F64
  pub vx : Option F64
  pub vy : Option F64
  pub vz : Option F64
  pub dimension : Text
  pub player_name : Option Text
  pub player_uuid : Option Text
  pub health : Option F64
  pub max_health : Option F64
  pub armor : Option F64
  pub is_riding : Option Bool
  pub width : Option F64
  pub height : Option F64
  pub position_source_id : Option Text
  pub position_source_kind : Option ℤ
  pub position_source_display_name : Option Text
  pub position_resolution : Option F64

pub record PlayerDelta : Type 0 where
  pub x : Option F64
  pub y : Option F64
  pub z : Option F64
  pub vx : Option F64
  pub vy : Option F64
  pub vz : Option F64
  pub dimension : Option Text
  pub player_name : Option Text
  pub player_uuid : Option Text
  pub health : Option F64
  pub max_health : Option F64
  pub armor : Option F64
  pub is_riding : Option Bool
  pub width : Option F64
  pub height : Option F64
  pub position_source_id : Option Text
  pub position_source_kind : Option ℤ
  pub position_source_display_name : Option Text
  pub position_resolution : Option F64

-- `PlayerData::default()`
abbrev pub default_player : PlayerData
default_player = record {
  x = f64_zero;
  y = f64_zero;
  z = f64_zero;
  vx = none;
  vy = none;
  vz = none;
  dimension = [];
  player_name = none;
  player_uuid = none;
  health = none;
  max_health = none;
  armor = none;
  is_riding = none;
  width = none;
  height = none;
  position_source_id = none;
  position_source_kind = none;
  position_source_display_name = none;
  position_resolution = none;
}

unfoldable pub player_delta : PlayerData → PlayerDelta
player_delta value = record {
  x = some value.x;
  y = some value.y;
  z = some value.z;
  vx = value.vx;
  vy = value.vy;
  vz = value.vz;
  dimension = some value.dimension;
  player_name = value.player_name;
  player_uuid = value.player_uuid;
  health = value.health;
  max_health = value.max_health;
  armor = value.armor;
  is_riding = value.is_riding;
  width = value.width;
  height = value.height;
  position_source_id = value.position_source_id;
  position_source_kind = value.position_source_kind;
  position_source_display_name = value.position_source_display_name;
  position_resolution = value.position_resolution;
}

unfoldable pub apply_player_delta : PlayerData → PlayerDelta → PlayerData
apply_player_delta value delta = record {
  x = assigned delta.x value.x;
  y = assigned delta.y value.y;
  z = assigned delta.z value.z;
  vx = assigned_some delta.vx value.vx;
  vy = assigned_some delta.vy value.vy;
  vz = assigned_some delta.vz value.vz;
  dimension = assigned delta.dimension value.dimension;
  player_name = assigned_some delta.player_name value.player_name;
  player_uuid = assigned_some delta.player_uuid value.player_uuid;
  health = assigned_some delta.health value.health;
  max_health = assigned_some delta.max_health value.max_health;
  armor = assigned_some delta.armor value.armor;
  is_riding = assigned_some delta.is_riding value.is_riding;
  width = assigned_some delta.width value.width;
  height = assigned_some delta.height value.height;
  position_source_id = assigned_some delta.position_source_id value.position_source_id;
  position_source_kind = assigned_some delta.position_source_kind value.position_source_kind;
  position_source_display_name =
      assigned_some delta.position_source_display_name value.position_source_display_name;
  position_resolution = assigned_some delta.position_resolution value.position_resolution;
}

unfoldable pub clear_player_field : Text → PlayerData → PlayerData
unfolding cleared_by
clear_player_field field value = record value {
  vx = cleared_by (codes "vx") field value.vx;
  vy = cleared_by (codes "vy") field value.vy;
  vz = cleared_by (codes "vz") field value.vz;
  player_name = cleared_by (codes "playerName") field value.player_name;
  player_uuid =
      cleared_by (codes "playerUUID") field
        (cleared_by (codes "playerUuid") field value.player_uuid);
  health = cleared_by (codes "health") field value.health;
  max_health = cleared_by (codes "maxHealth") field value.max_health;
  armor = cleared_by (codes "armor") field value.armor;
  is_riding = cleared_by (codes "isRiding") field value.is_riding;
  width = cleared_by (codes "width") field value.width;
  height = cleared_by (codes "height") field value.height;
  position_source_id = cleared_by (codes "positionSourceId") field value.position_source_id;
  position_source_kind = cleared_by (codes "positionSourceKind") field value.position_source_kind;
  position_source_display_name =
      cleared_by (codes "positionSourceDisplayName") field value.position_source_display_name;
  position_resolution = cleared_by (codes "positionResolution") field value.position_resolution;
}

unfoldable pub clear_player_fields : PlayerData → List Text → PlayerData
unfolding clear_player_field clear_each
clear_player_fields value fields = clear_each clear_player_field fields value

unfoldable pub player_clearings : PlayerData → PlayerData → List (Text × Bool)
unfolding is_cleared
player_clearings old new =
    (codes "vx", is_cleared old.vx new.vx)
    ∷ (codes "vy", is_cleared old.vy new.vy)
    ∷ (codes "vz", is_cleared old.vz new.vz)
    ∷ (codes "playerName", is_cleared old.player_name new.player_name)
    ∷ (codes "playerUUID", is_cleared old.player_uuid new.player_uuid)
    ∷ (codes "health", is_cleared old.health new.health)
    ∷ (codes "maxHealth", is_cleared old.max_health new.max_health)
    ∷ (codes "armor", is_cleared old.armor new.armor)
    ∷ (codes "isRiding", is_cleared old.is_riding new.is_riding)
    ∷ (codes "width", is_cleared old.width new.width)
    ∷ (codes "height", is_cleared old.height new.height)
    ∷ (codes "positionSourceId", is_cleared old.position_source_id new.position_source_id)
    ∷ (codes "positionSourceKind", is_cleared old.position_source_kind new.position_source_kind)
    ∷ (
      codes "positionSourceDisplayName",
      is_cleared old.position_source_display_name new.position_source_display_name,
    )
    ∷ (codes "positionResolution", is_cleared old.position_resolution new.position_resolution)
    ∷ []

unfoldable pub player_cleared_fields : PlayerData → PlayerData → List Text
unfolding missing_names player_clearings
player_cleared_fields old new = missing_names (player_clearings old new)

unfoldable pub normalize_player : PlayerData → PlayerData
unfolding or_default
normalize_player value = record value {
  vx = or_default value.vx f64_zero;
  vy = or_default value.vy f64_zero;
  vz = or_default value.vz f64_zero;
  health = or_default value.health f64_zero;
  max_health = or_default value.max_health f64_20;
  armor = or_default value.armor f64_zero;
  is_riding = or_default value.is_riding false;
  width = or_default value.width f64_0_6;
  height = or_default value.height f64_1_8;
}

-- What `apply_report` does to an object that it has: clear, then apply, then normalize.
unfoldable pub update_player : PlayerData → PlayerDelta → List Text → PlayerData
update_player value delta fields =
    normalize_player (apply_player_delta (clear_player_fields value fields) delta)

-- The difference between two players, applied to the first, gives the second, whatever fields either has.
pub apply-player_delta :
    (old new : PlayerData)
    → apply_player_delta
        (clear_player_fields old (player_cleared_fields old new))
        (player_delta new)
      ≡ new
unfolding apply_player_delta clear_player_fields player_cleared_fields player_delta assigned flagged
    player_clearings Text-discrete ℕ_discrete
apply-player_delta old new = λ i. record {
  x = new.x;
  y = new.y;
  z = new.z;
  vx =
      restored old new (λ v. v.vx) (codes "vx") (λ v. refl)
        (λ field v h. cleared_by-none (codes "vx") field v.vx h) refl i;
  vy =
      restored old new (λ v. v.vy) (codes "vy") (λ v. refl)
        (λ field v h. cleared_by-none (codes "vy") field v.vy h) refl i;
  vz =
      restored old new (λ v. v.vz) (codes "vz") (λ v. refl)
        (λ field v h. cleared_by-none (codes "vz") field v.vz h) refl i;
  dimension = new.dimension;
  player_name =
      restored old new (λ v. v.player_name) (codes "playerName") (λ v. refl)
        (λ field v h. cleared_by-none (codes "playerName") field v.player_name h) refl i;
  player_uuid =
      restored old new (λ v. v.player_uuid) (codes "playerUUID") (λ v. refl)
        (λ field v h.
          cleared_by-none (codes "playerUUID") field _
            (cleared_by-none (codes "playerUuid") field v.player_uuid h))
        refl i;
  health =
      restored old new (λ v. v.health) (codes "health") (λ v. refl)
        (λ field v h. cleared_by-none (codes "health") field v.health h) refl i;
  max_health =
      restored old new (λ v. v.max_health) (codes "maxHealth") (λ v. refl)
        (λ field v h. cleared_by-none (codes "maxHealth") field v.max_health h) refl i;
  armor =
      restored old new (λ v. v.armor) (codes "armor") (λ v. refl)
        (λ field v h. cleared_by-none (codes "armor") field v.armor h) refl i;
  is_riding =
      restored old new (λ v. v.is_riding) (codes "isRiding") (λ v. refl)
        (λ field v h. cleared_by-none (codes "isRiding") field v.is_riding h) refl i;
  width =
      restored old new (λ v. v.width) (codes "width") (λ v. refl)
        (λ field v h. cleared_by-none (codes "width") field v.width h) refl i;
  height =
      restored old new (λ v. v.height) (codes "height") (λ v. refl)
        (λ field v h. cleared_by-none (codes "height") field v.height h) refl i;
  position_source_id =
      restored old new (λ v. v.position_source_id) (codes "positionSourceId") (λ v. refl)
        (λ field v h. cleared_by-none (codes "positionSourceId") field v.position_source_id h) refl
        i;
  position_source_kind =
      restored old new (λ v. v.position_source_kind) (codes "positionSourceKind") (λ v. refl)
        (λ field v h. cleared_by-none (codes "positionSourceKind") field v.position_source_kind h)
        refl i;
  position_source_display_name =
      restored old new (λ v. v.position_source_display_name) (codes "positionSourceDisplayName")
        (λ v. refl)
        (λ field v h.
          cleared_by-none (codes "positionSourceDisplayName") field v.position_source_display_name
            h)
        refl i;
  position_resolution =
      restored old new (λ v. v.position_resolution) (codes "positionResolution") (λ v. refl)
        (λ field v h. cleared_by-none (codes "positionResolution") field v.position_resolution h)
        refl i;
}
  where
    restored :
        {A : Type 0} (old new : PlayerData) (get : PlayerData → Option A) (name : Text)
        → ((v : PlayerData) → get (clear_player_field name v) ≡ none)
        → ((field : Text) (v : PlayerData) → get v ≡ none → get (clear_player_field field v) ≡ none)
        → flagged name (player_clearings old new) ≡ is_cleared (get old) (get new) || false
        → assigned_some
            (get new)
            (get (clear_each clear_player_field (missing_names (player_clearings old new)) old))
          ≡ get new
    restored old new get name hits stays h =
        optional_restored clear_player_field get name hits stays (player_clearings old new) old
          (get new) h
