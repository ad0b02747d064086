-- ===== src/Objects/Entity.antt =====
-- `EntityData` of src/relay.rs: its difference, its cleared fields, and their application.
use minecraft_team_viewer_ba.Objects.Fields.{
  F64, assigned, assigned_some, clear_each, cleared_by, cleared_by-none, f64_0_6, f64_1_8, f64_zero,
  flagged, is_cleared, optional_restored, or_default,
}
use minecraft_team_viewer_ba.Prelude.{
  Bool, List, Option, [], false, none, refl, some, ℕ_discrete, ◌||◌, ◌∷◌, ◌≡◌,
}
use minecraft_team_viewer_ba.Prelude.Text.{
  Text, Text-discrete, codes, missing_names, nat_key, text_key,
}

pub record EntityData : Type 0 where
  pub x : F64
  pub y : F64
  pub z : F64
  pub vx : Option F64
  pub vy : Option F64
  pub vz : Option F64
  pub dimension : Text
  pub entity_type : Option Text
  pub entity_name : Option Text
  pub width : Option F64
  pub height : Option F64

pub record EntityDelta : Type 0 where
  pub x : Option F64
  pub y : Option F64
  pub z : Option F64
  pub vx : Option F64
  pub vy : Option F64
  pub vz : Option F64
  pub dimension : Option Text
  pub entity_type : Option Text
  pub entity_name : Option Text
  pub width : Option F64
  pub height : Option F64

-- `EntityData::default()`
abbrev pub default_entity : EntityData
default_entity = record {
  x = f64_zero;
  y = f64_zero;
  z = f64_zero;
  vx = none;
  vy = none;
  vz = none;
  dimension = [];
  entity_type = none;
  entity_name = none;
  width = none;
  height = none;
}

unfoldable pub entity_delta : EntityData → EntityDelta
entity_delta value = record {
  x = some value.x;
  y = some value.y;
  z = some value.z;
  vx = value.vx;
  vy = value.vy;
  vz = value.vz;
  dimension = some value.dimension;
  entity_type = value.entity_type;
  entity_name = value.entity_name;
  width = value.width;
  height = value.height;
}

unfoldable pub apply_entity_delta : EntityData → EntityDelta → EntityData
apply_entity_delta value delta = record {
  x = assigned delta.x value.x;
  y = assigned delta.y value.y;
  z = assigned delta.z value.z;
  vx = assigned_some delta.vx value.vx;
  vy = assigned_some delta.vy value.vy;
  vz = assigned_some delta.vz value.vz;
  dimension = assigned delta.dimension value.dimension;
  entity_type = assigned_some delta.entity_type value.entity_type;
  entity_name = assigned_some delta.entity_name value.entity_name;
  width = assigned_some delta.width value.width;
  height = assigned_some delta.height value.height;
}

unfoldable pub clear_entity_field : Text → EntityData → EntityData
unfolding cleared_by
clear_entity_field field value = record value {
  vx = cleared_by (codes "vx") field value.vx;
  vy = cleared_by (codes "vy") field value.vy;
  vz = cleared_by (codes "vz") field value.vz;
  entity_type = cleared_by (codes "entityType") field value.entity_type;
  entity_name = cleared_by (codes "entityName") field value.entity_name;
  width = cleared_by (codes "width") field value.width;
  height = cleared_by (codes "height") field value.height;
}

unfoldable pub clear_entity_fields : EntityData → List Text → EntityData
unfolding clear_entity_field clear_each
clear_entity_fields value fields = clear_each clear_entity_field fields value

unfoldable pub entity_clearings : EntityData → EntityData → List (Text × Bool)
unfolding is_cleared
entity_clearings old new =
    (codes "vx", is_cleared old.vx new.vx)
    ∷ (codes "vy", is_cleared old.vy new.vy)
    ∷ (codes "vz", is_cleared old.vz new.vz)
    ∷ (codes "entityType", is_cleared old.entity_type new.entity_type)
    ∷ (codes "entityName", is_cleared old.entity_name new.entity_name)
    ∷ (codes "width", is_cleared old.width new.width)
    ∷ (codes "height", is_cleared old.height new.height)
    ∷ []

unfoldable pub entity_cleared_fields : EntityData → EntityData → List Text
unfolding missing_names entity_clearings
entity_cleared_fields old new = missing_names (entity_clearings old new)

unfoldable pub normalize_entity : EntityData → EntityData
unfolding or_default
normalize_entity value = record value {
  vx = or_default value.vx f64_zero;
  vy = or_default value.vy f64_zero;
  vz = or_default value.vz f64_zero;
  width = or_default value.width f64_0_6;
  height = or_default value.height f64_1_8;
}

-- What `apply_report` does to an object that it has: clear, then apply, then normalize.
unfoldable pub update_entity : EntityData → EntityDelta → List Text → EntityData
update_entity value delta fields =
    normalize_entity (apply_entity_delta (clear_entity_fields value fields) delta)

-- The difference between two entities, applied to the first, gives the second, whatever fields either has.
pub apply-entity_delta :
    (old new : EntityData)
    → apply_entity_delta
        (clear_entity_fields old (entity_cleared_fields old new))
        (entity_delta new)
      ≡ new
unfolding apply_entity_delta clear_entity_fields entity_cleared_fields entity_delta assigned flagged
    entity_clearings Text-discrete ℕ_discrete
apply-entity_delta old new = λ i. record {
  x = new.x;
  y = new.y;
  z = new.z;
  vx =
      restored old new (λ v. v.vx) (codes "vx") (λ v. refl)
        (λ field v h. cleared_by-none (codes "vx") field v.vx h) refl i;
  vy =
      restored old new (λ v. v.vy) (codes "vy") (λ v. refl)
        (λ field v h. cleared_by-none (codes "vy") field v.vy h) refl i;
  vz =
      restored old new (λ v. v.vz) (codes "vz") (λ v. refl)
        (λ field v h. cleared_by-none (codes "vz") field v.vz h) refl i;
  dimension = new.dimension;
  entity_type =
      restored old new (λ v. v.entity_type) (codes "entityType") (λ v. refl)
        (λ field v h. cleared_by-none (codes "entityType") field v.entity_type h) refl i;
  entity_name =
      restored old new (λ v. v.entity_name) (codes "entityName") (λ v. refl)
        (λ field v h. cleared_by-none (codes "entityName") field v.entity_name h) refl i;
  width =
      restored old new (λ v. v.width) (codes "width") (λ v. refl)
        (λ field v h. cleared_by-none (codes "width") field v.width h) refl i;
  height =
      restored old new (λ v. v.height) (codes "height") (λ v. refl)
        (λ field v h. cleared_by-none (codes "height") field v.height h) refl i;
}
  where
    restored :
        {A : Type 0} (old new : EntityData) (get : EntityData → Option A) (name : Text)
        → ((v : EntityData) → get (clear_entity_field name v) ≡ none)
        → ((field : Text) (v : EntityData) → get v ≡ none → get (clear_entity_field field v) ≡ none)
        → flagged name (entity_clearings old new) ≡ is_cleared (get old) (get new) || false
        → assigned_some
            (get new)
            (get (clear_each clear_entity_field (missing_names (entity_clearings old new)) old))
          ≡ get new
    restored old new get name hits stays h =
        optional_restored clear_entity_field get name hits stays (entity_clearings old new) old
          (get new) h
