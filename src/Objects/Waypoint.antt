-- ===== src/Objects/Waypoint.antt =====
-- `WaypointData` of src/relay.rs: its difference, its cleared fields, and their application.
use minecraft_team_viewer_ba.Prelude.Int.{ℤ}
use minecraft_team_viewer_ba.Objects.Fields.{
  F64, assigned, assigned_some, clear_each, cleared_by, cleared_by-none, f64_zero, flagged,
  is_cleared, optional_restored, or_default,
}
use minecraft_team_viewer_ba.Prelude.{
  Bool, List, Option, [], false, none, refl, some, ℕ_discrete, ◌||◌, ◌∷◌, ◌≡◌,
}
use minecraft_team_viewer_ba.Prelude.Text.{
  Text, Text-discrete, codes, missing_names, nat_key, text_key,
}

pub record WaypointData : Type 0 where
  pub x : F64
  pub y : F64
  pub z : F64
  pub dimension : Text
  pub name : Text
  pub symbol : Option Text
  pub color : Option ℤ
  pub owner_id : Option Text
  pub owner_name : Option Text
  pub created_at : Option ℤ
  pub ttl_seconds : Option ℤ
  pub waypoint_kind : Option Text
  pub replace_old_quick : Option Bool
  pub max_quick_marks : Option ℤ
  pub target_type : Option Text
  pub target_entity_id : Option Text
  pub target_entity_type : Option Text
  pub target_entity_name : Option Text
  pub room_code : Option Text
  pub permanent : Option Bool
  pub tactical_type : Option Text
  pub source_type : Option Text
  pub deletable_by : Option Text

pub record WaypointDelta : Type 0 where
  pub x : Option F64
  pub y : Option F64
  pub z : Option F64
  pub dimension : Option Text
  pub name : Option Text
  pub symbol : Option Text
  pub color : Option ℤ
  pub owner_id : Option Text
  pub owner_name : Option Text
  pub created_at : Option ℤ
  pub ttl_seconds : Option ℤ
  pub waypoint_kind : Option Text
  pub replace_old_quick : Option Bool
  pub max_quick_marks : Option ℤ
  pub target_type : Option Text
  pub target_entity_id : Option Text
  pub target_entity_type : Option Text
  pub target_entity_name : Option Text
  pub room_code : Option Text
  pub permanent : Option Bool
  pub tactical_type : Option Text
  pub source_type : Option Text
  pub deletable_by : Option Text

-- `WaypointData::default()`
abbrev pub default_waypoint : WaypointData
default_waypoint = record {
  x = f64_zero;
  y = f64_zero;
  z = f64_zero;
  dimension = [];
  name = [];
  symbol = none;
  color = none;
  owner_id = none;
  owner_name = none;
  created_at = none;
  ttl_seconds = none;
  waypoint_kind = none;
  replace_old_quick = none;
  max_quick_marks = none;
  target_type = none;
  target_entity_id = none;
  target_entity_type = none;
  target_entity_name = none;
  room_code = none;
  permanent = none;
  tactical_type = none;
  source_type = none;
  deletable_by = none;
}

unfoldable pub waypoint_delta : WaypointData → WaypointDelta
waypoint_delta value = record {
  x = some value.x;
  y = some value.y;
  z = some value.z;
  dimension = some value.dimension;
  name = some value.name;
  symbol = value.symbol;
  color = value.color;
  owner_id = value.owner_id;
  owner_name = value.owner_name;
  created_at = value.created_at;
  ttl_seconds = value.ttl_seconds;
  waypoint_kind = value.waypoint_kind;
  replace_old_quick = value.replace_old_quick;
  max_quick_marks = value.max_quick_marks;
  target_type = value.target_type;
  target_entity_id = value.target_entity_id;
  target_entity_type = value.target_entity_type;
  target_entity_name = value.target_entity_name;
  room_code = value.room_code;
  permanent = value.permanent;
  tactical_type = value.tactical_type;
  source_type = value.source_type;
  deletable_by = value.deletable_by;
}

unfoldable pub apply_waypoint_delta : WaypointData → WaypointDelta → WaypointData
apply_waypoint_delta value delta = record {
  x = assigned delta.x value.x;
  y = assigned delta.y value.y;
  z = assigned delta.z value.z;
  dimension = assigned delta.dimension value.dimension;
  name = assigned delta.name value.name;
  symbol = assigned_some delta.symbol value.symbol;
  color = assigned_some delta.color value.color;
  owner_id = assigned_some delta.owner_id value.owner_id;
  owner_name = assigned_some delta.owner_name value.owner_name;
  created_at = assigned_some delta.created_at value.created_at;
  ttl_seconds = assigned_some delta.ttl_seconds value.ttl_seconds;
  waypoint_kind = assigned_some delta.waypoint_kind value.waypoint_kind;
  replace_old_quick = assigned_some delta.replace_old_quick value.replace_old_quick;
  max_quick_marks = assigned_some delta.max_quick_marks value.max_quick_marks;
  target_type = assigned_some delta.target_type value.target_type;
  target_entity_id = assigned_some delta.target_entity_id value.target_entity_id;
  target_entity_type = assigned_some delta.target_entity_type value.target_entity_type;
  target_entity_name = assigned_some delta.target_entity_name value.target_entity_name;
  room_code = assigned_some delta.room_code value.room_code;
  permanent = assigned_some delta.permanent value.permanent;
  tactical_type = assigned_some delta.tactical_type value.tactical_type;
  source_type = assigned_some delta.source_type value.source_type;
  deletable_by = assigned_some delta.deletable_by value.deletable_by;
}

unfoldable pub clear_waypoint_field : Text → WaypointData → WaypointData
unfolding cleared_by
clear_waypoint_field field value = record value {
  symbol = cleared_by (codes "symbol") field value.symbol;
  color = cleared_by (codes "color") field value.color;
  owner_id = cleared_by (codes "ownerId") field value.owner_id;
  owner_name = cleared_by (codes "ownerName") field value.owner_name;
  created_at = cleared_by (codes "createdAt") field value.created_at;
  ttl_seconds = cleared_by (codes "ttlSeconds") field value.ttl_seconds;
  waypoint_kind = cleared_by (codes "waypointKind") field value.waypoint_kind;
  replace_old_quick = cleared_by (codes "replaceOldQuick") field value.replace_old_quick;
  max_quick_marks = cleared_by (codes "maxQuickMarks") field value.max_quick_marks;
  target_type = cleared_by (codes "targetType") field value.target_type;
  target_entity_id = cleared_by (codes "targetEntityId") field value.target_entity_id;
  target_entity_type = cleared_by (codes "targetEntityType") field value.target_entity_type;
  target_entity_name = cleared_by (codes "targetEntityName") field value.target_entity_name;
  room_code = cleared_by (codes "roomCode") field value.room_code;
  permanent = cleared_by (codes "permanent") field value.permanent;
  tactical_type = cleared_by (codes "tacticalType") field value.tactical_type;
  source_type = cleared_by (codes "sourceType") field value.source_type;
  deletable_by = cleared_by (codes "deletableBy") field value.deletable_by;
}

unfoldable pub clear_waypoint_fields : WaypointData → List Text → WaypointData
unfolding clear_waypoint_field clear_each
clear_waypoint_fields value fields = clear_each clear_waypoint_field fields value

unfoldable pub waypoint_clearings : WaypointData → WaypointData → List (Text × Bool)
unfolding is_cleared
waypoint_clearings old new =
    (codes "symbol", is_cleared old.symbol new.symbol)
    ∷ (codes "color", is_cleared old.color new.color)
    ∷ (codes "ownerId", is_cleared old.owner_id new.owner_id)
    ∷ (codes "ownerName", is_cleared old.owner_name new.owner_name)
    ∷ (codes "createdAt", is_cleared old.created_at new.created_at)
    ∷ (codes "ttlSeconds", is_cleared old.ttl_seconds new.ttl_seconds)
    ∷ (codes "waypointKind", is_cleared old.waypoint_kind new.waypoint_kind)
    ∷ (codes "replaceOldQuick", is_cleared old.replace_old_quick new.replace_old_quick)
    ∷ (codes "maxQuickMarks", is_cleared old.max_quick_marks new.max_quick_marks)
    ∷ (codes "targetType", is_cleared old.target_type new.target_type)
    ∷ (codes "targetEntityId", is_cleared old.target_entity_id new.target_entity_id)
    ∷ (codes "targetEntityType", is_cleared old.target_entity_type new.target_entity_type)
    ∷ (codes "targetEntityName", is_cleared old.target_entity_name new.target_entity_name)
    ∷ (codes "roomCode", is_cleared old.room_code new.room_code)
    ∷ (codes "permanent", is_cleared old.permanent new.permanent)
    ∷ (codes "tacticalType", is_cleared old.tactical_type new.tactical_type)
    ∷ (codes "sourceType", is_cleared old.source_type new.source_type)
    ∷ (codes "deletableBy", is_cleared old.deletable_by new.deletable_by)
    ∷ []

unfoldable pub waypoint_cleared_fields : WaypointData → WaypointData → List Text
unfolding missing_names waypoint_clearings
waypoint_cleared_fields old new = missing_names (waypoint_clearings old new)

unfoldable pub normalize_waypoint : WaypointData → WaypointData
unfolding or_default
normalize_waypoint value = record value {
  symbol = or_default value.symbol (codes "W");
  deletable_by = or_default value.deletable_by (codes "everyone");
}

-- What `apply_report` does to an object that it has: clear, then apply, then normalize.
unfoldable pub update_waypoint : WaypointData → WaypointDelta → List Text → WaypointData
update_waypoint value delta fields =
    normalize_waypoint (apply_waypoint_delta (clear_waypoint_fields value fields) delta)

-- The difference between two waypoints, applied to the first, gives the second, whatever fields either has.
pub apply-waypoint_delta :
    (old new : WaypointData)
    → apply_waypoint_delta
        (clear_waypoint_fields old (waypoint_cleared_fields old new))
        (waypoint_delta new)
      ≡ new
unfolding apply_waypoint_delta clear_waypoint_fields waypoint_cleared_fields waypoint_delta assigned
    flagged waypoint_clearings Text-discrete ℕ_discrete
apply-waypoint_delta old new = λ i. record {
  x = new.x;
  y = new.y;
  z = new.z;
  dimension = new.dimension;
  name = new.name;
  symbol =
      restored old new (λ v. v.symbol) (codes "symbol") (λ v. refl)
        (λ field v h. cleared_by-none (codes "symbol") field v.symbol h) refl i;
  color =
      restored old new (λ v. v.color) (codes "color") (λ v. refl)
        (λ field v h. cleared_by-none (codes "color") field v.color h) refl i;
  owner_id =
      restored old new (λ v. v.owner_id) (codes "ownerId") (λ v. refl)
        (λ field v h. cleared_by-none (codes "ownerId") field v.owner_id h) refl i;
  owner_name =
      restored old new (λ v. v.owner_name) (codes "ownerName") (λ v. refl)
        (λ field v h. cleared_by-none (codes "ownerName") field v.owner_name h) refl i;
  created_at =
      restored old new (λ v. v.created_at) (codes "createdAt") (λ v. refl)
        (λ field v h. cleared_by-none (codes "createdAt") field v.created_at h) refl i;
  ttl_seconds =
      restored old new (λ v. v.ttl_seconds) (codes "ttlSeconds") (λ v. refl)
        (λ field v h. cleared_by-none (codes "ttlSeconds") field v.ttl_seconds h) refl i;
  waypoint_kind =
      restored old new (λ v. v.waypoint_kind) (codes "waypointKind") (λ v. refl)
        (λ field v h. cleared_by-none (codes "waypointKind") field v.waypoint_kind h) refl i;
  replace_old_quick =
      restored old new (λ v. v.replace_old_quick) (codes "replaceOldQuick") (λ v. refl)
        (λ field v h. cleared_by-none (codes "replaceOldQuick") field v.replace_old_quick h) refl i;
  max_quick_marks =
      restored old new (λ v. v.max_quick_marks) (codes "maxQuickMarks") (λ v. refl)
        (λ field v h. cleared_by-none (codes "maxQuickMarks") field v.max_quick_marks h) refl i;
  target_type =
      restored old new (λ v. v.target_type) (codes "targetType") (λ v. refl)
        (λ field v h. cleared_by-none (codes "targetType") field v.target_type h) refl i;
  target_entity_id =
      restored old new (λ v. v.target_entity_id) (codes "targetEntityId") (λ v. refl)
        (λ field v h. cleared_by-none (codes "targetEntityId") field v.target_entity_id h) refl i;
  target_entity_type =
      restored old new (λ v. v.target_entity_type) (codes "targetEntityType") (λ v. refl)
        (λ field v h. cleared_by-none (codes "targetEntityType") field v.target_entity_type h) refl
        i;
  target_entity_name =
      restored old new (λ v. v.target_entity_name) (codes "targetEntityName") (λ v. refl)
        (λ field v h. cleared_by-none (codes "targetEntityName") field v.target_entity_name h) refl
        i;
  room_code =
      restored old new (λ v. v.room_code) (codes "roomCode") (λ v. refl)
        (λ field v h. cleared_by-none (codes "roomCode") field v.room_code h) refl i;
  permanent =
      restored old new (λ v. v.permanent) (codes "permanent") (λ v. refl)
        (λ field v h. cleared_by-none (codes "permanent") field v.permanent h) refl i;
  tactical_type =
      restored old new (λ v. v.tactical_type) (codes "tacticalType") (λ v. refl)
        (λ field v h. cleared_by-none (codes "tacticalType") field v.tactical_type h) refl i;
  source_type =
      restored old new (λ v. v.source_type) (codes "sourceType") (λ v. refl)
        (λ field v h. cleared_by-none (codes "sourceType") field v.source_type h) refl i;
  deletable_by =
      restored old new (λ v. v.deletable_by) (codes "deletableBy") (λ v. refl)
        (λ field v h. cleared_by-none (codes "deletableBy") field v.deletable_by h) refl i;
}
  where
    restored :
        {A : Type 0} (old new : WaypointData) (get : WaypointData → Option A) (name : Text)
        → ((v : WaypointData) → get (clear_waypoint_field name v) ≡ none)
        → ((field : Text) (v : WaypointData)
            → get v ≡ none
            → get (clear_waypoint_field field v) ≡ none)
        → flagged name (waypoint_clearings old new) ≡ is_cleared (get old) (get new) || false
        → assigned_some
            (get new)
            (get (clear_each clear_waypoint_field (missing_names (waypoint_clearings old new)) old))
          ≡ get new
    restored old new get name hits stays h =
        optional_restored clear_waypoint_field get name hits stays (waypoint_clearings old new) old
          (get new) h
