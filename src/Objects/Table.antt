-- ===== src/Objects/Table.antt =====
-- The table of a source's objects in src/relay.rs: `map_patch` and the `*_upsert` functions, which
-- describe the difference of two tables, and the part of `apply_report` that changes a table. The
-- tables of players, entities and waypoints differ only in the functions on one object, so these are
-- the fields of a record.
use minecraft_team_viewer_ba.Objects.Entity.{
  EntityData, EntityDelta, default_entity, entity_cleared_fields, entity_delta, normalize_entity,
  update_entity,
}
use minecraft_team_viewer_ba.Objects.Player.{
  PlayerData, PlayerDelta, default_player, normalize_player, player_cleared_fields, player_delta,
  update_player,
}
use minecraft_team_viewer_ba.Objects.Waypoint.{
  WaypointData, WaypointDelta, default_waypoint, normalize_waypoint, update_waypoint,
  waypoint_cleared_fields, waypoint_delta,
}
use minecraft_team_viewer_ba.Prelude.Map.{Map, contains_key, insert, lookup, remove}
use minecraft_team_viewer_ba.Prelude.Text.{Text, nat_key, text_key}
use minecraft_team_viewer_ba.Sources.Candidates.{Timed}
use minecraft_team_viewer_ba.Prelude.{
  Bool, List, Option, [], if◌then◌else◌, map, none, not, some, true, ℕ, ◌∷◌,
}

-- The functions on one kind of object.
pub record ObjectKind (V D : Type 0) : Type 0 where
  pub delta : V → D
  pub cleared_fields : V → V → List Text
  pub normalize : V → V
  pub update : V → D → List Text → V
  pub default : V

-- `PlayerUpsert`, `EntityUpsert` and `WaypointUpsert`
pub record ObjectUpsert (D : Type 0) : Type 0 where
  pub id : Text
  pub payload : Option D
  pub clear_fields : List Text

module _ {V D : Type 0} (kind : ObjectKind V D) where
  unfoldable pub object_upsert : Text → V → Option V → ObjectUpsert D
  object_upsert id value old = record {
    id = id;
    payload = some (kind.delta value);
    clear_fields = elim old [ none ↦ [] | some old ↦ kind.cleared_fields old value ];
  }

  -- The object that an upsert changes: the one of this id, or the default.
  unfoldable pub existing : Option (Timed V) → V
  existing none = kind.default
  existing (some value) = value.content

  -- The body of the loop over `patch.upsert`.
  unfoldable pub upsert_object : ℕ → ObjectUpsert D → Map Text (Timed V) → Map Text (Timed V)
  unfolding existing
  upsert_object now upsert table = elim upsert.payload [
    | none ↦ table
    | some delta ↦
        insert upsert.id
          (record {
            content = kind.update (existing (lookup upsert.id table)) delta upsert.clear_fields;
            received_at = now;
          })
          table
  ]

  unfoldable pub upsert_objects :
      ℕ → List (ObjectUpsert D) → Map Text (Timed V) → Map Text (Timed V)
  unfolding upsert_object
  upsert_objects now [] table = table
  upsert_objects now (upsert ∷ upserts) table =
      upsert_objects now upserts (upsert_object now upsert table)

  -- `for id in patch.delete { table.remove(&id); }`
  unfoldable pub delete_objects : List Text → Map Text (Timed V) → Map Text (Timed V)
  delete_objects [] table = table
  delete_objects (id ∷ ids) table = delete_objects ids (remove id table)

  unfoldable pub apply_object_patch :
      ℕ → List (ObjectUpsert D) × List Text → Map Text (Timed V) → Map Text (Timed V)
  unfolding upsert_objects delete_objects
  apply_object_patch now patch table = delete_objects patch.1 (upsert_objects now patch.0 table)

  -- A report that replaces the table.
  unfoldable pub replace_objects : ℕ → Map Text V → Map Text (Timed V)
  replace_objects now objects =
      map (λ e. (e.0, record { content = kind.normalize e.1; received_at = now })) objects

-- `old.get(id) != Some(value)` under the equality of the values.
unfoldable pub is_changed : {T : Type 0} → (T → T → Bool) → Option T → T → Bool
is_changed same none value = true
is_changed same (some old) value = not (same old value)

module _ {T U : Type 0} (same : T → T → Bool) (make_upsert : Text → T → Option T → U) where
  unfoldable pub upserts_of : Map Text T → Map Text T → List U
  unfolding is_changed
  upserts_of old [] = []
  upserts_of old ((id, value) ∷ new) =
      let rest = upserts_of old new in
      if is_changed same (lookup id old) value
      then make_upsert id value (lookup id old) ∷ rest
      else rest

  unfoldable pub deletes_of : Map Text T → Map Text T → List Text
  deletes_of [] new = []
  deletes_of ((id, value) ∷ old) new =
      let rest = deletes_of old new in if contains_key id new then rest else id ∷ rest

  -- `(!upsert.is_empty() || !delete.is_empty()).then_some((upsert, delete))`
  unfoldable pub nonempty_patch : List U → List Text → Option (List U × List Text)
  nonempty_patch [] [] = none
  nonempty_patch upsert delete = some (upsert, delete)

  unfoldable pub map_patch : Map Text T → Map Text T → Option (List U × List Text)
  unfolding upserts_of deletes_of nonempty_patch
  map_patch old new = nonempty_patch (upserts_of old new) (deletes_of old new)

abbrev pub player_kind : ObjectKind PlayerData PlayerDelta
player_kind = record {
  delta = player_delta;
  cleared_fields = player_cleared_fields;
  normalize = normalize_player;
  update = update_player;
  default = default_player;
}

abbrev pub entity_kind : ObjectKind EntityData EntityDelta
entity_kind = record {
  delta = entity_delta;
  cleared_fields = entity_cleared_fields;
  normalize = normalize_entity;
  update = update_entity;
  default = default_entity;
}

abbrev pub waypoint_kind : ObjectKind WaypointData WaypointDelta
waypoint_kind = record {
  delta = waypoint_delta;
  cleared_fields = waypoint_cleared_fields;
  normalize = normalize_waypoint;
  update = update_waypoint;
  default = default_waypoint;
}

-- A last-seen player is sent and stored whole, with no field of its own read: its type, and the default
-- that its table never uses, are parameters.
abbrev pub last_seen_kind : {L : Type 0} → L → ObjectKind L L
last_seen_kind default = record {
  delta = λ value. value;
  cleared_fields = λ old new. [];
  normalize = λ value. value;
  update = λ value delta fields. delta;
  default = default;
}

unfoldable pub last_seen_upsert : {L : Type 0} → Text → L → Option L → ObjectUpsert L
last_seen_upsert id value old = record { id = id; payload = some value; clear_fields = [] }
