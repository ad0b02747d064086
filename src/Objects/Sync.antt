-- ===== src/Objects/Sync.antt =====
-- The difference of two tables of objects, as `map_patch` of src/relay.rs builds it, takes the table of
-- a source from the one to the other, as `apply_report` applies it.
use minecraft_team_viewer_ba.Objects.Fields.{is_cleared}
use minecraft_team_viewer_ba.Prelude.Text.{Text, Text-discrete, missing_names, nat_key, text_key}
use minecraft_team_viewer_ba.Objects.Entity.{
  EntityData, apply-entity_delta, default_entity, entity_cleared_fields, entity_clearings,
  entity_delta, normalize_entity, update_entity,
}
use minecraft_team_viewer_ba.Objects.Player.{
  PlayerData, apply-player_delta, default_player, normalize_player, player_cleared_fields,
  player_clearings, player_delta, update_player,
}
use minecraft_team_viewer_ba.Objects.Table.{
  ObjectKind, entity_kind, existing, is_changed, last_seen_kind, object_upsert, player_kind,
  upsert_object, upsert_objects, upserts_of, waypoint_kind,
}
use minecraft_team_viewer_ba.Objects.Waypoint.{
  WaypointData, apply-waypoint_delta, default_waypoint, normalize_waypoint, update_waypoint,
  waypoint_cleared_fields, waypoint_clearings, waypoint_delta,
}
use minecraft_team_viewer_ba.Prelude.Map.{Map, lookup, lookup-insert, lookup-insert_head}
use minecraft_team_viewer_ba.Sources.Candidates.{Timed}
use minecraft_team_viewer_ba.Prelude.{
  Bool, Bool-cases, Option, [], ap, arith, false, if◌then◌else◌, inl, inr, is_some, ite, none, refl,
  some, subst, true, ℕ, ◌∙◌, ◌∷◌, ◌≡◌, ◌≢◌,
}

-- The laws that the functions on one kind of object have.
pub record IsExact {V D : Type 0} (kind : ObjectKind V D) : Type 0 where
  pub update_known :
      (old new : V)
      → kind.update old (kind.delta new) (kind.cleared_fields old new) ≡ kind.normalize new
  pub update_default : (new : V) → kind.update kind.default (kind.delta new) [] ≡ kind.normalize new

player_known :
    (old new : PlayerData)
    → update_player old (player_delta new) (player_cleared_fields old new) ≡ normalize_player new
unfolding update_player
player_known old new = ap normalize_player (apply-player_delta old new)

player_default :
    (new : PlayerData) → update_player default_player (player_delta new) [] ≡ normalize_player new
unfolding player_cleared_fields missing_names player_clearings is_cleared
player_default new = player_known default_player new

pub player_kind-IsExact : IsExact player_kind
player_kind-IsExact = record { update_known = player_known; update_default = player_default }

entity_known :
    (old new : EntityData)
    → update_entity old (entity_delta new) (entity_cleared_fields old new) ≡ normalize_entity new
unfolding update_entity
entity_known old new = ap normalize_entity (apply-entity_delta old new)

entity_default :
    (new : EntityData) → update_entity default_entity (entity_delta new) [] ≡ normalize_entity new
unfolding entity_cleared_fields missing_names entity_clearings is_cleared
entity_default new = entity_known default_entity new

entity_kind-IsExact : IsExact entity_kind
entity_kind-IsExact = record { update_known = entity_known; update_default = entity_default }

waypoint_known :
    (old new : WaypointData)
    → update_waypoint old (waypoint_delta new) (waypoint_cleared_fields old new)
      ≡ normalize_waypoint new
unfolding update_waypoint
waypoint_known old new = ap normalize_waypoint (apply-waypoint_delta old new)

waypoint_default :
    (new : WaypointData)
    → update_waypoint default_waypoint (waypoint_delta new) [] ≡ normalize_waypoint new
unfolding waypoint_cleared_fields missing_names waypoint_clearings is_cleared
waypoint_default new = waypoint_known default_waypoint new

waypoint_kind-IsExact : IsExact waypoint_kind
waypoint_kind-IsExact = record { update_known = waypoint_known; update_default = waypoint_default }

last_seen_kind-IsExact : {L : Type 0} (default : L) → IsExact (last_seen_kind default)
last_seen_kind-IsExact default = record {
  update_known = λ old new. refl;
  update_default = λ new. refl;
}

-- The ids of a table are distinct.
abbrev pub IsDistinctTable : {V : Type 0} → Map Text V → Type 0
IsDistinctTable [] = Unit
IsDistinctTable ((id, value) ∷ rest) = (lookup id rest ≡ none) × IsDistinctTable rest

abbrev pub content_of : {V : Type 0} → Option (Timed V) → Option V
content_of none = none
content_of (some value) = some (value.content)

abbrev pub contents : {V : Type 0} → Map Text (Timed V) → Map Text V
contents [] = []
contents ((id, value) ∷ table) = (id, value.content) ∷ contents table

pub lookup-contents :
    {V : Type 0} (id : Text) (table : Map Text (Timed V))
    → lookup id (contents table) ≡ content_of (lookup id table)
unfolding lookup
lookup-contents id [] = refl
lookup-contents id ((i, value) ∷ table) = ground (arith, lookup-contents id table)

module _ {V D : Type 0} (kind : ObjectKind V D) (exact : IsExact kind) (same : V → V → Bool)
    (now : ℕ) (old : Map Text V) where
  -- What an object of the new table becomes.
  abbrev pub received : Option V → V → Option V
  received before value =
      if is_changed same before value then some (kind.normalize value) else before

  abbrev pub received_at : Text → Option V → Option V → Option V
  received_at id none current = current
  received_at id (some value) current = received (lookup id old) value

  update_exact :
      (id : Text) (value : V) (t : Option (Timed V))
      → kind.update
          (existing kind t)
          (kind.delta value)
          ((object_upsert kind id value (content_of t)).clear_fields)
        ≡ kind.normalize value
  unfolding object_upsert existing
  update_exact id value none = exact.update_default value
  update_exact id value (some t) = exact.update_known t.content value

  -- The table after the upsert of an object, at every id.
  lookup-upsert_object :
      (id j : Text) (value : V) (table : Map Text (Timed V))
      → content_of (lookup id table) ≡ lookup id old
      → content_of
          (lookup j (upsert_object kind now (object_upsert kind id value (lookup id old)) table))
        ≡ ite (Text-discrete id j) (some (kind.normalize value)) (content_of (lookup j table))
  unfolding upsert_object object_upsert
  lookup-upsert_object id j value table h =
      subst
        (λ o.
          content_of (lookup j (upsert_object kind now (object_upsert kind id value o) table))
          ≡ ite (Text-discrete id j) (some (kind.normalize value)) (content_of (lookup j table)))
        h (ap content_of (lookup-insert id j updated table) ∙ either (Text-discrete id j))
    where
      updated : Timed V
      updated = record {
        content =
            kind.update (existing kind (lookup id table)) (kind.delta value)
              ((object_upsert kind id value (content_of (lookup id table))).clear_fields);
        received_at = now;
      }

      either :
          (d : Dec (id ≡ j))
          → content_of (ite d (some updated) (lookup j table))
            ≡ ite d (some (kind.normalize value)) (content_of (lookup j table))
      either (yes e) = ap some (update_exact id value (lookup id table))
      either (no n) = refl

  -- An id of the rest of a table is another one than that of its head.
  later :
      (i j : Text) (value : V) (new : Map Text V)
      → lookup i new ≡ none
      → is_some (lookup j new) ≡ true
      → (i ≢ j) × (is_some (lookup j ((i, value) ∷ new)) ≡ true)
  unfolding lookup
  later i j value new absent present = elim (Text-discrete i j) [
    | yes same ↦ absurd (differs same)
    | no other ↦ (other, ground arith)
  ]
    where
      differs : ¬ (i ≡ j)
      differs e = ground (arith, ap (λ k. lookup k new) e)

  lookup-tail :
      (i j : Text) (value : V) (new : Map Text V)
      → i ≢ j
      → lookup j ((i, value) ∷ new) ≡ lookup j new
  unfolding lookup
  lookup-tail i j value new other = ground arith

  -- The head of the new table, taken over when it changed, and left alone when not.
  head_changed :
      (i id : Text) (value : V) (new : Map Text V) (table : Map Text (Timed V))
      → is_changed same (lookup i old) value ≡ true
      → lookup i new ≡ none
      → content_of (lookup i table) ≡ lookup i old
      → received_at id (lookup id new) (
          content_of
            (lookup id (upsert_object kind now (object_upsert kind i value (lookup i old)) table)))
        ≡ received_at id (lookup id ((i, value) ∷ new)) (content_of (lookup id table))
  head_changed i id value new table changed absent known = elim (Text-discrete i id) [
    | yes same_id ↦
        subst
          (λ j.
            received_at j (lookup j new) (
              content_of (
                lookup j
                  (upsert_object kind now (object_upsert kind i value (lookup i old)) table)))
            ≡ received_at j (lookup j ((i, value) ∷ new)) (content_of (lookup j table)))
          same_id
          (ground
            (arith, lookup-upsert_object i i value table known, lookup-insert_head i value new))
    | no other ↦
        ground
          (arith, lookup-upsert_object i id value table known, lookup-tail i id value new other)
  ]

  head_kept :
      (i id : Text) (value : V) (new : Map Text V) (table : Map Text (Timed V))
      → is_changed same (lookup i old) value ≡ false
      → lookup i new ≡ none
      → content_of (lookup i table) ≡ lookup i old
      → received_at id (lookup id new) (content_of (lookup id table))
        ≡ received_at id (lookup id ((i, value) ∷ new)) (content_of (lookup id table))
  head_kept i id value new table kept absent known = elim (Text-discrete i id) [
    | yes same_id ↦
        subst
          (λ j.
            received_at j (lookup j new) (content_of (lookup j table))
            ≡ received_at j (lookup j ((i, value) ∷ new)) (content_of (lookup j table)))
          same_id (ground (arith, lookup-insert_head i value new))
    | no other ↦ ground (arith, lookup-tail i id value new other)
  ]

  pub upserts-content :
      (new : Map Text V) (table : Map Text (Timed V))
      → IsDistinctTable new
      → ((id : Text)
          → is_some (lookup id new) ≡ true
          → content_of (lookup id table) ≡ lookup id old)
      → (id : Text)
      → content_of
          (lookup id (upsert_objects kind now (upserts_of same (object_upsert kind) old new) table))
        ≡ received_at id (lookup id new) (content_of (lookup id table))
  unfolding upserts_of upsert_objects lookup
  upserts-content [] table d inv id = refl
  upserts-content ((i, value) ∷ new) table d inv id =
      elim (Bool-cases (is_changed same (lookup i old) value)) [
        | inl changed ↦
            let known = inv i (ap is_some (lookup-insert_head i value new)) in
            let table' = upsert_object kind now (object_upsert kind i value (lookup i old)) table in
            let rest =
              upserts-content new table' d.1
                (λ j m.
                  let (other, present) = later i j value new d.0 m in
                  lookup-upsert_object i j value table known ∙ ground (arith, inv j present))
                id in
            rw (changed, upsert_objects)
              (rest ∙ head_changed i id value new table changed d.0 known)
        | inr kept ↦
            let known = inv i (ap is_some (lookup-insert_head i value new)) in
            let rest =
              upserts-content new table d.1 (λ j m. inv j (later i j value new d.0 m).1) id in
            rw (kept, upsert_objects) (rest ∙ head_kept i id value new table kept d.0 known)
      ]
