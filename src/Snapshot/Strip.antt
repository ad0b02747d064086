-- ===== src/Snapshot/Strip.antt =====
-- `strip_player_positions` of src/relay.rs: what the reliable patch says of the players that the movement
-- datagrams carry.
use minecraft_team_viewer_ba.Battle.Update.{is_empty, upsert}
use minecraft_team_viewer_ba.Objects.Table.{ObjectUpsert}
use minecraft_team_viewer_ba.Prelude.Text.{Text, nat_key, text_key}
use minecraft_team_viewer_ba.Prelude.Map.{Map, lookup}
use minecraft_team_viewer_ba.Snapshot.Diff.{same_bool, same_text}
use minecraft_team_viewer_ba.Objects.Fields.{F64}
use minecraft_team_viewer_ba.Objects.Player.{PlayerData, PlayerDelta}
use minecraft_team_viewer_ba.Prelude.Int.{ℤ, ℤ-discrete}
use minecraft_team_viewer_ba.Snapshot.Types.{Patch, PatchScope, SnapshotFull}
use minecraft_team_viewer_ba.Prelude.{
  Bool, List, Option, [], false, if◌then◌else◌, is_some, ite, none, not, some, true, ◌&&◌, ◌||◌,
  ◌∷◌,
}

-- `if new == old { None } else { new.clone() }` with the equality of the values.
unfoldable pub same_option : {A : Type 0} → (A → A → Bool) → Option A → Option A → Bool
same_option same none none = true
same_option same (some a) (some b) = same a b
same_option same a b = false

unfoldable pub changed_field : {A : Type 0} → (A → A → Bool) → Option A → Option A → Option A
unfolding same_option
changed_field same new old = if same_option same new old then none else new

abbrev pub same_int : ℤ → ℤ → Bool
same_int a b = ite (ℤ-discrete a b) true false

-- `*delta != PlayerDelta::default()`
unfoldable pub has_field : PlayerDelta → Bool
has_field delta =
    is_some delta.x
    || is_some delta.y
    || is_some delta.z
    || is_some delta.vx
    || is_some delta.vy
    || is_some delta.vz
    || is_some delta.dimension
    || is_some delta.player_name
    || is_some delta.player_uuid
    || is_some delta.health
    || is_some delta.max_health
    || is_some delta.armor
    || is_some delta.is_riding
    || is_some delta.width
    || is_some delta.height
    || is_some delta.position_source_id
    || is_some delta.position_source_kind
    || is_some delta.position_source_display_name
    || is_some delta.position_resolution

-- The equality of floats is a parameter.
module _ (same_f64 : F64 → F64 → Bool) where
  unfoldable pub stripped_delta : PlayerDelta → PlayerData → PlayerDelta
  unfolding changed_field
  stripped_delta new old = record {
    x = none;
    y = none;
    z = none;
    vx = none;
    vy = none;
    vz = none;
    dimension = none;
    player_name = changed_field same_text new.player_name old.player_name;
    player_uuid = changed_field same_text new.player_uuid old.player_uuid;
    health = changed_field same_f64 new.health old.health;
    max_health = changed_field same_f64 new.max_health old.max_health;
    armor = changed_field same_f64 new.armor old.armor;
    is_riding = changed_field same_bool new.is_riding old.is_riding;
    width = changed_field same_f64 new.width old.width;
    height = changed_field same_f64 new.height old.height;
    position_source_id = changed_field same_text new.position_source_id old.position_source_id;
    position_source_kind = changed_field same_int new.position_source_kind old.position_source_kind;
    position_source_display_name =
        changed_field same_text new.position_source_display_name old.position_source_display_name;
    position_resolution = changed_field same_f64 new.position_resolution old.position_resolution;
  }

  -- The closure of `retain_mut`: the upsert it leaves, if it keeps one. `none` in the payload is its
  -- `expect`, which an upsert of `player_upsert` never meets.
  unfoldable pub strip_upsert :
      Map Text PlayerData → ObjectUpsert PlayerDelta → Option (ObjectUpsert PlayerDelta)
  unfolding stripped_delta has_field
  strip_upsert delivered upsert = elim (lookup upsert.id delivered) [
    | none ↦ some upsert
    | some old ↦ elim upsert.payload [
      | none ↦ none
      | some new ↦
          if has_field (stripped_delta new old) || not (is_empty upsert.clear_fields)
          then some (record upsert { payload = some (stripped_delta new old) })
          else none
    ]
  ]

  unfoldable pub strip_upserts :
      Map Text PlayerData → List (ObjectUpsert PlayerDelta) → List (ObjectUpsert PlayerDelta)
  unfolding strip_upsert
  strip_upserts delivered [] = []
  strip_upserts delivered (upsert ∷ upserts) = elim (strip_upsert delivered upsert) [
    | none ↦ strip_upserts delivered upserts
    | some kept ↦ kept ∷ strip_upserts delivered upserts
  ]

  unfoldable pub strip_scope :
      Map Text PlayerData → PatchScope PlayerDelta → Option (PatchScope PlayerDelta)
  unfolding strip_upserts
  strip_scope delivered scope =
      let upserts = strip_upserts delivered scope.upsert in
      if is_empty upserts && is_empty scope.delete
      then none
      else some (record scope { upsert = upserts })

  unfoldable pub strip_player_positions : SnapshotFull → Patch → Patch
  unfolding strip_scope
  strip_player_positions delivered patch = elim patch.players [
    | none ↦ patch
    | some scope ↦ record patch { players = strip_scope delivered.players scope }
  ]

unfoldable pub patch_is_empty : Patch → Bool
patch_is_empty patch =
    not (is_some patch.players)
    && not (is_some patch.entities)
    && not (is_some patch.waypoints)
    && not (is_some patch.battle_chunks)
    && not (is_some patch.last_seen_players)
    && not (is_some patch.player_marks)
    && not (is_some patch.tab_state_patch)
    && not (is_some patch.connections)
