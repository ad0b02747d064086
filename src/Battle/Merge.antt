-- ===== src/Battle/Merge.antt =====
-- How a client that is sent a `BattleChunkUpsert` of src/relay.rs merges it onto its copy of the chunk.
-- Clients are not in the repository; this is what `battle_missing_fields` of src/relay.rs and
-- `adapt_outbound_patch` of src/protocol_compat.rs presuppose of them: an optional field that is sent
-- replaces the copy's, one that is absent leaves it, and a client that knows `clear_fields` empties
-- the fields it names.
use minecraft_team_viewer_ba.Battle.Update.{is_empty}
use minecraft_team_viewer_ba.Battle.Patch.{battle_missing_fields, project_value}
use minecraft_team_viewer_ba.Battle.Types.{BattleChunkValue, battle_key_order}
use minecraft_team_viewer_ba.Prelude.{
  Bool, Bool-cases, List, Option, [], ap, arith, false, if◌then◌else◌, inl, inr, is_some, ite, none,
  not, refl, some, sym, true, ◌&&◌, ◌||◌, ◌∙◌, ◌∷◌, ◌≡◌,
}
use minecraft_team_viewer_ba.Prelude.Text.{
  Text, Text-discrete, codes, missing_names, nat_key, text_key,
}

unfoldable pub names : Text → List Text → Bool
unfolding Text-discrete
names name [] = false
names name (field ∷ fields) = ite (Text-discrete field name) true false || names name fields

unfoldable pub merge_field {ℓ} : {A : Type ℓ} → Bool → Option A → Option A → Option A
merge_field cleared old none = if cleared then none else old
merge_field cleared old (some value) = some value

unfoldable pub merge_value : List Text → BattleChunkValue → BattleChunkValue → BattleChunkValue
unfolding merge_field names
merge_value cleared old new = record {
  symbol = merge_field (names (codes "symbol") cleared) old.symbol new.symbol;
  marker_type = merge_field (names (codes "markerType") cleared) old.marker_type new.marker_type;
  color_raw = new.color_raw;
  color_note = merge_field (names (codes "colorNote") cleared) old.color_note new.color_note;
  observed_at = merge_field false old.observed_at new.observed_at;
  position_sampled_at = merge_field false old.position_sampled_at new.position_sampled_at;
  alignment_source = merge_field false old.alignment_source new.alignment_source;
  reporter_id = merge_field false old.reporter_id new.reporter_id;
  room_code = merge_field (names (codes "roomCode") cleared) old.room_code new.room_code;
  color_mode = merge_field (names (codes "colorMode") cleared) old.color_mode new.color_mode;
  color_semantic_key =
      merge_field (names (codes "colorSemanticKey") cleared) old.color_semantic_key
        new.color_semantic_key;
  mode = merge_field (names (codes "mode") cleared) old.mode new.mode;
}

unfoldable pub merge_onto :
    List Text → Option BattleChunkValue → BattleChunkValue → BattleChunkValue
unfolding merge_value
merge_onto cleared none new = new
merge_onto cleared (some old) new = merge_value cleared old new

-- What a client is shown of a value that is there or not.
abbrev pub project_option : Bool → Option BattleChunkValue → Option BattleChunkValue
project_option include_mode none = none
project_option include_mode (some value) = some (project_value include_mode value)

-- Whether one of the flagged entries has the name.
unfoldable flagged : Text → List (Text × Bool) → Bool
unfolding Text-discrete
flagged name [] = false
flagged name ((field, missing) ∷ rest) =
    (ite (Text-discrete field name) true false && missing) || flagged name rest

names-missing_names :
    (name : Text) (fields : List (Text × Bool))
    → names name (missing_names fields) ≡ flagged name fields
unfolding names missing_names flagged
names-missing_names name [] = refl
names-missing_names name ((field, missing) ∷ rest) = elim (Bool-cases missing) [
  | inl e ↦ rw e (ground (arith, names-missing_names name rest))
  | inr e ↦ rw e (ground (arith, names-missing_names name rest))
]

-- A field that is not sent is named, or is not in the copy either.
merge_field-none {ℓ} :
    {A : Type ℓ} (cleared : Bool) (old new : Option A)
    → cleared ≡ not (is_some new)
    → merge_field cleared old new ≡ new
unfolding merge_field
merge_field-none cleared old none h = rw h refl
merge_field-none cleared old (some value) h = refl

module _ (v : BattleChunkValue) (include_mode : Bool) where
  abbrev cleared : List Text
  cleared = battle_missing_fields (project_value include_mode v) include_mode

  -- The tests of `battle_missing_fields`.
  abbrev tested : List (Text × Bool)
  tested =
      (codes "symbol", not (is_some v.symbol))
      ∷ (codes "markerType", not (is_some v.marker_type))
      ∷ (codes "colorNote", not (is_some v.color_note))
      ∷ (codes "roomCode", not (is_some v.room_code))
      ∷ (codes "colorMode", not (is_some v.color_mode))
      ∷ (codes "colorSemanticKey", not (is_some v.color_semantic_key))
      ∷ (codes "mode", include_mode && not (is_some (if include_mode then v.mode else none)))
      ∷ []

  names-flagged : (name : Text) → names name cleared ≡ flagged name tested
  unfolding battle_missing_fields project_value
  names-flagged name = names-missing_names name tested

  names_symbol : names (codes "symbol") cleared ≡ not (is_some v.symbol)
  unfolding flagged Text-discrete
  names_symbol = names-flagged (codes "symbol") ∙ ground arith

  names_marker_type : names (codes "markerType") cleared ≡ not (is_some v.marker_type)
  unfolding flagged Text-discrete
  names_marker_type = names-flagged (codes "markerType") ∙ ground arith

  names_color_note : names (codes "colorNote") cleared ≡ not (is_some v.color_note)
  unfolding flagged Text-discrete
  names_color_note = names-flagged (codes "colorNote") ∙ ground arith

  names_room_code : names (codes "roomCode") cleared ≡ not (is_some v.room_code)
  unfolding flagged Text-discrete
  names_room_code = names-flagged (codes "roomCode") ∙ ground arith

  names_color_mode : names (codes "colorMode") cleared ≡ not (is_some v.color_mode)
  unfolding flagged Text-discrete
  names_color_mode = names-flagged (codes "colorMode") ∙ ground arith

  names_color_semantic_key :
      names (codes "colorSemanticKey") cleared ≡ not (is_some v.color_semantic_key)
  unfolding flagged Text-discrete
  names_color_semantic_key = names-flagged (codes "colorSemanticKey") ∙ ground arith

  names_mode :
      names (codes "mode") cleared
      ≡ (include_mode && not (is_some (if include_mode then v.mode else none)))
  unfolding flagged Text-discrete
  names_mode = names-flagged (codes "mode") ∙ ground arith

  mode_merged :
      (w : BattleChunkValue)
      → merge_field
          (names (codes "mode") cleared)
          (if include_mode then w.mode else none)
          (if include_mode then v.mode else none)
        ≡ (if include_mode then v.mode else none)
  unfolding merge_field
  mode_merged w = ground (arith, names_mode)

  -- Merging a projected value with the missing fields named gives exactly that value.
  pub merge_onto-cleared :
      (raw : Option BattleChunkValue)
      → merge_onto cleared (project_option include_mode raw) (project_value include_mode v)
        ≡ project_value include_mode v
  unfolding merge_onto merge_value project_value merge_field
  merge_onto-cleared none = refl
  merge_onto-cleared (some w) = rw (
    merge_field-none _ w.symbol v.symbol names_symbol,
    merge_field-none _ w.marker_type v.marker_type names_marker_type,
    merge_field-none _ w.color_note v.color_note names_color_note,
    merge_field-none _ w.room_code v.room_code names_room_code,
    merge_field-none _ w.color_mode v.color_mode names_color_mode,
    merge_field-none _ w.color_semantic_key v.color_semantic_key names_color_semantic_key,
    mode_merged w,
  )

  -- So it does without any names, where no field is missing.
  pub merge_onto_complete :
      (raw : Option BattleChunkValue)
      → is_empty cleared ≡ true
      → merge_onto [] (project_option include_mode raw) (project_value include_mode v)
        ≡ project_value include_mode v
  unfolding is_empty
  merge_onto_complete raw h =
      ap
        (λ fields.
          merge_onto fields (project_option include_mode raw) (project_value include_mode v))
        (sym (nothing cleared h))
      ∙ merge_onto-cleared raw
    where
      nothing : (fields : List Text) → is_empty fields ≡ true → fields ≡ []
      nothing [] e = refl
      nothing (x ∷ xs) e = absurd (cc e)
