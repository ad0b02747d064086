-- ===== src/Relay/Candidates.antt =====
-- `collect_candidates` of src/relay.rs: what the sources of a room report of each object.
use minecraft_team_viewer_ba.Snapshot.Diff.{same_text}
use minecraft_team_viewer_ba.Sources.Candidates.{Candidate, Timed}
use minecraft_team_viewer_ba.Prelude.Map.{Map, insert, lookup}
use minecraft_team_viewer_ba.Relay.Types.{SourceState}
use minecraft_team_viewer_ba.Prelude.{
  Bool, List, Option, [], contains, false, if◌then◌else◌, none, some, true, unwrap_or, ◌&&◌, ◌++◌,
  ◌==◌, ◌||◌, ◌∷◌,
}
use minecraft_team_viewer_ba.Prelude.Text.{Text, Text-discrete, codes, nat_key, text_key}

unfoldable pub starts_with : Text → Text → Bool
starts_with [] text = true
starts_with (c ∷ cs) [] = false
starts_with (c ∷ cs) (d ∷ ds) = c == d && starts_with cs ds

abbrev pub is_internal : Text → Bool
is_internal source_id =
    starts_with (codes "__web_map_tactical__:") source_id
    || starts_with (codes "__battle_chunk_cache__:") source_id

-- `allowed_sources.is_none_or(..)`
unfoldable pub is_allowed : Option (List Text) → Bool → Text → Bool
unfolding contains starts_with
is_allowed none allow_tactical source_id = true
is_allowed (some allowed) allow_tactical source_id =
    contains Text-discrete source_id allowed || (allow_tactical && is_internal source_id)

module _ {T : Type 0} where
  -- `candidates.entry(object_id).or_default().push((source_id, value))`
  unfoldable pub push_candidates :
      Text → Map Text (Timed T) → Map Text (List (Candidate T)) → Map Text (List (Candidate T))
  push_candidates source_id [] candidates = candidates
  push_candidates source_id ((object_id, value) ∷ objects) candidates =
      push_candidates source_id objects (
        insert object_id (unwrap_or (lookup object_id candidates) [] ++ (source_id, value) ∷ [])
          candidates)

  -- The loop over the sources, from the candidates so far.
  unfoldable pub collect_from :
      Text
      → Option (List Text)
      → Bool
      → (SourceState → Map Text (Timed T))
      → Map Text SourceState
      → Map Text (List (Candidate T))
      → Map Text (List (Candidate T))
  unfolding is_allowed push_candidates
  collect_from room allowed allow_tactical scope [] candidates = candidates
  collect_from room allowed allow_tactical scope ((source_id, source) ∷ sources) candidates =
      collect_from room allowed allow_tactical scope sources (
        if same_text source.room room && is_allowed allowed allow_tactical source_id
        then push_candidates source_id (scope source) candidates
        else candidates)

  unfoldable pub collect_candidates :
      Map Text SourceState
      → Text
      → Option (List Text)
      → Bool
      → (SourceState → Map Text (Timed T))
      → Map Text (List (Candidate T))
  unfolding collect_from
  collect_candidates sources room allowed allow_tactical scope =
      collect_from room allowed allow_tactical scope sources []
