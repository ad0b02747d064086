-- ===== src/Sources/Candidates.antt =====
-- `resolve_candidates` of src/relay.rs: which source's report of an object is shown.
use minecraft_team_viewer_ba.Prelude.Map.{Map, insert, lookup}
use minecraft_team_viewer_ba.Prelude.Int.{ltb_ℤ, ℤ}
use minecraft_team_viewer_ba.Prelude.{
  Bool, List, Option, [], false, if◌then◌else◌, ite, leb, ltb, none, not, some, true, ℕ, ◌&&◌, ◌-◌,
  ◌∷◌,
}
use minecraft_team_viewer_ba.Prelude.Text.{Text, Text-discrete, nat_key, text_key, text_ltb}

-- `content` is the field `data` of the source.
pub record Timed (T : Type 0) : Type 0 where
  pub content : T
  pub received_at : ℕ

-- A source identifier and what that source reported.
abbrev pub Candidate : Type 0 → Type 0
Candidate T = Text × Timed T

-- 350 ms, in nanoseconds.
abbrev pub switch_threshold : ℕ
switch_threshold = 350_000_000

module _ {T : Type 0} where
  -- The rest of both comparisons: the later report, then the smaller identifier.
  unfoldable pub newer : Candidate T → Candidate T → Bool
  newer left right =
      if ltb (right.1).received_at (left.1).received_at
      then true
      else if ltb (left.1).received_at (right.1).received_at
      then false
      else text_ltb left.0 right.0

  -- The comparison of `max_by` says `Greater`.
  unfoldable pub outranks : (Text → ℤ) → Candidate T → Candidate T → Bool
  unfolding newer
  outranks priority left right =
      if ltb_ℤ (priority right.0) (priority left.0)
      then true
      else if ltb_ℤ (priority left.0) (priority right.0)
      then false
      else newer left right

  -- The loop of `Iterator::max_by`: the later of two equal items stays.
  unfoldable pub max_from :
      (Candidate T → Candidate T → Bool) → Candidate T → List (Candidate T) → Candidate T
  max_from greater best [] = best
  max_from greater best (c ∷ cs) = max_from greater (if greater best c then best else c) cs

  unfoldable pub max_by :
      (Candidate T → Candidate T → Bool) → List (Candidate T) → Option (Candidate T)
  max_by greater [] = none
  max_by greater (c ∷ cs) = some (max_from greater c cs)

  -- `find(|(source_id, _)| *source_id == source)`
  unfoldable pub find_source : Text → List (Candidate T) → Option (Candidate T)
  find_source source [] = none
  find_source source (c ∷ cs) = ite (Text-discrete c.0 source) (some c) (find_source source cs)

  unfoldable pub same_priority : (Text → ℤ) → Candidate T → Candidate T → Bool
  same_priority priority a b =
      not (ltb_ℤ (priority a.0) (priority b.0)) && not (ltb_ℤ (priority b.0) (priority a.0))

  -- The second `if let`: the previous source stays while it is no worse and hardly older.
  unfoldable pub stick : (Text → ℤ) → Option (Candidate T) → Candidate T → Candidate T
  unfolding same_priority
  stick priority none chosen = chosen
  stick priority (some previous) chosen =
      if same_priority priority previous chosen
        && leb ((chosen.1).received_at - (previous.1).received_at) switch_threshold
      then previous
      else chosen

  -- The previous choice, where it is still among the candidates.
  unfoldable pub still_there : Option Text → List (Candidate T) → Option (Candidate T)
  still_there none bucket = none
  still_there (some source) bucket = find_source source bucket

  -- The body of the loop for one object; `none` is the `continue`.
  unfoldable pub choose : (Text → ℤ) → Option Text → List (Candidate T) → Option (Candidate T)
  choose priority previous bucket = elim (max_by (outranks priority) bucket) [
    | none ↦ none
    | some best ↦ some (stick priority (still_there previous bucket) best)
  ]

  -- `resolved` and `next_selected` after the loop over the objects.
  unfoldable pub resolve_candidates :
      (Text → Text → ℤ)
      → Map Text Text
      → List (Text × List (Candidate T))
      → Map Text (Text × T) × Map Text Text
  resolve_candidates priority selected [] = ([], [])
  resolve_candidates priority selected ((object, bucket) ∷ rest) =
      let (resolved, next_selected) = resolve_candidates priority selected rest in
      elim (choose (priority object) (lookup object selected) bucket) [
        | none ↦ (resolved, next_selected)
        | some c ↦ (insert object (c.0, (c.1).content) resolved, insert object c.0 next_selected)
      ]
