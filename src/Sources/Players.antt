-- ===== src/Sources/Players.antt =====
-- `resolve_player_candidates` of src/relay.rs: an external source gives the baseline of a player, and a
-- game client takes over once it has reported for half a second.
use minecraft_team_viewer_ba.Prelude.Int.{ltb_ℤ, ℤ}
use minecraft_team_viewer_ba.Prelude.Map.{Map, contains_key, insert, lookup}
use minecraft_team_viewer_ba.Sources.Candidates.{Candidate, find_source, max_by, newer, outranks}
use minecraft_team_viewer_ba.Prelude.{
  Bool, List, Option, [], false, if◌then◌else◌, ite, leb, map, none, not, some, true, unwrap_or, ℕ,
  ◌-◌, ◌∷◌,
}
use minecraft_team_viewer_ba.Prelude.Text.{Text, Text-discrete, nat_key, text_key}

-- 500 ms, in nanoseconds.
abbrev pub game_takeover_delay : ℕ
game_takeover_delay = 500_000_000

pub record PlayerSourceSelections : Type 0 where
  pub selected_sources : Map Text Text
  pub game_seen_since : Map Text (Map Text ℕ)

-- `seen_since.retain(|source_id, _| active.contains(source_id))`
unfoldable pub is_among : Text → List Text → Bool
is_among s [] = false
is_among s (t ∷ ts) = ite (Text-discrete t s) true (is_among s ts)

unfoldable pub retain_active : List Text → Map Text ℕ → Map Text ℕ
retain_active active [] = []
retain_active active ((source, since) ∷ rest) =
    if is_among source active
    then (source, since) ∷ retain_active active rest
    else retain_active active rest

-- `for source_id in &active { seen_since.entry(..).or_insert(now) }`
unfoldable pub or_insert_all : List Text → ℕ → Map Text ℕ → Map Text ℕ
or_insert_all [] now seen = seen
or_insert_all (source ∷ rest) now seen =
    or_insert_all rest now (if contains_key source seen then seen else insert source now seen)

unfoldable pub update_seen : List Text → ℕ → Map Text ℕ → Map Text ℕ
update_seen active now seen = or_insert_all active now (retain_active active seen)

-- `now` is at least the takeover delay past the first report of the source.
unfoldable pub has_taken_over : ℕ → Map Text ℕ → Text → Bool
has_taken_over now seen source = elim (lookup source seen) [
  | none ↦ false
  | some first_seen ↦ leb game_takeover_delay (now - first_seen)
]

module _ {T : Type 0} where
  -- The candidates whose source passes the test, in order.
  unfoldable pub keep_sources : (Text → Bool) → List (Candidate T) → List (Candidate T)
  keep_sources test [] = []
  keep_sources test (c ∷ cs) = if test c.0 then c ∷ keep_sources test cs else keep_sources test cs

  -- `selected_source.filter(test)` and then `find` among the candidates.
  unfoldable pub find_selected :
      (Text → Bool) → Option Text → List (Candidate T) → Option (Candidate T)
  find_selected test none bucket = none
  find_selected test (some source) bucket = if test source then find_source source bucket else none

  unfoldable pub or_else : Option (Candidate T) → Option (Candidate T) → Option (Candidate T)
  or_else none other = other
  or_else (some c) other = some c

  -- A game client with a higher priority replaces the current one at once.
  unfoldable pub better_game : (Text → ℤ) → Candidate T → Candidate T → Candidate T
  better_game priority best current =
      if ltb_ℤ (priority current.0) (priority best.0) then best else current

  -- The `match (best_external, best_game, current_game)`.
  unfoldable pub pick :
      (Text → ℤ)
      → ℕ
      → Map Text ℕ
      → Option (Candidate T)
      → Option (Candidate T)
      → Option (Candidate T)
      → Option (Candidate T)
  pick priority now seen (some external) (some best) (some current) =
      some (better_game priority best current)
  pick priority now seen (some external) (some best) none =
      some (if has_taken_over now seen best.0 then best else external)
  pick priority now seen (some external) none current = some external
  pick priority now seen none (some best) (some current) = some (better_game priority best current)
  pick priority now seen none (some best) none = some best
  pick priority now seen none none current = none

  -- The body of the loop for one object, with its map `seen_since`.
  unfoldable pub choose_player :
      (Text → ℤ)
      → (Text → Bool)
      → ℕ
      → Option Text
      → Map Text ℕ
      → List (Candidate T)
      → Option (Candidate T)
  choose_player priority is_external now selected seen bucket =
      let external = keep_sources is_external bucket in
      let game = keep_sources (λ s. not (is_external s)) bucket in
      pick priority now seen
        (or_else (find_selected is_external selected external) (max_by newer external))
        (max_by (outranks priority) game) (find_selected (λ s. not (is_external s)) selected game)

  unfoldable pub game_sources : (Text → Bool) → List (Candidate T) → List Text
  game_sources is_external bucket = map (λ c. c.0) (keep_sources (λ s. not (is_external s)) bucket)

  -- `seen_since` of an object once the active game sources are entered.
  unfoldable pub seen_after :
      (Text → Bool) → ℕ → Option (Map Text ℕ) → List (Candidate T) → Map Text ℕ
  seen_after is_external now seen bucket =
      update_seen (game_sources is_external bucket) now (unwrap_or seen [])

  -- The loop, with `resolved`, `next_selected` and the maps `game_seen_since` it leaves.
  unfoldable pub resolve_players :
      (Text → Text → ℤ)
      → (Text → Bool)
      → ℕ
      → Map Text Text
      → List (Text × List (Candidate T))
      → Map Text (Text × T) × Map Text Text × Map Text (Map Text ℕ)
      → Map Text (Text × T) × Map Text Text × Map Text (Map Text ℕ)
  resolve_players priority is_external now selected [] state = state
  resolve_players priority is_external now selected ((object, bucket) ∷ rest)
        (resolved, next, seen) =
      let seen_since = seen_after is_external now (lookup object seen) bucket in
      let seen' = insert object seen_since seen in
      resolve_players priority is_external now selected rest
        (elim (choose_player (priority object) is_external now (lookup object selected) seen_since
          bucket) [
            | none ↦ (resolved, next, seen')
            | some c ↦ (insert object (c.0, (c.1).content) resolved, insert object c.0 next, seen')
          ])

-- `game_seen_since.retain(..)`: an object that is not selected, or has no game source, is forgotten.
unfoldable pub retain_selected : Map Text Text → Map Text (Map Text ℕ) → Map Text (Map Text ℕ)
retain_selected selected [] = []
retain_selected selected ((object, []) ∷ rest) = retain_selected selected rest
retain_selected selected ((object, s ∷ ss) ∷ rest) =
    if contains_key object selected
    then (object, s ∷ ss) ∷ retain_selected selected rest
    else retain_selected selected rest

unfoldable pub resolve_player_candidates :
    {T : Type 0}
    → (Text → Text → ℤ)
    → (Text → Bool)
    → ℕ
    → PlayerSourceSelections
    → List (Text × List (Candidate T))
    → Map Text (Text × T) × PlayerSourceSelections
resolve_player_candidates priority is_external now selections candidates =
    let (resolved, next, seen) =
      resolve_players priority is_external now selections.selected_sources candidates
        ([], [], selections.game_seen_since) in
    (resolved, record { selected_sources = next; game_seen_since = retain_selected next seen })
