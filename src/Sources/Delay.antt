-- ===== src/Sources/Delay.antt =====
-- When `resolve_player_candidates` of src/relay.rs shows a game client, and that it always shows someone.
use minecraft_team_viewer_ba.Sources.Best.{max_by-IsBest, max_by_total, outranks-IsRanking}
use minecraft_team_viewer_ba.Prelude.Map.{Map, lookup}
use minecraft_team_viewer_ba.Sources.Takeover.{
  find_selected-Member, keep_sources-Member, or_else-Member, or_else_total, update_seen-lookup,
}
use minecraft_team_viewer_ba.Sources.Candidates.{Candidate, max_by, newer, outranks}
use minecraft_team_viewer_ba.Sources.Players.{
  better_game, choose_player, find_selected, game_sources, game_takeover_delay, has_taken_over,
  keep_sources, or_else, pick, seen_after, update_seen,
}
use mathlib.Core.Path.{ap₂}
use minecraft_team_viewer_ba.Prelude.{
  Bool, Bool-cases, List, Member, Option, Option-cases, [], ap, arith, false, inl, inr, none, not,
  refl, some, sym, true, unwrap_or, ℕ, ◌+◌, ◌∙◌, ◌∷◌, ◌≡◌, ◌≤◌, ◌⊎◌,
}
use minecraft_team_viewer_ba.Prelude.Int.{ltb_ℤ, ℤ}
use minecraft_team_viewer_ba.Prelude.Text.{Text, nat_key, text_key}

-- A source that has taken over was already in the map, since the delay ago or longer.
has_taken_over-before :
    (now : ℕ) (active : List Text) (old : Map Text ℕ) (s : Text)
    → has_taken_over now (update_seen active now old) s ≡ true
    → (first : ℕ) × (lookup s old ≡ some first) × (first + game_takeover_delay ≤ now)
unfolding has_taken_over
has_taken_over-before now active old s h = elim (Option-cases (lookup s old)) [
  | inl unseen ↦ absurd (ground (arith, update_seen-lookup active now old s))
  | inr (first, seen) ↦ (first, seen, ground (arith, update_seen-lookup active now old s))
]

module _ {T : Type 0} (priority : Text → ℤ) (is_external : Text → Bool) (now : ℕ)
    (selected : Option Text) where
  abbrev pub external_of : List (Candidate T) → List (Candidate T)
  external_of bucket = keep_sources is_external bucket

  abbrev pub game_of : List (Candidate T) → List (Candidate T)
  game_of bucket = keep_sources (λ s. not (is_external s)) bucket

  -- The game candidate that the object shows so far.
  abbrev pub current_game : List (Candidate T) → Option (Candidate T)
  current_game bucket = find_selected (λ s. not (is_external s)) selected (game_of bucket)

  abbrev best_external : List (Candidate T) → Option (Candidate T)
  best_external bucket =
      or_else (find_selected is_external selected (external_of bucket))
        (max_by newer (external_of bucket))

  best_external-is_external :
      (bucket : List (Candidate T)) (e : Candidate T)
      → best_external bucket ≡ some e
      → is_external e.0 ≡ true
  best_external-is_external bucket e found =
      ((keep_sources-Member is_external e bucket).0 (
        or_else-Member (find_selected is_external selected (external_of bucket))
          (external_of bucket) e (find_selected-Member is_external selected (external_of bucket))
          found)).1

  -- With no current game candidate, the choice between the best external and the best game candidate.
  pick_game :
      (seen : Map Text ℕ) (e : Candidate T) (best : Option (Candidate T)) (c : Candidate T)
      → is_external e.0 ≡ true
      → is_external c.0 ≡ false
      → pick priority now seen (some e) best none ≡ some c
      → has_taken_over now seen c.0 ≡ true
  unfolding pick
  pick_game seen e none c ext game h = absurd (mixed (ground arith))
    where
      mixed : e ≡ c → ⊥
      mixed same = let g = ap (λ x. is_external x.0) same in cc
  pick_game seen e (some b) c ext game h = elim (Bool-cases (has_taken_over now seen b.0)) [
    | inl over ↦ let same : b ≡ c = ground arith in rw (← same) over
    | inr early ↦ absurd (mixed (ground arith))
  ]
    where
      mixed : e ≡ c → ⊥
      mixed same = let g = ap (λ x. is_external x.0) same in cc

  -- While an external source reports the player and no game client is shown for it, a game client is
  -- shown only if it was among the sources seen before, first at least 500 ms ago.
  pub game_takeover_delayed :
      (old : Option (Map Text ℕ)) (bucket : List (Candidate T)) (e c : Candidate T)
      → Member e bucket
      → is_external e.0 ≡ true
      → current_game bucket ≡ none
      → is_external c.0 ≡ false
      → choose_player priority is_external now selected
          (seen_after is_external now old bucket)
          bucket
        ≡ some c
      → (first : ℕ) × (lookup c.0 (unwrap_or old []) ≡ some first)
        × (first + game_takeover_delay ≤ now)
  unfolding choose_player seen_after
  game_takeover_delayed old bucket e c m ext idle game h =
      let seen = update_seen (game_sources is_external bucket) now (unwrap_or old []) in
      let (best, found) =
        or_else_total (find_selected is_external selected (external_of bucket)) (external_of bucket)
          e ((keep_sources-Member is_external e bucket).1 (m, ext)) in
      has_taken_over-before now (game_sources is_external bucket) (unwrap_or old []) c.0 (
        pick_game seen best (max_by (outranks priority) (game_of bucket)) c
          (best_external-is_external bucket best found) game
          (ap₂ (λ x y. pick priority now seen x (max_by (outranks priority) (game_of bucket)) y)
              (sym found) (sym idle)
            ∙ h))

  best_of :
      (bucket : List (Candidate T)) (c : Candidate T)
      → Member c bucket
      → (best : Candidate T) × (max_by (outranks priority) bucket ≡ some best)
  best_of [] c m = absurd m
  best_of (d ∷ ds) c m = max_by_total (outranks priority) d ds

  pick_current :
      (seen : Map Text ℕ) (external : Option (Candidate T)) (best g : Candidate T)
      → pick priority now seen external (some best) (some g) ≡ some (better_game priority best g)
  unfolding pick
  pick_current seen none best g = refl
  pick_current seen (some e) best g = refl

  pick_total :
      (seen : Map Text ℕ) (P : Candidate T → Type 0) (external best current : Option (Candidate T))
      → ((c : Candidate T) → external ≡ some c → P c)
      → ((c : Candidate T) → best ≡ some c → P c)
      → ((c : Candidate T) → current ≡ some c → P c)
      → ((e : Candidate T) × (external ≡ some e)) ⊎ ((b : Candidate T) × (best ≡ some b))
      → (c : Candidate T) × (pick priority now seen external best current ≡ some c) × P c
  unfolding pick better_game
  pick_total seen P (some e) (some b) (some g) pe pb pg h =
      elim (Bool-cases (ltb_ℤ (priority g.0) (priority b.0))) [
        | inl better ↦ (b, rw better, pb b refl)
        | inr worse ↦ (g, rw worse, pg g refl)
      ]
  pick_total seen P (some e) (some b) none pe pb pg h =
      elim (Bool-cases (has_taken_over now seen b.0)) [
        | inl over ↦ (b, rw over, pb b refl)
        | inr early ↦ (e, rw early, pe e refl)
      ]
  pick_total seen P (some e) none current pe pb pg h = (e, refl, pe e refl)
  pick_total seen P none (some b) (some g) pe pb pg h =
      elim (Bool-cases (ltb_ℤ (priority g.0) (priority b.0))) [
        | inl better ↦ (b, rw better, pb b refl)
        | inr worse ↦ (g, rw worse, pg g refl)
      ]
  pick_total seen P none (some b) none pe pb pg h = (b, refl, pb b refl)
  pick_total seen P none none current pe pb pg h = ground arith

  -- A game client that is shown stays, unless another game client has a higher priority.
  pub game_stays :
      (seen : Map Text ℕ) (bucket : List (Candidate T)) (g c : Candidate T)
      → current_game bucket ≡ some g
      → choose_player priority is_external now selected seen bucket ≡ some c
      → (c ≡ g) ⊎ ((is_external c.0 ≡ false) × (ltb_ℤ (priority g.0) (priority c.0) ≡ true))
  unfolding choose_player
  game_stays seen bucket g c current h =
      let game = game_of bucket in
      let (best, found) =
        best_of game g (find_selected-Member (λ s. not (is_external s)) selected game g current) in
      let e = ap₂ (pick priority now seen (best_external bucket)) (sym found) (sym current) in
      by_priority best found
        (some_inj (sym (pick_current seen (best_external bucket) best g) ∙ e ∙ h))
    where
      some_inj : {a b : Candidate T} → some a ≡ some b → a ≡ b
      some_inj h = cc

      game_is : (b : Candidate T) → Member b (game_of bucket) → is_external b.0 ≡ false
      game_is b h =
          let e = ((keep_sources-Member (λ s. not (is_external s)) b bucket).0 h).1 in ground arith

      by_priority :
          (best : Candidate T)
          → max_by (outranks priority) (game_of bucket) ≡ some best
          → better_game priority best g ≡ c
          → (c ≡ g) ⊎ ((is_external c.0 ≡ false) × (ltb_ℤ (priority g.0) (priority c.0) ≡ true))
      by_priority best found same = elim (Bool-cases (ltb_ℤ (priority g.0) (priority best.0))) [
        | inl better ↦
            let chosen : best ≡ c = unfold better_game in ground arith in
            inr (
              rw (← chosen) (
                  game_is best
                    (max_by-IsBest (outranks-IsRanking priority) (game_of bucket) best
                      found).member),
              rw (← chosen) better,
            )
        | inr worse ↦ inl (unfold better_game in ground arith)
      ]

  -- A player with any candidate is shown, at once.
  pub choose_player_total :
      (seen : Map Text ℕ) (bucket : List (Candidate T)) (d : Candidate T)
      → Member d bucket
      → (c : Candidate T) × (choose_player priority is_external now selected seen bucket ≡ some c)
        × Member c bucket
  unfolding choose_player
  choose_player_total seen bucket d m =
      pick_total seen (λ c. Member c bucket) (best_external bucket)
        (max_by (outranks priority) (game_of bucket)) (current_game bucket)
        (λ c found. of_external c (
          or_else-Member _ (external_of bucket) c
            (find_selected-Member is_external selected (external_of bucket)) found))
        (λ c found.
          of_game c (max_by-IsBest (outranks-IsRanking priority) (game_of bucket) c found).member)
        (λ c found.
          of_game c
            (find_selected-Member (λ s. not (is_external s)) selected (game_of bucket) c found))
        (someone (Bool-cases (is_external d.0)))
    where
      of_external : (c : Candidate T) → Member c (external_of bucket) → Member c bucket
      of_external c h = ((keep_sources-Member is_external c bucket).0 h).0

      of_game : (c : Candidate T) → Member c (game_of bucket) → Member c bucket
      of_game c h = ((keep_sources-Member (λ s. not (is_external s)) c bucket).0 h).0

      someone :
          (is_external d.0 ≡ true) ⊎ (is_external d.0 ≡ false)
          → ((e : Candidate T) × (best_external bucket ≡ some e))
            ⊎ ((b : Candidate T) × (max_by (outranks priority) (game_of bucket) ≡ some b))
      someone (inl ext) = inl (
          or_else_total _ (external_of bucket) d
            ((keep_sources-Member is_external d bucket).1 (m, ext)))
      someone (inr game) = inr (
          best_of (game_of bucket) d
            ((keep_sources-Member (λ s. not (is_external s)) d bucket).1 (m, rw game)))
