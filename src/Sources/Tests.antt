-- ===== src/Sources/Tests.antt =====
-- Runs of the source arbitration of src/relay.rs, and its theorems at them.
use minecraft_team_viewer_ba.Sources.Takeover.{update_seen-lookup}
use minecraft_team_viewer_ba.Prelude.Map.{insert, lookup}
use minecraft_team_viewer_ba.Sources.Candidates.{
  Candidate, choose, find_source, max_by, max_from, newer, outranks, resolve_candidates,
  same_priority, stick, still_there,
}
use minecraft_team_viewer_ba.Sources.Choice.{
  IsGoodChoice, choice_at, choose-IsGoodChoice, choose-sticks, resolve_candidates-lookup, shown_of,
  source_of,
}
use minecraft_team_viewer_ba.Sources.Delay.{choose_player_total, game_stays, game_takeover_delayed}
use minecraft_team_viewer_ba.Sources.Order.{IsReordering, choose-IsReordering}
use minecraft_team_viewer_ba.Sources.Players.{
  better_game, choose_player, find_selected, game_sources, game_takeover_delay, has_taken_over,
  is_among, keep_sources, or_else, or_insert_all, pick, retain_active, seen_after, update_seen,
}
use minecraft_team_viewer_ba.Prelude.{
  Bool, List, Member, [], arith, false, if◌then◌else◌, inl, none, refl, some, true, unwrap_or, ℕ,
  ℕ_discrete, ◌+◌, ◌∷◌, ◌≡◌, ◌≤◌, ◌⊎◌,
}
use minecraft_team_viewer_ba.Prelude.Int.{ltb_ℤ, pos, ℤ}
use minecraft_team_viewer_ba.Prelude.Text.{Text, Text-discrete, codes, nat_key, text_key, text_ltb}

program : Unit {0}
unfolding max_by max_from outranks newer text_ltb find_source Text-discrete ℕ_discrete same_priority
    stick still_there choose choose_player pick or_else keep_sources find_selected has_taken_over
    better_game update_seen or_insert_all retain_active is_among seen_after game_sources lookup
    insert
program = tt

abbrev flat : Text → ℤ
flat source = pos 0

abbrev report : Text → ℕ → Candidate ℕ
report source time = (source, record { content = time; received_at = time })

abbrev alice : Text
alice = codes "alice"

abbrev bob : Text
bob = codes "bob"

abbrev feed : Text
feed = codes "feed"

abbrev bucket : List (Candidate ℕ)
bucket = report alice 100 ∷ report bob 200 ∷ []

choose_newest : choose flat none bucket ≡ some (report bob 200)
unfolding program
choose_newest = refl

choose-IsGoodChoice_example : IsGoodChoice flat bucket (report bob 200)
unfolding program
choose-IsGoodChoice_example = choose-IsGoodChoice flat none bucket (report bob 200) refl

alice-IsGoodChoice : IsGoodChoice flat bucket (report alice 100)
unfolding program
alice-IsGoodChoice = choose-IsGoodChoice flat (some alice) bucket (report alice 100) refl

choose-sticks_example : choose flat (some alice) bucket ≡ some (report alice 100)
unfolding program
choose-sticks_example = choose-sticks flat alice bucket (report alice 100) refl alice-IsGoodChoice

resolve_candidates-lookup_example :
    (lookup bob (resolve_candidates (λ _ s. flat s) [] ((bob, bucket) ∷ [])).0
      ≡ shown_of (choice_at (λ _ s. flat s) [] bob (lookup bob ((bob, bucket) ∷ []))))
    × (lookup bob (resolve_candidates (λ _ s. flat s) [] ((bob, bucket) ∷ [])).1
        ≡ source_of (choice_at (λ _ s. flat s) [] bob (lookup bob ((bob, bucket) ∷ []))))
unfolding lookup
resolve_candidates-lookup_example =
    resolve_candidates-lookup (λ _ s. flat s) [] ((bob, bucket) ∷ []) bob (refl, tt)

swapped : List (Candidate ℕ)
swapped = report bob 200 ∷ report alice 100 ∷ []

swapped-IsReordering : IsReordering bucket swapped
unfolding swapped
swapped-IsReordering = record {
  to = λ c m. ground arith;
  from = λ c m. ground arith;
  unique = λ c d m n e. ground arith;
}

choose-IsReordering_example : choose flat (some alice) bucket ≡ choose flat (some alice) swapped
choose-IsReordering_example = choose-IsReordering flat swapped-IsReordering (some alice)

update_seen-lookup_example : lookup bob (update_seen (bob ∷ []) 900 ((bob, 300) ∷ [])) ≡ (
    if is_among bob (bob ∷ []) then some (unwrap_or (lookup bob ((bob, 300) ∷ [])) 900) else none)
update_seen-lookup_example = update_seen-lookup (bob ∷ []) 900 ((bob, 300) ∷ []) bob

abbrev is_feed : Text → Bool
is_feed source = is_among source (feed ∷ [])

abbrev contested : List (Candidate ℕ)
contested = report feed 100 ∷ report bob 200 ∷ []

abbrev later : ℕ
later = 600_000_000

game_takeover_delayed_example :
    (first : ℕ) × (lookup bob ((bob, 300) ∷ []) ≡ some first)
    × (first + game_takeover_delay ≤ later)
unfolding program
game_takeover_delayed_example =
    game_takeover_delayed flat is_feed later (some feed) (some ((bob, 300) ∷ [])) contested
      (report feed 100) (report bob 200) (inl refl) refl refl refl refl

game_stays_example :
    (report bob 200 ≡ report bob 200)
    ⊎ ((is_feed bob ≡ false) × (ltb_ℤ (flat bob) (flat bob) ≡ true))
unfolding program
game_stays_example =
    game_stays flat is_feed later (some bob) [] contested (report bob 200) (report bob 200) refl
      refl

choose_player_total_example :
    (c : Candidate ℕ) × (choose_player flat is_feed 0 none [] contested ≡ some c)
    × Member c contested
choose_player_total_example =
    choose_player_total flat is_feed 0 none [] contested (report feed 100) (inl refl)
