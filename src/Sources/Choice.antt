-- ===== src/Sources/Choice.antt =====
-- Which candidate `resolve_candidates` of src/relay.rs shows.
use mathlib.Core.Logic.{if_neg, if_pos}
use minecraft_team_viewer_ba.Prelude.Map.{Map, insert, lookup, lookup-insert_ne, lookup-insert_self}
use minecraft_team_viewer_ba.Sources.Best.{
  IsBest, find_source-Member, max_by-IsBest, max_by_total, outranks-IsRanking,
}
use minecraft_team_viewer_ba.Sources.Candidates.{
  Candidate, choose, find_source, max_by, newer, outranks, resolve_candidates, same_priority, stick,
  still_there, switch_threshold,
}
use minecraft_team_viewer_ba.Prelude.{
  Bool, Bool-cases, List, Member, Option, Option-cases, [], ap, arith, false, inl, inr, leb, none,
  refl, some, subst, true, ◌&&◌, ◌+◌, ◌-◌, ◌∙◌, ◌∷◌, ◌≡◌, ◌≢◌, ◌≤◌,
}
use minecraft_team_viewer_ba.Prelude.Int.{ltb_ℤ, ℤ}
use minecraft_team_viewer_ba.Prelude.Text.{Text, Text-discrete, nat_key, text_key}

-- The candidate has the highest priority, and within it no report is newer by more than the threshold.
pub record IsGoodChoice {T : Type 0} (priority : Text → ℤ) (bucket : List (Candidate T))
    (chosen : Candidate T) : Type 0 where
  pub member : Member chosen bucket
  pub highest :
      (c : Candidate T) → Member c bucket → ltb_ℤ (priority chosen.0) (priority c.0) ≡ false
  pub fresh :
      (c : Candidate T)
      → Member c bucket
      → same_priority priority c chosen ≡ true
      → (c.1).received_at ≤ (chosen.1).received_at + switch_threshold

module _ {T : Type 0} (priority : Text → ℤ) where
  outranks-false :
      (c best : Candidate T)
      → outranks priority c best ≡ false
      → (ltb_ℤ (priority best.0) (priority c.0) ≡ false)
        × (same_priority priority c best ≡ true → (c.1).received_at ≤ (best.1).received_at)
  unfolding outranks newer same_priority
  outranks-false c best h = (ground arith, λ same. ground arith)

  best-IsGoodChoice :
      (bucket : List (Candidate T)) (best : Candidate T)
      → IsBest (outranks priority) bucket best
      → IsGoodChoice priority bucket best
  best-IsGoodChoice bucket best b = record {
    member = b.member;
    highest = λ c m. (outranks-false c best (b.unbeaten c m)).0;
    fresh = λ c m same. let h = (outranks-false c best (b.unbeaten c m)).1 same in omega arith;
  }

  stick-IsGoodChoice :
      (bucket : List (Candidate T)) (previous : Option (Candidate T)) (best : Candidate T)
      → IsBest (outranks priority) bucket best
      → ((p : Candidate T) → previous ≡ some p → Member p bucket)
      → IsGoodChoice priority bucket (stick priority previous best)
  unfolding stick
  stick-IsGoodChoice bucket none best b held = best-IsGoodChoice bucket best b
  stick-IsGoodChoice bucket (some p) best b held = elim (Bool-cases (may_stick p best)) [
    | inl stays ↦ rw stays (kept stays)
    | inr yields ↦ rw yields (best-IsGoodChoice bucket best b)
  ]
    where
      may_stick : Candidate T → Candidate T → Bool
      may_stick p best =
          same_priority priority p best
          && leb ((best.1).received_at - (p.1).received_at) switch_threshold

      g : IsGoodChoice priority bucket best
      g = best-IsGoodChoice bucket best b

      kept : may_stick p best ≡ true → IsGoodChoice priority bucket p
      kept stays =
          unfold same_priority in
          record {
            member = held p refl;
            highest = λ c m. let h = g.highest c m in ground arith;
            fresh = λ c m same. let h = (outranks-false c best (b.unbeaten c m)).1 in ground arith;
          }

  still_there-Member :
      (previous : Option Text) (bucket : List (Candidate T)) (p : Candidate T)
      → still_there previous bucket ≡ some p
      → Member p bucket
  unfolding still_there
  still_there-Member none bucket p e = cc
  still_there-Member (some source) bucket p e = (find_source-Member source bucket p e).0

  pub choose-eq :
      (previous : Option Text) (bucket : List (Candidate T)) (best : Candidate T)
      → max_by (outranks priority) bucket ≡ some best
      → choose priority previous bucket ≡ some (stick priority (still_there previous bucket) best)
  unfolding choose
  choose-eq previous bucket best found = rw (found, choose)

  pub choose-nil :
      (previous : Option Text) (bucket : List (Candidate T))
      → max_by (outranks priority) bucket ≡ none
      → choose priority previous bucket ≡ none
  unfolding choose
  choose-nil previous bucket empty = rw (empty, choose)

  chosen-IsGoodChoice :
      (previous : Option Text) (bucket : List (Candidate T)) (best : Candidate T)
      → max_by (outranks priority) bucket ≡ some best
      → IsGoodChoice priority bucket (stick priority (still_there previous bucket) best)
  chosen-IsGoodChoice previous bucket best found =
      stick-IsGoodChoice bucket (still_there previous bucket) best
        (max_by-IsBest (outranks-IsRanking priority) bucket best found)
        (still_there-Member previous bucket)

  -- The candidate chosen for an object has the highest priority among the candidates, and no candidate of
  -- that priority is newer by more than 350 ms.
  pub choose-IsGoodChoice :
      (previous : Option Text) (bucket : List (Candidate T)) (chosen : Candidate T)
      → choose priority previous bucket ≡ some chosen
      → IsGoodChoice priority bucket chosen
  choose-IsGoodChoice previous bucket chosen e =
      elim (Option-cases (max_by (outranks priority) bucket)) [
        | inl empty ↦ absurd (cc (choose-nil previous bucket empty))
        | inr (best, found) ↦
            subst (IsGoodChoice priority bucket) (cc (choose-eq previous bucket best found))
              (chosen-IsGoodChoice previous bucket best found)
      ]

  sticks :
      (bucket : List (Candidate T)) (p best : Candidate T)
      → IsBest (outranks priority) bucket best
      → IsGoodChoice priority bucket p
      → stick priority (some p) best ≡ p
  unfolding stick same_priority
  sticks bucket p best b g =
      let h = best-IsGoodChoice bucket best b in
      ground (arith, g.highest best b.member, h.highest p g.member, g.fresh best b.member)

  nonempty_best :
      (bucket : List (Candidate T)) (p : Candidate T)
      → Member p bucket
      → (best : Candidate T) × (max_by (outranks priority) bucket ≡ some best)
  nonempty_best [] p m = absurd m
  nonempty_best (c ∷ cs) p m = max_by_total (outranks priority) c cs

  -- The source chosen before keeps the object for as long as its candidate is such a choice.
  pub choose-sticks :
      (source : Text) (bucket : List (Candidate T)) (p : Candidate T)
      → find_source source bucket ≡ some p
      → IsGoodChoice priority bucket p
      → choose priority (some source) bucket ≡ some p
  unfolding still_there
  choose-sticks source bucket p found g =
      let (best, best_found) = nonempty_best bucket p g.member in
      choose-eq (some source) bucket best best_found
      ∙ ap (λ o. some (stick priority o best)) found
      ∙ ap some (
          sticks bucket p best (max_by-IsBest (outranks-IsRanking priority) bucket best best_found)
            g)

-- What the loop over the objects leaves at an object, in both maps.
abbrev pub shown_of : {T : Type 0} → Option (Candidate T) → Option (Text × T)
shown_of none = none
shown_of (some c) = some (c.0, (c.1).content)

abbrev pub source_of : {T : Type 0} → Option (Candidate T) → Option Text
source_of none = none
source_of (some c) = some c.0

abbrev pub choice_at :
    {T : Type 0}
    → (Text → Text → ℤ)
    → Map Text Text
    → Text
    → Option (List (Candidate T))
    → Option (Candidate T)
choice_at priority selected object none = none
choice_at priority selected object (some bucket) =
    choose (priority object) (lookup object selected) bucket

-- The keys of a hash map: no object comes twice.
abbrev pub IsDistinct : {T : Type 0} → List (Text × List (Candidate T)) → Type 0
IsDistinct [] = Unit {0}
IsDistinct ((object, bucket) ∷ rest) = (lookup object rest ≡ none) × IsDistinct rest

module _ {T : Type 0} (object : Text) (resolved : Map Text (Text × T)) (next : Map Text Text) where
  -- The maps after the step for one object, `chosen` being its choice.
  abbrev entered : Text → Option (Candidate T) → Map Text (Text × T) × Map Text Text
  entered o chosen = elim chosen [
    | none ↦ (resolved, next)
    | some c ↦ (insert o (c.0, (c.1).content) resolved, insert o c.0 next)
  ]

  entered_self :
      (chosen : Option (Candidate T))
      → lookup object resolved ≡ none
      → lookup object next ≡ none
      → (lookup object (entered object chosen).0 ≡ shown_of chosen)
        × (lookup object (entered object chosen).1 ≡ source_of chosen)
  entered_self none h k = (h, k)
  entered_self (some c) h k =
      (lookup-insert_self object (c.0, (c.1).content) resolved, lookup-insert_self object c.0 next)

  entered_ne :
      (o : Text) (chosen : Option (Candidate T))
      → o ≢ object
      → (lookup object (entered o chosen).0 ≡ lookup object resolved)
        × (lookup object (entered o chosen).1 ≡ lookup object next)
  entered_ne o none n = (refl, refl)
  entered_ne o (some c) n = (
    lookup-insert_ne o object (c.0, (c.1).content) resolved n,
    lookup-insert_ne o object c.0 next n,
  )

-- After the loop each object shows the content of its choice, the choice's source is remembered as the
-- selected one, and an object with no candidate is in neither map.
pub resolve_candidates-lookup :
    {T : Type 0} (priority : Text → Text → ℤ) (selected : Map Text Text)
    (candidates : List (Text × List (Candidate T))) (object : Text)
    → IsDistinct candidates
    → let choice = choice_at priority selected object (lookup object candidates) in
      let after = resolve_candidates priority selected candidates in
      (lookup object after.0 ≡ shown_of choice) × (lookup object after.1 ≡ source_of choice)
unfolding resolve_candidates lookup
resolve_candidates-lookup priority selected [] object d = (refl, refl)
resolve_candidates-lookup priority selected ((o, bucket) ∷ rest) object d =
    let after = resolve_candidates priority selected rest in
    let ih = resolve_candidates-lookup priority selected rest object d.1 in
    let chosen = choose (priority o) (lookup o selected) bucket in
    elim (Text-discrete o object) [
      | yes same ↦
          let at_o = resolve_candidates-lookup priority selected rest o d.1 in
          rw (if_pos _ same, ← same)
            (entered_self o after.0 after.1 chosen
              (at_o.0 ∙ ap (λ b. shown_of (choice_at priority selected o b)) d.0)
              (at_o.1 ∙ ap (λ b. source_of (choice_at priority selected o b)) d.0))
      | no other ↦
          let (shown, source) = entered_ne object after.0 after.1 o chosen other in
          rw (if_neg _ other) (shown ∙ ih.0, source ∙ ih.1)
    ]
