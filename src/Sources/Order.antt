-- ===== src/Sources/Order.antt =====
-- The candidates of an object come from a hash map: their order does not matter to src/relay.rs.
use minecraft_team_viewer_ba.Sources.Choice.{choose-eq, choose-nil}
use minecraft_team_viewer_ba.Prelude.Int.{ℤ}
use mathlib.Core.Logic.{if_neg}
use minecraft_team_viewer_ba.Sources.Best.{
  IsBest, IsRanking, find_source-Member, max_by-IsBest, outranks-IsRanking,
}
use minecraft_team_viewer_ba.Sources.Candidates.{
  Candidate, choose, find_source, max_by, outranks, stick, still_there,
}
use minecraft_team_viewer_ba.Prelude.{
  Bool, List, Member, Option, Option-cases, [], ap, arith, inl, inr, none, refl, some, sym, ◌∙◌,
  ◌∷◌, ◌≡◌, ◌≢◌, ◌⊎◌,
}
use minecraft_team_viewer_ba.Prelude.Text.{Text, Text-discrete, nat_key, text_key}

-- Two orders of the same candidates, where each source has one candidate.
pub record IsReordering {T : Type 0} (xs ys : List (Candidate T)) : Type 0 where
  pub to : (c : Candidate T) → Member c xs → Member c ys
  pub from : (c : Candidate T) → Member c ys → Member c xs
  pub unique : (c d : Candidate T) → Member c xs → Member d xs → c.0 ≡ d.0 → c ≡ d

module _ {T : Type 0} {xs ys : List (Candidate T)} (o : IsReordering xs ys) where
  best_same :
      {greater : Candidate T → Candidate T → Bool} (x y : Candidate T)
      → IsRanking greater
      → IsBest greater xs x
      → IsBest greater ys y
      → x ≡ y
  best_same x y r b d =
      o.unique x y b.member (o.from y d.member)
        (r.connected x y (d.unbeaten x (o.to x b.member)) (b.unbeaten y (o.from y d.member)))

find_source_absent :
    {T : Type 0} (source : Text) (bucket : List (Candidate T)) (c : Candidate T)
    → Member c bucket
    → c.0 ≡ source
    → (d : Candidate T) × (find_source source bucket ≡ some d)
unfolding find_source
find_source_absent source [] c m named = absurd m
find_source_absent source (d ∷ cs) c m named = elim (Text-discrete d.0 source) [
  | yes same ↦ (d, ground arith)
  | no other ↦
      let (x, e) = find_source_absent source cs c (later other m) named in
      (x, rw (if_neg _ other) e)
]
  where
    later : d.0 ≢ source → Member c (d ∷ cs) → Member c cs
    later other (inl same) = absurd (other (ap (λ x. x.0) same ∙ named))
    later other (inr h) = h

max_by-nil :
    {T : Type 0} (greater : Candidate T → Candidate T → Bool) (bucket : List (Candidate T))
    → max_by greater bucket ≡ none
    → bucket ≡ []
unfolding max_by
max_by-nil greater [] e = refl
max_by-nil greater (c ∷ cs) e = cc

module _ {T : Type 0} (priority : Text → ℤ) {xs ys : List (Candidate T)}
    (o : IsReordering xs ys) where
  still_there-some :
      (previous : Option Text) (p : Candidate T)
      → still_there previous xs ≡ some p
      → still_there previous ys ≡ some p
  unfolding still_there
  still_there-some none p e = cc
  still_there-some (some source) p e =
      let (m, named) = find_source-Member source xs p e in
      let (q, found) = find_source_absent source ys p (o.to p m) named in
      let (m', named') = find_source-Member source ys q found in
      found ∙ ap some (o.unique q p (o.from q m') m (named' ∙ sym named))

  still_there-none :
      (previous : Option Text) → still_there previous xs ≡ none → still_there previous ys ≡ none
  unfolding still_there
  still_there-none none e = refl
  still_there-none (some source) e = elim (Option-cases (find_source source ys)) [
    | inl absent ↦ absent
    | inr (q, found) ↦
        let (m, named) = find_source-Member source ys q found in
        let (p, found') = find_source_absent source xs q (o.from q m) named in absurd (cc found')
  ]

  still_there-same : (previous : Option Text) → still_there previous xs ≡ still_there previous ys
  still_there-same previous = elim (Option-cases (still_there previous xs)) [
    | inl absent ↦ absent ∙ sym (still_there-none previous absent)
    | inr (p, found) ↦ found ∙ sym (still_there-some previous p found)
  ]

  max_by-same : max_by (outranks priority) xs ≡ max_by (outranks priority) ys
  max_by-same =
      by_cases (Option-cases (max_by (outranks priority) xs))
        (Option-cases (max_by (outranks priority) ys))
    where
      greater : Candidate T → Candidate T → Bool
      greater = outranks priority

      absent :
          (zs : List (Candidate T)) (c : Candidate T) → max_by greater zs ≡ none → ¬ Member c zs
      absent zs c e m = rw (max_by-nil greater zs e) at m

      by_cases :
          (max_by greater xs ≡ none) ⊎ ((b : Candidate T) × (max_by greater xs ≡ some b))
          → (max_by greater ys ≡ none) ⊎ ((b : Candidate T) × (max_by greater ys ≡ some b))
          → max_by greater xs ≡ max_by greater ys
      by_cases (inl e) (inl f) = e ∙ sym f
      by_cases (inl e) (inr (b, f)) =
          absurd
            (absent xs b e (o.from b (max_by-IsBest (outranks-IsRanking priority) ys b f).member))
      by_cases (inr (b, e)) (inl f) =
          absurd
            (absent ys b f (o.to b (max_by-IsBest (outranks-IsRanking priority) xs b e).member))
      by_cases (inr (b, e)) (inr (d, f)) =
          e
          ∙ ap some (
              best_same o b d (outranks-IsRanking priority)
                (max_by-IsBest (outranks-IsRanking priority) xs b e)
                (max_by-IsBest (outranks-IsRanking priority) ys d f))
          ∙ sym f

  -- Two orders of the same candidates, one for each source, give the same choice.
  pub choose-IsReordering :
      (previous : Option Text) → choose priority previous xs ≡ choose priority previous ys
  choose-IsReordering previous = elim (Option-cases (max_by (outranks priority) ys)) [
    | inl empty ↦
        choose-nil priority previous xs (max_by-same ∙ empty)
        ∙ sym (choose-nil priority previous ys empty)
    | inr (best, found) ↦
        choose-eq priority previous xs best (max_by-same ∙ found)
        ∙ ap (λ p. some (stick priority p best)) (still_there-same previous)
        ∙ sym (choose-eq priority previous ys best found)
  ]
