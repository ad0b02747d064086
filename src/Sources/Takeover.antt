-- ===== src/Sources/Takeover.antt =====
-- The hand-over between external sources and game clients in `resolve_player_candidates` of
-- src/relay.rs.
use minecraft_team_viewer_ba.Sources.Best.{
  find_source-Member, max_by-IsBest, max_by_total, newer-IsRanking,
}
use minecraft_team_viewer_ba.Sources.Candidates.{Candidate, max_by, newer}
use minecraft_team_viewer_ba.Prelude.Map.{
  Map, contains_key, insert, lookup, lookup-insert_ne, lookup-insert_self,
}
use minecraft_team_viewer_ba.Sources.Players.{
  find_selected, is_among, keep_sources, or_else, or_insert_all, retain_active, update_seen,
}
use minecraft_team_viewer_ba.Prelude.{
  Bool, Bool-cases, List, Member, Option, [], arith, false, if◌then◌else◌, inl, inr, none, refl,
  some, subst, true, unwrap_or, ℕ, ◌↔◌, ◌∷◌, ◌≡◌,
}
use minecraft_team_viewer_ba.Prelude.Text.{Text, Text-discrete, nat_key, text_key}

is_among-Member : (s : Text) (active : List Text) → is_among s active ≡ true → Member s active
unfolding is_among
is_among-Member s [] h = cc
is_among-Member s (t ∷ ts) h = elim (Text-discrete t s) [
  | yes same ↦ inl same
  | no other ↦ inr (is_among-Member s ts (ground arith))
]

pub Member-is_among : (s : Text) (active : List Text) → Member s active → is_among s active ≡ true
unfolding is_among
Member-is_among s [] m = absurd m
Member-is_among s (t ∷ ts) m = elim (Text-discrete t s) [
  | yes same ↦ ground arith
  | no other ↦ ground (arith, Member-is_among s ts)
]

retain_active-lookup :
    (active : List Text) (seen : Map Text ℕ) (s : Text)
    → lookup s (retain_active active seen) ≡ (if is_among s active then lookup s seen else none)
unfolding retain_active lookup
retain_active-lookup active [] s = ground arith
retain_active-lookup active ((t, since) ∷ rest) s = elim (Text-discrete t s) [
  | yes same ↦ rw same (ground (arith, retain_active-lookup active rest s))
  | no other ↦ ground (arith, retain_active-lookup active rest s)
]

or_insert_all-lookup :
    (active : List Text) (now : ℕ) (seen : Map Text ℕ) (s : Text)
    → lookup s (or_insert_all active now seen) ≡ (elim (lookup s seen) [
      | some since ↦ some since
      | none ↦ if is_among s active then some now else none
    ])
unfolding or_insert_all is_among
or_insert_all-lookup [] now seen s = ground arith
or_insert_all-lookup (t ∷ ts) now seen s = elim (Text-discrete t s) [
  | yes same ↦ ground (
    arith,
    or_insert_all-lookup ts now (if contains_key t seen then seen else insert t now seen) s,
    lookup-insert_self t now seen,
  )
  | no other ↦ ground (
    arith,
    or_insert_all-lookup ts now (if contains_key t seen then seen else insert t now seen) s,
    lookup-insert_ne t s now seen other,
  )
]

-- A game source that reports has been seen since it was first entered without a gap, or since now; any
-- other source is forgotten.
pub update_seen-lookup :
    (active : List Text) (now : ℕ) (seen : Map Text ℕ) (s : Text)
    → lookup s (update_seen active now seen)
      ≡ (if is_among s active then some (unwrap_or (lookup s seen) now) else none)
unfolding update_seen
update_seen-lookup active now seen s = ground (
  arith,
  or_insert_all-lookup active now (retain_active active seen) s,
  retain_active-lookup active seen s,
)

module _ {T : Type 0} where
  pub keep_sources-Member :
      (test : Text → Bool) (c : Candidate T) (cs : List (Candidate T))
      → Member c (keep_sources test cs) ↔ (Member c cs × (test c.0 ≡ true))
  unfolding keep_sources
  keep_sources-Member test c [] = ((λ m. absurd m), λ h. h.0)
  keep_sources-Member test c (d ∷ cs) =
      let (to, from) = keep_sources-Member test c cs in
      elim (Bool-cases (test d.0)) [
        | inl passes ↦ (rw passes (λ m. kept passes to m), rw passes (λ h. enters from h.0 h.1))
        | inr fails ↦
            (rw fails (λ m. (inr (to m).0, (to m).1)), rw fails (λ h. skips fails from h.0 h.1))
      ]
    where
      kept :
          test d.0 ≡ true
          → (Member c (keep_sources test cs) → Member c cs × (test c.0 ≡ true))
          → Member c (d ∷ keep_sources test cs)
          → Member c (d ∷ cs) × (test c.0 ≡ true)
      kept passes to (inl same) = (inl same, rw (← same) passes)
      kept passes to (inr m) = (inr (to m).0, (to m).1)

      enters :
          (Member c cs × (test c.0 ≡ true) → Member c (keep_sources test cs))
          → Member c (d ∷ cs)
          → test c.0 ≡ true
          → Member c (d ∷ keep_sources test cs)
      enters from (inl same) h = inl same
      enters from (inr m) h = inr (from (m, h))

      skips :
          test d.0 ≡ false
          → (Member c cs × (test c.0 ≡ true) → Member c (keep_sources test cs))
          → Member c (d ∷ cs)
          → test c.0 ≡ true
          → Member c (keep_sources test cs)
      skips fails from (inl same) h = absurd (contradiction (rw same at fails) h)
        where
          contradiction : test c.0 ≡ false → test c.0 ≡ true → ⊥
          contradiction a b = cc
      skips fails from (inr m) h = from (m, h)

  pub find_selected-Member :
      (test : Text → Bool) (selected : Option Text) (bucket : List (Candidate T)) (c : Candidate T)
      → find_selected test selected bucket ≡ some c
      → Member c bucket
  unfolding find_selected
  find_selected-Member test none bucket c e = cc
  find_selected-Member test (some source) bucket c e = elim (Bool-cases (test source)) [
    | inl passes ↦ (find_source-Member source bucket c (rw passes at e)).0
    | inr fails ↦ absurd (none_some (rw fails at e))
  ]
    where
      none_some : none ≡ some c → ⊥
      none_some h = cc

  -- The best external candidate is one of the external candidates, and there is one if any is.
  pub or_else-Member :
      (first : Option (Candidate T)) (bucket : List (Candidate T)) (c : Candidate T)
      → ((d : Candidate T) → first ≡ some d → Member d bucket)
      → or_else first (max_by newer bucket) ≡ some c
      → Member c bucket
  unfolding or_else
  or_else-Member none bucket c h e = (max_by-IsBest newer-IsRanking bucket c e).member
  or_else-Member (some d) bucket c h e = subst (λ x. Member x bucket) (cc) (h d refl)

  pub or_else_total :
      (first : Option (Candidate T)) (bucket : List (Candidate T)) (e : Candidate T)
      → Member e bucket
      → (c : Candidate T) × (or_else first (max_by newer bucket) ≡ some c)
  unfolding or_else
  or_else_total (some d) bucket e m = (d, refl)
  or_else_total none [] e m = absurd m
  or_else_total none (d ∷ ds) e m = max_by_total newer d ds
