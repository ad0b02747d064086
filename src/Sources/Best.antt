-- ===== src/Sources/Best.antt =====
-- `Iterator::max_by` under the comparisons of src/relay.rs: its answer is a candidate that no candidate
-- outranks, and the only such one.
use minecraft_team_viewer_ba.Prelude.Int.{ℤ}
use minecraft_team_viewer_ba.Prelude.Text.{Text, Text-discrete, nat_key, text_key, text_ltb}
use minecraft_team_viewer_ba.Sources.Candidates.{
  Candidate, find_source, max_by, max_from, newer, outranks,
}
use minecraft_team_viewer_ba.Prelude.{
  Bool, Bool-cases, List, Member, [], arith, false, inl, inr, refl, some, subst, true, ◌∷◌, ◌≡◌,
}

-- "Not less" is transitive on texts.
text_not_less_trans :
    (a b c : Text) → text_ltb b a ≡ false → text_ltb c b ≡ false → text_ltb c a ≡ false
unfolding text_ltb
text_not_less_trans [] [] [] h k = refl
text_not_less_trans [] [] (z ∷ c) h k = refl
text_not_less_trans [] (y ∷ b) [] h k = cc
text_not_less_trans [] (y ∷ b) (z ∷ c) h k = refl
text_not_less_trans (x ∷ a) [] c h k = cc
text_not_less_trans (x ∷ a) (y ∷ b) [] h k = cc
text_not_less_trans (x ∷ a) (y ∷ b) (z ∷ c) h k = ground (arith, text_not_less_trans a b c)

pub text_connected : (a b : Text) → text_ltb a b ≡ false → text_ltb b a ≡ false → a ≡ b
unfolding text_ltb
text_connected [] [] h k = refl
text_connected [] (y ∷ b) h k = cc
text_connected (x ∷ a) [] h k = cc
text_connected (x ∷ a) (y ∷ b) h k = ground (arith, text_connected a b)

pub text_irrefl : (a : Text) → text_ltb a a ≡ false
unfolding text_ltb
text_irrefl [] = refl
text_irrefl (x ∷ a) = ground (arith, text_irrefl a)

text_asym : (a b : Text) → text_ltb a b ≡ true → text_ltb b a ≡ false
unfolding text_ltb
text_asym [] [] h = refl
text_asym [] (y ∷ b) h = refl
text_asym (x ∷ a) [] h = cc
text_asym (x ∷ a) (y ∷ b) h = ground (arith, text_asym a b)

-- What the proofs need of a comparison.
pub record IsRanking {T : Type 0} (greater : Candidate T → Candidate T → Bool) : Type 0 where
  pub irrefl : (a : Candidate T) → greater a a ≡ false
  pub asym : (a b : Candidate T) → greater a b ≡ true → greater b a ≡ false
  pub trans :
      (a b c : Candidate T) → greater b a ≡ false → greater c b ≡ false → greater c a ≡ false
  pub connected : (a b : Candidate T) → greater a b ≡ false → greater b a ≡ false → a.0 ≡ b.0

module _ {T : Type 0} where
  pub newer-IsRanking : IsRanking (newer {T = T})
  newer-IsRanking = record {
    irrefl = λ a. unfold newer in ground (arith, text_irrefl a.0);
    asym = λ a b h. unfold newer in ground (arith, text_asym a.0 b.0);
    trans = λ a b c h k. unfold newer in ground (arith, text_not_less_trans a.0 b.0 c.0);
    connected = λ a b h k. unfold newer in ground (arith, text_connected a.0 b.0);
  }

  pub outranks-IsRanking : (priority : Text → ℤ) → IsRanking (outranks {T = T} priority)
  outranks-IsRanking priority =
      let n = newer-IsRanking in
      record {
        irrefl = λ a. unfold outranks in ground (arith, n.irrefl a);
        asym = λ a b h. unfold outranks in ground (arith, n.asym a b);
        trans = λ a b c h k. unfold outranks in ground (arith, n.trans a b c);
        connected = λ a b h k. unfold outranks in ground (arith, n.connected a b);
      }

-- A member that no member outranks.
pub record IsBest {T : Type 0} (greater : Candidate T → Candidate T → Bool)
    (bucket : List (Candidate T)) (best : Candidate T) : Type 0 where
  pub member : Member best bucket
  pub unbeaten : (c : Candidate T) → Member c bucket → greater c best ≡ false

module _ {T : Type 0} {greater : Candidate T → Candidate T → Bool} (r : IsRanking greater) where
  max_from-IsBest :
      (best : Candidate T) (cs : List (Candidate T))
      → IsBest greater (best ∷ cs) (max_from greater best cs)
  unfolding max_from
  max_from-IsBest best [] = record { member = inl refl; unbeaten = λ c m. alone c m }
    where
      alone : (c : Candidate T) → Member c (best ∷ []) → greater c best ≡ false
      alone c (inl e) = rw (← e) (r.irrefl best)
      alone c (inr m) = absurd m
  max_from-IsBest best (d ∷ cs) = elim (Bool-cases (greater best d)) [
    | inl stays ↦ rw stays (widen (r.asym best d stays) _ (max_from-IsBest best cs))
    | inr yields ↦ rw yields (replace yields _ (max_from-IsBest d cs))
  ]
    where
      widen :
          greater d best ≡ false
          → (m : Candidate T) → IsBest greater (best ∷ cs) m
          → IsBest greater (best ∷ d ∷ cs) m
      widen low m i = record { member = member' i.member; unbeaten = unbeaten' }
        where
          member' : Member m (best ∷ cs) → Member m (best ∷ d ∷ cs)
          member' (inl e) = inl e
          member' (inr h) = inr (inr h)

          unbeaten' : (c : Candidate T) → Member c (best ∷ d ∷ cs) → greater c m ≡ false
          unbeaten' c (inl e) = i.unbeaten c (inl e)
          unbeaten' c (inr (inl e)) = rw (← e) (r.trans m best d (i.unbeaten best (inl refl)) low)
          unbeaten' c (inr (inr h)) = i.unbeaten c (inr h)

      replace :
          greater best d ≡ false
          → (m : Candidate T) → IsBest greater (d ∷ cs) m
          → IsBest greater (best ∷ d ∷ cs) m
      replace yields m i = record { member = inr i.member; unbeaten = unbeaten' }
        where
          unbeaten' : (c : Candidate T) → Member c (best ∷ d ∷ cs) → greater c m ≡ false
          unbeaten' c (inl e) = rw (← e) (r.trans m d best (i.unbeaten d (inl refl)) yields)
          unbeaten' c (inr h) = i.unbeaten c h

  pub max_by-IsBest :
      (bucket : List (Candidate T)) (best : Candidate T)
      → max_by greater bucket ≡ some best
      → IsBest greater bucket best
  unfolding max_by
  max_by-IsBest [] best e = cc
  max_by-IsBest (c ∷ cs) best e =
      let e' : max_from greater c cs ≡ best = ground arith in
      subst (IsBest greater (c ∷ cs)) e' (max_from-IsBest c cs)

-- Only an empty bucket has no best candidate.
pub max_by_total :
    {T : Type 0} (greater : Candidate T → Candidate T → Bool) (c : Candidate T)
    (cs : List (Candidate T))
    → (best : Candidate T) × (max_by greater (c ∷ cs) ≡ some best)
unfolding max_by
max_by_total greater c cs = (max_from greater c cs, refl)

pub find_source-Member :
    {T : Type 0} (source : Text) (bucket : List (Candidate T)) (c : Candidate T)
    → find_source source bucket ≡ some c
    → Member c bucket × (c.0 ≡ source)
unfolding find_source
find_source-Member source [] c e = cc
find_source-Member source (d ∷ cs) c e = elim (Text-discrete d.0 source) [
  | yes same ↦ (inl (ground arith), ground arith)
  | no other ↦ let (m, named) = find_source-Member source cs c (ground arith) in (inr m, named)
]
