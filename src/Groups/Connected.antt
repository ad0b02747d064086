-- ===== src/Groups/Connected.antt =====
-- The loops over all pairs in src/relay.rs's `same_server_grouping`: afterwards two indices have one
-- root exactly when a chain of overlaps leads from the one to the other.
use minecraft_team_viewer_ba.Groups.Union.{union_groups-IsUnion}
use minecraft_team_viewer_ba.Groups.{
  find_group, find_group_from, link_lefts, link_rights, linked, parent_of, union_groups,
}
use minecraft_team_viewer_ba.Groups.Roots.{
  Represents, find_group_from-Represents, root-is_root, root-le,
}
use minecraft_team_viewer_ba.Prelude.{
  Bool, Bool-cases, List, arith, get_elem?, if◌then◌else◌, inl, inr, length, length-range, ltb,
  none, range, refl, some, subst, suc, sym, true, zero, ℕ, ℕ_discrete, ◌+◌, ◌-◌, ◌<◌, ◌↔◌, ◌∙◌, ◌≡◌,
  ◌≤◌,
}

get_elem?-range :
    (start n i : ℕ) → get_elem? (range start n) i ≡ (if ltb i n then some (start + i) else none)
get_elem?-range start zero i = ground arith
get_elem?-range start (suc n) zero = ground arith
get_elem?-range start (suc n) (suc i) = ground (arith, get_elem?-range (suc start) n i)

parent_of-range : (n i : ℕ) → parent_of (range 0 n) i ≡ i
unfolding parent_of
parent_of-range n i = ground (arith, get_elem?-range 0 n i)

module _ (overlaps : ℕ → ℕ → Bool) (n : ℕ) where
  -- A chain of overlapping pairs among the first `n` indices.
  pub data Connected : ℕ → ℕ → Type 0 where
    here : {i : ℕ} → Connected i i
    pair : {i j : ℕ} → i < j → j < n → overlaps i j ≡ true → Connected i j
    back : {i j : ℕ} → Connected i j → Connected j i
    chain : {i j k : ℕ} → Connected i j → Connected j k → Connected i k

  -- What holds between two rounds: one root only where a chain leads.
  record IsSound (parents : List ℕ) (root : ℕ → ℕ) : Type 0 where
    represents : Represents parents root
    size : length parents ≡ n
    connects : (i j : ℕ) → root i ≡ root j → Connected i j

  -- What some rounds of the loops do: they keep joined what was, and join the overlapping pairs in `P`.
  record Rounds (P : ℕ → ℕ → Type 0) (before : ℕ → ℕ) (parents : List ℕ) : Type 0 where
    root : ℕ → ℕ
    is_sound : IsSound parents root
    kept : (i j : ℕ) → before i ≡ before j → root i ≡ root j
    joins : (i j : ℕ) → P i j → overlaps i j ≡ true → root i ≡ root j

  union_step :
      (parents : List ℕ) (root : ℕ → ℕ) (left right : ℕ)
      → IsSound parents root
      → left < right
      → right < n
      → Rounds
          (λ i j. (i ≡ left) × (j ≡ right))
          root
          (if overlaps left right then union_groups parents left right else parents)
  union_step parents root left right s lt within = elim (Bool-cases (overlaps left right)) [
    | inl e ↦
        let size = s.size in
        let (root', u) =
          union_groups-IsUnion parents root left right s.represents (omega arith) (omega arith) in
        rw e (record {
          root = root';
          is_sound = record {
            represents = u.represents;
            size = u.size ∙ s.size;
            connects = λ i j same. elim (u.sound i j same) [
              | inl old ↦ s.connects i j old
              | inr (inl (a, b)) ↦
                  chain (s.connects i left a)
                    (chain (pair lt within e) (back (s.connects j right b)))
              | inr (inr (a, b)) ↦
                  chain (s.connects i right a)
                    (chain (back (pair lt within e)) (back (s.connects j left b)))
            ];
          };
          kept = u.kept;
          joins = λ i j p o. ground (arith, u.joined);
        })
    | inr e ↦ rw e (record {
      root = root;
      is_sound = s;
      kept = λ i j same. same;
      joins = λ i j p o. ground arith;
    })
  ]

  rights_step :
      (left rounds right : ℕ) (parents : List ℕ) (root : ℕ → ℕ)
      → IsSound parents root
      → left < right
      → right + rounds ≡ n
      → Rounds
          (λ i j. (i ≡ left) × (right ≤ j) × (j < n))
          root
          (link_rights overlaps left rounds right parents)
  unfolding link_rights
  rights_step left zero right parents root s lt e = record {
    root = root;
    is_sound = s;
    kept = λ i j same. same;
    joins = λ i j p o. absurd (omega arith);
  }
  rights_step left (suc rounds) right parents root s lt e =
      let one = union_step parents root left right s lt (omega arith) in
      let rest =
        rights_step left rounds (suc right)
          (if overlaps left right then union_groups parents left right else parents) one.root
          one.is_sound (omega arith) (omega arith) in
      record {
        root = rest.root;
        is_sound = rest.is_sound;
        kept = λ i j same. rest.kept i j (one.kept i j same);
        joins = λ i j p o. elim (ℕ_discrete j right) [
          | yes now ↦ rest.kept i j (one.joins i j (p.0, now) o)
          | no later ↦ rest.joins i j (p.0, (ground arith), p.2) o
        ];
      }

  lefts_step :
      (rounds left : ℕ) (parents : List ℕ) (root : ℕ → ℕ)
      → IsSound parents root
      → left + rounds ≡ n
      → Rounds
          (λ i j. (left ≤ i) × (i < j) × (j < n))
          root
          (link_lefts overlaps n rounds left parents)
  unfolding link_lefts
  lefts_step zero left parents root s e = record {
    root = root;
    is_sound = s;
    kept = λ i j same. same;
    joins = λ i j p o. absurd (omega arith);
  }
  lefts_step (suc rounds) left parents root s e =
      let row =
        rights_step left (n - suc left) (suc left) parents root s (omega arith) (omega arith) in
      let rest =
        lefts_step rounds (suc left) (link_rights overlaps left (n - suc left) (suc left) parents)
          row.root row.is_sound (omega arith) in
      record {
        root = rest.root;
        is_sound = rest.is_sound;
        kept = λ i j same. rest.kept i j (row.kept i j same);
        joins = λ i j p o. elim (ℕ_discrete i left) [
          | yes now ↦ rest.kept i j (row.joins i j (now, (omega arith), p.2) o)
          | no later ↦ rest.joins i j ((ground arith), p.1, p.2) o
        ];
      }

  start-IsSound : IsSound (range 0 n) (λ i. i)
  start-IsSound = record {
    represents = record {
      below = λ i. omega (arith, parent_of-range n i);
      same = λ i. parent_of-range n i;
      fixed = λ i e. refl;
    };
    size = length-range 0 n;
    connects = λ i j same. subst (Connected i) same here;
  }

  joined :
      (parents : List ℕ) (all : Rounds (λ i j. (0 ≤ i) × (i < j) × (j < n)) (λ k. k) parents)
      {i j : ℕ}
      → Connected i j
      → all.root i ≡ all.root j
  joined parents all here = refl
  joined parents all (pair {i} {j} lt within o) = all.joins i j ((omega arith), lt, within) o
  joined parents all (back c) = sym (joined parents all c)
  joined parents all (chain c d) = joined parents all c ∙ joined parents all d

  -- The loops join two indices exactly when a chain of overlapping pairs leads from one to the other:
  -- `find_group` then gives them the same root.
  pub find_group-Connected :
      (i j : ℕ)
      → i < n
      → j < n
      → ((find_group (linked overlaps n) i).1 ≡ (find_group (linked overlaps n) j).1)
        ↔ Connected i j
  unfolding find_group linked
  find_group-Connected i j hi hj =
      let all = lefts_step n 0 (range 0 n) (λ k. k) start-IsSound (omega arith) in
      let size = all.is_sound.size in
      let (_, found, _) =
        find_group_from-Represents all.root (suc i) (linked overlaps n) i all.is_sound.represents
          (omega arith) (omega arith) in
      let (_, found', _) =
        find_group_from-Represents all.root (suc j) (linked overlaps n) j all.is_sound.represents
          (omega arith) (omega arith) in
      (
        λ same. all.is_sound.connects i j (sym found ∙ same ∙ found'),
        λ c. found ∙ joined (linked overlaps n) all c ∙ sym found',
      )

  -- The recursion of `find_group` ends at a root: with any fuel above the index it gives the same answer,
  -- which is its own parent and not above the index.
  pub find_group_terminates :
      (i fuel : ℕ)
      → i < n
      → i < fuel
      → let parents = linked overlaps n in
        let found = (find_group_from fuel parents i).1 in
        (parent_of parents found ≡ found) × (found ≤ i) × (found ≡ (find_group parents i).1)
  unfolding find_group linked
  find_group_terminates i fuel hi more =
      let all = lefts_step n 0 (range 0 n) (λ k. k) start-IsSound (omega arith) in
      let size = all.is_sound.size in
      let parents = linked overlaps n in
      let reached =
        find_group_from-Represents all.root fuel parents i all.is_sound.represents more
          (omega arith) in
      let usual =
        find_group_from-Represents all.root (suc i) parents i all.is_sound.represents (omega arith)
          (omega arith) in
      (
        subst (λ r. parent_of parents r ≡ r) (sym reached.1)
            (root-is_root all.is_sound.represents i),
        subst (λ r. r ≤ i) (sym reached.1) (root-le all.is_sound.represents i),
        reached.1 ∙ sym usual.1,
      )
