-- ===== src/Groups/Roots.antt =====
-- A forest of parents in src/relay.rs stands for a function from each index to its root.
use minecraft_team_viewer_ba.Groups.{find_group_from, parent_of}
use minecraft_team_viewer_ba.Prelude.{
  Bool-cases, List, [], arith, get_elem?, if◌then◌else◌, inl, inr, length, length-set, refl, set,
  some, subst, suc, sym, zero, ℕ, ◌<◌, ◌==◌, ◌∙◌, ◌∷◌, ◌≡◌, ◌≤◌,
}

pub record Represents (parents : List ℕ) (root : ℕ → ℕ) : Type 0 where
  pub below : (i : ℕ) → parent_of parents i ≤ i
  pub same : (i : ℕ) → root (parent_of parents i) ≡ root i
  pub fixed : (i : ℕ) → parent_of parents i ≡ i → root i ≡ i

get_elem?-set :
    (xs : List ℕ) (i j v : ℕ)
    → i < length xs
    → get_elem? (set xs i v) j ≡ (if i == j then some v else get_elem? xs j)
get_elem?-set [] i j v h = absurd (omega arith)
get_elem?-set (x ∷ xs) zero zero v h = refl
get_elem?-set (x ∷ xs) zero (suc j) v h = ground arith
get_elem?-set (x ∷ xs) (suc i) zero v h = ground arith
get_elem?-set (x ∷ xs) (suc i) (suc j) v h = ground (arith, get_elem?-set xs i j v)

pub parent_of-set :
    (parents : List ℕ) (i j v : ℕ)
    → i < length parents
    → parent_of (set parents i v) j ≡ (if i == j then v else parent_of parents j)
unfolding parent_of
parent_of-set parents i j v h = ground (arith, get_elem?-set parents i j v h)

module _ {parents : List ℕ} {root : ℕ → ℕ} (r : Represents parents root) where
  -- The root of an index is a root and is not above it.
  root_within : (n i : ℕ) → i < n → (root i ≤ i) × (parent_of parents (root i) ≡ root i)
  root_within zero i h = absurd (omega arith)
  root_within (suc n) i h = elim (Bool-cases (parent_of parents i == i)) [
    | inl e ↦
        let top : parent_of parents i ≡ i = ground arith in
        let f = r.fixed i top in (omega arith, rw f top)
    | inr e ↦
        let low = r.below i in
        let up = r.same i in
        let below : parent_of parents i < n = ground arith in
        let (le, top) = root_within n (parent_of parents i) below in
        (omega arith, subst (λ k. parent_of parents k ≡ k) up top)
  ]

  pub root-le : (i : ℕ) → root i ≤ i
  root-le i = (root_within (suc i) i (omega arith)).0

  pub root-is_root : (i : ℕ) → parent_of parents (root i) ≡ root i
  root-is_root i = (root_within (suc i) i (omega arith)).1

  pub root_idem : (i : ℕ) → root (root i) ≡ root i
  root_idem i = r.fixed (root i) (root-is_root i)

  -- A shortcut from an index to its root leaves the roots as they are.
  pub shortcut-Represents : (i : ℕ) → i < length parents → Represents (set parents i (root i)) root
  shortcut-Represents i h = record {
    below = λ j. ground (arith, parent_of-set parents i j (root i) h, r.below j, root-le i);
    same = λ j. ground (arith, parent_of-set parents i j (root i) h, r.same j, root_idem i);
    fixed = λ j e. ground (arith, parent_of-set parents i j (root i) h, r.fixed j);
  }

-- `find_group` answers the root, and leaves the roots as they are.
pub find_group_from-Represents :
    (root : ℕ → ℕ) (fuel : ℕ) (parents : List ℕ) (i : ℕ)
    → Represents parents root
    → i < fuel
    → i < length parents
    → let found = find_group_from fuel parents i in
      Represents found.0 root × (found.1 ≡ root i) × (length found.0 ≡ length parents)
unfolding find_group_from
find_group_from-Represents root zero parents i r h within = absurd (omega arith)
find_group_from-Represents root (suc fuel) parents i r h within =
    elim (Bool-cases (parent_of parents i == i)) [
      | inl e ↦ rw e (r, sym (r.fixed i (ground arith)), refl)
      | inr e ↦
          let low = r.below i in
          let next : parent_of parents i < fuel = ground arith in
          let (kept, found, size) =
            find_group_from-Represents root fuel parents (parent_of parents i) r next
              (omega arith) in
          let answer = found ∙ r.same i in
          let rest = find_group_from fuel parents (parent_of parents i) in
          rw e (
            subst (λ v. Represents (set rest.0 i v) root) (sym answer)
                (shortcut-Represents kept i (omega arith)),
            answer,
            length-set rest.0 i rest.1 ∙ size,
          )
    ]
