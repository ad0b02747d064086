-- ===== src/Groups/Union.antt =====
-- `union_groups` of src/relay.rs gives the roots of its two indices the lower of them as their root.
use minecraft_team_viewer_ba.Groups.{find_group, join_roots, union_groups}
use minecraft_team_viewer_ba.Groups.Roots.{
  Represents, find_group_from-Represents, parent_of-set, root_idem, root-le,
}
use minecraft_team_viewer_ba.Prelude.{
  Bool-cases, List, arith, if◌then◌else◌, inl, inr, length, length-set, ltb, refl, set, subst, suc,
  sym, ℕ, ◌<◌, ◌==◌, ◌∙◌, ◌≡◌, ◌⊎◌,
}

-- The roots once `high` is a child of `low`.
abbrev pub merged : (ℕ → ℕ) → ℕ → ℕ → ℕ → ℕ
merged root low high i = if root i == high then low else root i

join-Represents :
    (parents : List ℕ) (root : ℕ → ℕ) (low high : ℕ)
    → Represents parents root
    → low < high
    → high < length parents
    → root low ≡ low
    → root high ≡ high
    → Represents (set parents high low) (merged root low high)
join-Represents parents root low high r lt within l h = record {
  below = λ i. ground (arith, parent_of-set parents high i low within, r.below i);
  same = λ i. ground (arith, parent_of-set parents high i low within, r.same i);
  fixed = λ i e. ground (arith, parent_of-set parents high i low within, r.fixed i);
}

-- What `union_groups` leaves: a forest whose roots are those before, the two given ones made one.
pub record IsUnion (root : ℕ → ℕ) (left right : ℕ) (parents after : List ℕ) (root' : ℕ → ℕ)
    : Type 0 where
  pub represents : Represents after root'
  pub size : length after ≡ length parents
  pub joined : root' left ≡ root' right
  pub kept : (i j : ℕ) → root i ≡ root j → root' i ≡ root' j
  pub sound :
      (i j : ℕ)
      → root' i ≡ root' j
      → (root i ≡ root j)
        ⊎ ((root i ≡ root left) × (root j ≡ root right))
        ⊎ ((root i ≡ root right) × (root j ≡ root left))

join_roots-IsUnion :
    (parents : List ℕ) (root : ℕ → ℕ) (left right : ℕ)
    → Represents parents root
    → left < length parents
    → right < length parents
    → (root' : ℕ → ℕ) × IsUnion root left right parents
        (join_roots parents (root left) (root right))
        root'
unfolding join_roots
join_roots-IsUnion parents root left right r l h =
    let l_low = root-le r left in
    let r_low = root-le r right in
    let l_idem = root_idem r left in
    let r_idem = root_idem r right in
    elim (Bool-cases (root left == root right)) [
      | inl e ↦ (
        root,
        rw e (record {
          represents = r;
          size = refl;
          joined = ground arith;
          kept = λ i j same. same;
          sound = λ i j same. inl same;
        }),
      )
      | inr e ↦ elim (Bool-cases (ltb (root left) (root right))) [
        | inl e' ↦ (
          merged root (root left) (root right),
          rw (e, e')
              (record {
                represents =
                    join-Represents parents root (root left) (root right) r (ground arith)
                      (omega arith) l_idem r_idem;
                size = length-set parents (root right) (root left);
                joined = ground arith;
                kept = λ i j same. ground arith;
                sound = λ i j same. ground arith;
              }),
        )
        | inr e' ↦ (
          merged root (root right) (root left),
          rw (e, e')
              (record {
                represents =
                    join-Represents parents root (root right) (root left) r (ground arith)
                      (omega arith) r_idem l_idem;
                size = length-set parents (root left) (root right);
                joined = ground arith;
                kept = λ i j same. ground arith;
                sound = λ i j same. ground arith;
              }),
        )
      ]
    ]

resized :
    {root root' : ℕ → ℕ} {left right : ℕ} {parents parents' after : List ℕ}
    → length parents' ≡ length parents
    → IsUnion root left right parents' after root'
    → IsUnion root left right parents after root'
resized same u = record {
  represents = u.represents;
  size = u.size ∙ same;
  joined = u.joined;
  kept = u.kept;
  sound = u.sound;
}

pub union_groups-IsUnion :
    (parents : List ℕ) (root : ℕ → ℕ) (left right : ℕ)
    → Represents parents root
    → left < length parents
    → right < length parents
    → (root' : ℕ → ℕ) × IsUnion root left right parents (union_groups parents left right) root'
unfolding union_groups find_group
union_groups-IsUnion parents root left right r l h =
    let first = find_group parents left in
    let second = find_group first.0 right in
    let (r1, found, size) =
      find_group_from-Represents root (suc left) parents left r (omega arith) l in
    let (r2, found', size') =
      find_group_from-Represents root (suc right) first.0 right r1 (omega arith) (omega arith) in
    let (root', union) =
      join_roots-IsUnion second.0 root left right r2 (omega arith) (omega arith) in
    (
      root',
      subst (λ v. IsUnion root left right parents (join_roots second.0 v second.1) root')
          (sym found)
          (subst (λ v. IsUnion root left right parents (join_roots second.0 (root left) v) root')
            (sym found') (resized (size' ∙ size) union)),
    )
