-- ===== src/Groups.antt =====
-- `find_group` and `union_groups` of src/relay.rs, and the loops of `same_server_grouping` that join
-- two sources with an identity in common. A `Vec` of parents is a list; every index that the loops use
-- is below its length, where `parents[index]` does not panic.
pub mod Tests
pub mod Roots
pub mod Union
pub mod Connected
use minecraft_team_viewer_ba.Prelude.{
  Bool, List, get_elem?, if◌then◌else◌, ltb, range, set, suc, unwrap_or, zero, ℕ, ◌-◌, ◌==◌,
}

unfoldable pub parent_of : List ℕ → ℕ → ℕ
parent_of parents index = unwrap_or (get_elem? parents index) index

-- The fuel is more than the index: a parent that is not the index itself is below it.
unfoldable pub find_group_from : ℕ → List ℕ → ℕ → List ℕ × ℕ
find_group_from zero parents index = (parents, index)
find_group_from (suc fuel) parents index =
    let found = find_group_from fuel parents (parent_of parents index) in
    if parent_of parents index == index
    then (parents, index)
    else (set found.0 index found.1, found.1)

unfoldable pub find_group : List ℕ → ℕ → List ℕ × ℕ
find_group parents index = find_group_from (suc index) parents index

-- Which root becomes the child of which.
unfoldable pub join_roots : List ℕ → ℕ → ℕ → List ℕ
join_roots parents left_root right_root =
    if left_root == right_root
    then parents
    else if ltb left_root right_root
    then set parents right_root left_root
    else set parents left_root right_root

unfoldable pub union_groups : List ℕ → ℕ → ℕ → List ℕ
unfolding find_group join_roots
union_groups parents left right =
    let l = find_group parents left in let r = find_group l.0 right in join_roots r.0 l.1 r.1

module _ (overlaps : ℕ → ℕ → Bool) where
  -- `for right in (left + 1)..n`, with the number of rounds left.
  unfoldable pub link_rights : ℕ → ℕ → ℕ → List ℕ → List ℕ
  link_rights left zero right parents = parents
  link_rights left (suc rounds) right parents =
      link_rights left rounds (suc right)
        (if overlaps left right then union_groups parents left right else parents)

  -- `for left in 0..n`
  unfoldable pub link_lefts : ℕ → ℕ → ℕ → List ℕ → List ℕ
  unfolding link_rights
  link_lefts n zero left parents = parents
  link_lefts n (suc rounds) left parents =
      link_lefts n rounds (suc left) (link_rights left (n - suc left) (suc left) parents)

  -- `(0..n).collect()`, then both loops.
  unfoldable pub linked : ℕ → List ℕ
  unfolding link_lefts
  linked n = link_lefts n n 0 (range 0 n)
