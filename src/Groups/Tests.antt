-- ===== src/Groups/Tests.antt =====
-- A run of the grouping loops of src/relay.rs, and the theorem at it.
use minecraft_team_viewer_ba.Groups.Connected.{
  Connected, find_group-Connected, find_group_terminates,
}
use minecraft_team_viewer_ba.Prelude.{
  Bool, [], arith, refl, ℕ, ◌&&◌, ◌==◌, ◌||◌, ◌↔◌, ◌∷◌, ◌≡◌, ◌≤◌,
}
use minecraft_team_viewer_ba.Groups.{
  find_group, find_group_from, join_roots, link_lefts, link_rights, linked, parent_of, union_groups,
}

-- The identities of four sources overlap as 0 with 2 and 2 with 3.
abbrev overlapping : ℕ → ℕ → Bool
overlapping i j = (i == 0 && j == 2) || (i == 2 && j == 3)

two_groups : (linked overlapping 4) ≡ 0 ∷ 1 ∷ 0 ∷ 0 ∷ []
unfolding linked link_lefts link_rights union_groups join_roots find_group find_group_from parent_of
two_groups = refl

find_group-Connected_example :
    ((find_group (linked overlapping 4) 0).1 ≡ (find_group (linked overlapping 4) 3).1)
    ↔ Connected overlapping 4 0 3
find_group-Connected_example = find_group-Connected overlapping 4 0 3 (omega arith) (omega arith)

find_group_terminates_example :
    let parents = linked overlapping 4 in
    let found = (find_group_from 9 parents 3).1 in
    (parent_of parents found ≡ found) × (found ≤ 3) × (found ≡ (find_group parents 3).1)
find_group_terminates_example = find_group_terminates overlapping 4 3 9 (omega arith) (omega arith)
