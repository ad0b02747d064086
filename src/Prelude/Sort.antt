-- ===== src/Prelude/Sort.antt =====
-- The stable sort of Rust's standard library, as insertion.
use minecraft_team_viewer_ba.Prelude.{Bool, List, [], if◌then◌else◌, ◌∷◌}

module _ {A : Type 0} (is_less : A → A → Bool) where
  -- In front of the first that is not less.
  unfoldable pub insert_sorted : A → List A → List A
  insert_sorted x [] = x ∷ []
  insert_sorted x (y ∷ ys) =
      let rest = insert_sorted x ys in if is_less y x then y ∷ rest else x ∷ y ∷ ys

  unfoldable pub sort : List A → List A
  unfolding insert_sorted
  sort [] = []
  sort (x ∷ xs) = insert_sorted x (sort xs)
