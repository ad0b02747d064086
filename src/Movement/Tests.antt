-- ===== src/Movement/Tests.antt =====
-- Runs of the movement packing of src/relay.rs, and its theorems at them.
use minecraft_team_viewer_ba.Movement.{flush_movement_chunk, movement_batch, overflows, pack}
use minecraft_team_viewer_ba.Movement.Packing.{
  IsBounded, joined_chunks, movement_batch-IsBounded, movement_batch_complete,
}
use minecraft_team_viewer_ba.Prelude.{
  All, List, [], arith, length, refl, suc, zero, ℕ, ◌∷◌, ◌≡◌, ◌≤◌,
}

-- An upsert stands for its encoded length here.
abbrev sized : ℕ → ℕ
sized n = n

abbrev large : ℕ → List ℕ
large zero = []
large (suc n) = 600 ∷ large n

packing :
    movement_batch sized (500 ∷ 400 ∷ 200 ∷ 2000 ∷ [])
    ≡ (500 ∷ 400 ∷ []) ∷ (200 ∷ []) ∷ (2000 ∷ []) ∷ []
unfolding movement_batch pack overflows flush_movement_chunk
packing = refl

-- 18 large upserts leave 17 chunks, one more than the limit for a tick.
seventeen_chunks : length (movement_batch sized (large 18)) ≡ 17
unfolding movement_batch pack overflows flush_movement_chunk
seventeen_chunks = refl

movement_batch-IsBounded_example :
    (length (movement_batch sized (large 18)) ≤ 17)
    × All (IsBounded sized) (movement_batch sized (large 18))
movement_batch-IsBounded_example = movement_batch-IsBounded sized (large 18)

abbrev few : List ℕ
few = 500 ∷ 400 ∷ 200 ∷ []

few_chunks : length (movement_batch sized few) ≤ 16
unfolding movement_batch pack overflows flush_movement_chunk
few_chunks = omega arith

movement_batch_complete_example : joined_chunks (movement_batch sized few) ≡ few
movement_batch_complete_example = movement_batch_complete sized few few_chunks
