-- ===== src/Movement.antt =====
-- The movement batches of src/relay.rs: player upserts packed into datagrams. The encoded length of an
-- upsert is the protobuf library's, so it is a parameter, and a chunk is the list of its upserts.
pub mod Packing
pub mod Tests
use minecraft_team_viewer_ba.Prelude.{
  Bool, List, [], false, if◌then◌else◌, leb, length, ltb, ℕ, ◌++◌, ◌+◌, ◌∷◌,
}

abbrev pub movement_chunk_max_bytes : ℕ
movement_chunk_max_bytes = 1024

abbrev pub movement_max_chunks_per_tick : ℕ
movement_max_chunks_per_tick = 16

unfoldable pub flush_movement_chunk : {U : Type 0} → List U → List (List U) → List (List U)
flush_movement_chunk [] chunks = chunks
flush_movement_chunk (upsert ∷ current) chunks = chunks ++ (upsert ∷ current) ∷ []

module _ {U : Type 0} (encoded_len : U → ℕ) where
  -- 4 is the margin for the tag and the length in front of an entry.
  abbrev pub entry_bytes : U → ℕ
  entry_bytes upsert = encoded_len upsert + 4

  unfoldable pub overflows : List U → ℕ → ℕ → Bool
  overflows [] current_bytes entry = false
  overflows (upsert ∷ current) current_bytes entry =
      ltb movement_chunk_max_bytes (current_bytes + entry)

  -- The loop over the upserts in the order of their ids.
  unfoldable pub pack : List U → List (List U) → List U → ℕ → List (List U)
  pack [] chunks current current_bytes = flush_movement_chunk current chunks
  pack (upsert ∷ upserts) chunks current current_bytes =
      let entry = entry_bytes upsert in
      let flushed = pack upserts (flush_movement_chunk current chunks) (upsert ∷ []) entry in
      let kept = pack upserts chunks (current ++ upsert ∷ []) (current_bytes + entry) in
      if leb movement_max_chunks_per_tick (length chunks)
      then flush_movement_chunk current chunks
      else if overflows current current_bytes entry
      then flushed
      else kept

  unfoldable pub movement_batch : List U → List (List U)
  movement_batch upserts = pack upserts [] [] 0
