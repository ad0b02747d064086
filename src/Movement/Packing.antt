-- ===== src/Movement/Packing.antt =====
-- What the chunks of a movement batch of src/relay.rs hold.
use minecraft_team_viewer_ba.Movement.{
  entry_bytes, flush_movement_chunk, movement_batch, movement_chunk_max_bytes,
  movement_max_chunks_per_tick, overflows, pack,
}
use minecraft_team_viewer_ba.Prelude.{
  All, Bool-cases, List, [], ap, arith, false, inl, inr, leb, length, length-append, ltb, refl, sym,
  true, ℕ, ◌++◌, ◌+◌, ◌<◌, ◌∙◌, ◌∷◌, ◌≡◌, ◌≤◌, ◌⊎◌,
}

abbrev pub joined_chunks : {U : Type 0} → List (List U) → List U
joined_chunks [] = []
joined_chunks (chunk ∷ chunks) = chunk ++ joined_chunks chunks

append_assoc : {U : Type 0} (xs ys zs : List U) → (xs ++ ys) ++ zs ≡ xs ++ (ys ++ zs)
append_assoc [] ys zs = refl
append_assoc (x ∷ xs) ys zs = ap (λ r. x ∷ r) (append_assoc xs ys zs)

append_nil : {U : Type 0} (xs : List U) → xs ++ [] ≡ xs
append_nil [] = refl
append_nil (x ∷ xs) = ap (λ r. x ∷ r) (append_nil xs)

joined_chunks-append :
    {U : Type 0} (chunks others : List (List U))
    → joined_chunks (chunks ++ others) ≡ joined_chunks chunks ++ joined_chunks others
joined_chunks-append [] others = refl
joined_chunks-append (chunk ∷ chunks) others =
    ap (λ r. chunk ++ r) (joined_chunks-append chunks others)
    ∙ sym (append_assoc chunk (joined_chunks chunks) (joined_chunks others))

joined_chunks-flush :
    {U : Type 0} (current : List U) (chunks : List (List U))
    → joined_chunks (flush_movement_chunk current chunks) ≡ joined_chunks chunks ++ current
unfolding flush_movement_chunk
joined_chunks-flush [] chunks = sym (append_nil (joined_chunks chunks))
joined_chunks-flush (u ∷ current) chunks =
    joined_chunks-append chunks ((u ∷ current) ∷ [])
    ∙ ap (λ r. joined_chunks chunks ++ r) (append_nil (u ∷ current))

length-flush :
    {U : Type 0} (current : List U) (chunks : List (List U))
    → length (flush_movement_chunk current chunks) ≤ length chunks + 1
unfolding flush_movement_chunk
length-flush [] chunks = omega arith
length-flush (u ∷ current) chunks = omega (arith, length-append {0} chunks ((u ∷ current) ∷ []))

length-flush_cons :
    {U : Type 0} (u : U) (current : List U) (chunks : List (List U))
    → length (flush_movement_chunk (u ∷ current) chunks) ≡ length chunks + 1
unfolding flush_movement_chunk
length-flush_cons u current chunks = omega (arith, length-append {0} chunks ((u ∷ current) ∷ []))

All-append :
    {A : Type 0} (P : A → Type 0) (xs : List A) (y : A) → All P xs → P y → All P (xs ++ y ∷ [])
All-append P [] y h p = (p, tt)
All-append P (x ∷ xs) y h p = (h.0, All-append P xs y h.1 p)

-- A further upsert can be taken: a chunk can be begun, or the last one is.
abbrev HasRoom : ℕ → ℕ → Type 0
HasRoom begun chunks =
    (chunks < movement_max_chunks_per_tick)
    ⊎ ((0 < begun) × (chunks ≡ movement_max_chunks_per_tick))

too_many :
    {U : Type 0} (current : List U) (chunks : List (List U))
    → HasRoom (length current) (length chunks)
    → leb movement_max_chunks_per_tick (length chunks) ≡ true
    → ¬ (length (flush_movement_chunk current chunks) ≤ movement_max_chunks_per_tick)
too_many [] chunks h full small = ground arith
too_many (u ∷ current) chunks h full small = ground (arith, length-flush_cons u current chunks)

flush-HasRoom :
    {U : Type 0} (current : List U) (chunks : List (List U))
    → leb movement_max_chunks_per_tick (length chunks) ≡ false
    → HasRoom 1 (length (flush_movement_chunk current chunks))
flush-HasRoom current chunks room =
    elim (Bool-cases
      (ltb (length (flush_movement_chunk current chunks)) movement_max_chunks_per_tick)) [
        | inl e ↦ inl (ground arith)
        | inr e ↦ inr (omega arith, ground (arith, length-flush current chunks))
      ]

module _ {U : Type 0} (encoded_len : U → ℕ) where
  pub entries_bytes : List U → ℕ
  entries_bytes [] = 0
  entries_bytes (u ∷ us) = entry_bytes encoded_len u + entries_bytes us

  -- A chunk fits the budget, or is a single entry.
  abbrev pub IsBounded : List U → Type 0
  IsBounded chunk = (entries_bytes chunk ≤ movement_chunk_max_bytes) ⊎ (length chunk ≡ 1)

  entries_bytes-append :
      (us : List U) (u : U)
      → entries_bytes (us ++ u ∷ []) ≡ entries_bytes us + entry_bytes encoded_len u
  unfolding entries_bytes
  entries_bytes-append [] u = omega arith
  entries_bytes-append (v ∷ us) u = omega (arith, entries_bytes-append us u)

  flush-IsBounded :
      (current : List U) (chunks : List (List U))
      → All IsBounded chunks
      → IsBounded current
      → All IsBounded (flush_movement_chunk current chunks)
  unfolding flush_movement_chunk
  flush-IsBounded [] chunks h p = h
  flush-IsBounded (u ∷ current) chunks h p = All-append IsBounded chunks (u ∷ current) h p

  -- The next state of the loop when an upsert stays in its chunk.
  kept-IsBounded :
      (current : List U) (u : U) (bytes : ℕ)
      → bytes ≡ entries_bytes current
      → overflows encoded_len current bytes (entry_bytes encoded_len u) ≡ false
      → IsBounded (current ++ u ∷ [])
  unfolding overflows
  kept-IsBounded [] u bytes b h = inr refl
  kept-IsBounded (v ∷ current) u bytes b h =
      inl (ground (arith, entries_bytes-append (v ∷ current) u))

  pack-IsBounded :
      (us : List U) (chunks : List (List U)) (current : List U) (bytes : ℕ)
      → bytes ≡ entries_bytes current
      → All IsBounded chunks
      → IsBounded current
      → All IsBounded (pack encoded_len us chunks current bytes)
  unfolding pack entries_bytes
  pack-IsBounded [] chunks current bytes b h p = flush-IsBounded current chunks h p
  pack-IsBounded (u ∷ us) chunks current bytes b h p =
      elim (Bool-cases (leb movement_max_chunks_per_tick (length chunks))) [
        | inl full ↦ rw full (flush-IsBounded current chunks h p)
        | inr room ↦
            rw room
              (elim (Bool-cases (overflows encoded_len current bytes (entry_bytes encoded_len u))) [
                | inl over ↦ rw over (
                    pack-IsBounded us (flush_movement_chunk current chunks) (u ∷ [])
                      (entry_bytes encoded_len u) (omega arith) (flush-IsBounded current chunks h p)
                      (inr refl))
                | inr fits ↦ rw fits (
                    pack-IsBounded us chunks (current ++ u ∷ []) (bytes + entry_bytes encoded_len u)
                      (omega (arith, b, entries_bytes-append current u)) h
                      (kept-IsBounded current u bytes b fits))
              ])
      ]

  pack-le :
      (us : List U) (chunks : List (List U)) (current : List U) (bytes : ℕ)
      → length chunks ≤ movement_max_chunks_per_tick
      → length (pack encoded_len us chunks current bytes) ≤ movement_max_chunks_per_tick + 1
  unfolding pack
  pack-le [] chunks current bytes h = omega (arith, length-flush current chunks)
  pack-le (u ∷ us) chunks current bytes h =
      elim (Bool-cases (leb movement_max_chunks_per_tick (length chunks))) [
        | inl full ↦ rw full (omega (arith, length-flush current chunks))
        | inr room ↦
            rw room
              (elim (Bool-cases (overflows encoded_len current bytes (entry_bytes encoded_len u))) [
                | inl over ↦ rw over (
                    pack-le us (flush_movement_chunk current chunks) (u ∷ [])
                      (entry_bytes encoded_len u) (ground (arith, length-flush current chunks)))
                | inr fits ↦
                    rw fits
                      (pack-le us chunks (current ++ u ∷ []) (bytes + entry_bytes encoded_len u) h)
              ])
      ]

  -- A batch has at most 17 chunks, one more than the limit, since the last one is flushed after the
  -- loop. In each of them the entries, counted as their encoded length and 4 bytes more, come to at most
  -- 1024 bytes, or there is a single entry. The envelope that is encoded around the entries of a chunk is
  -- not counted.
  pub movement_batch-IsBounded :
      (us : List U)
      → (length (movement_batch encoded_len us) ≤ movement_max_chunks_per_tick + 1)
        × All IsBounded (movement_batch encoded_len us)
  unfolding movement_batch entries_bytes
  movement_batch-IsBounded us =
      (pack-le us [] [] 0 (omega arith), pack-IsBounded us [] [] 0 refl tt (inl (omega arith)))

  -- While a chunk can be begun or is, the loop leaves nothing out, unless it ends with 17 chunks.
  pack_complete :
      (us : List U) (chunks : List (List U)) (current : List U) (bytes : ℕ)
      → HasRoom (length current) (length chunks)
      → length (pack encoded_len us chunks current bytes) ≤ movement_max_chunks_per_tick
      → joined_chunks (pack encoded_len us chunks current bytes)
        ≡ joined_chunks chunks ++ (current ++ us)
  unfolding pack
  pack_complete [] chunks current bytes h = λ small.
      joined_chunks-flush current chunks
      ∙ ap (λ r. joined_chunks chunks ++ r) (sym (append_nil current))
  pack_complete (u ∷ us) chunks current bytes h =
      elim (Bool-cases (leb movement_max_chunks_per_tick (length chunks))) [
        | inl full ↦ rw full (λ small. absurd (too_many current chunks h full small))
        | inr room ↦
            rw room
              (elim (Bool-cases (overflows encoded_len current bytes (entry_bytes encoded_len u))) [
                | inl over ↦ rw over (λ small.
                    pack_complete us (flush_movement_chunk current chunks) (u ∷ [])
                      (entry_bytes encoded_len u) (flush-HasRoom current chunks room) small
                    ∙ ap (λ r. r ++ (u ∷ us)) (joined_chunks-flush current chunks)
                    ∙ append_assoc (joined_chunks chunks) current (u ∷ us))
                | inr fits ↦ rw fits (λ small.
                    pack_complete us chunks (current ++ u ∷ []) (bytes + entry_bytes encoded_len u)
                      (inl (ground arith)) small
                    ∙ ap (λ r. joined_chunks chunks ++ r) (append_assoc current (u ∷ []) us))
              ])
      ]

  -- A batch of at most 16 chunks holds every upsert, in order and once.
  pub movement_batch_complete :
      (us : List U)
      → length (movement_batch encoded_len us) ≤ movement_max_chunks_per_tick
      → joined_chunks (movement_batch encoded_len us) ≡ us
  unfolding movement_batch
  movement_batch_complete us = pack_complete us [] [] 0 (inl (omega arith))
