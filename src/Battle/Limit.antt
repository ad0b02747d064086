-- ===== src/Battle/Limit.antt =====
-- `BattleRoomCache` of src/relay.rs stays within `max_entries` after every call.
use minecraft_team_viewer_ba.Battle.Bounds.{evict-IsCovered, evict-le, expire_rule}
use minecraft_team_viewer_ba.Battle.History.{Operation, cleans, limit, run, step, upserts}
use minecraft_team_viewer_ba.Prelude.{
  Bool-cases, List, Member, Option-cases, [], arith, inl, inr, length, refl, some, true, ℕ, ◌%◌,
  ◌++◌, ◌==◌, ◌∷◌, ◌≡◌, ◌≤◌, ◌⊎◌,
}
use minecraft_team_viewer_ba.Prelude.Map.{Set, lookup, lookup-insert_inv}
use minecraft_team_viewer_ba.Battle.Types.{
  BattleCacheKey, BattleChunkEntry, BattleChunkValue, BattleExpiryBatch, BattleRoomCache,
  CachedBattleChunk, battle_key_order,
}
use minecraft_team_viewer_ba.Battle.Cache.{
  Pending, UpsertState, admitted, empty_cache, is_current, store, upsert_entries, upsert_entry,
  wrapping_next,
}
use minecraft_team_viewer_ba.Battle.Update.{
  cleanup, evict_to_limit, expire, prune_periodically, prune_stale_indexes, pruned_expiry, queued,
  record_changes, recorded, retain_current, started, stored, upsert, upserted,
}
use minecraft_team_viewer_ba.Battle.Covered.{
  Covered, Covered-keep_nonempty, IsCovered, pop_expiry_batch-IsCovered,
}

-- While a report is stored, an entry is covered by the queue or by the report's own batch.
abbrev CoversNew : ℕ → List BattleExpiryBatch → UpsertState → Type 0
CoversNew g expiry s =
    (k : BattleCacheKey) (e : CachedBattleChunk)
    → lookup k s.entries ≡ some e
    → Covered k e.generation expiry ⊎ ((g ≡ e.generation) × Member k s.expiry_keys)

Member-append_left : {A : Type 0} (a : A) (xs ys : List A) → Member a xs → Member a (xs ++ ys)
Member-append_left a [] ys m = absurd m
Member-append_left a (x ∷ xs) ys (inl e) = inl e
Member-append_left a (x ∷ xs) ys (inr m) = inr (Member-append_left a xs ys m)

Member-append_last : {A : Type 0} (a : A) (xs : List A) → Member a (xs ++ a ∷ [])
Member-append_last a [] = inl refl
Member-append_last a (x ∷ xs) = inr (Member-append_last a xs)

store-CoversNew :
    (g : ℕ) (expiry : List BattleExpiryBatch) (s : UpsertState) (key : BattleCacheKey)
    (value : BattleChunkValue)
    → CoversNew g expiry s
    → CoversNew g expiry (store g s key value)
unfolding store
store-CoversNew g expiry s key value h k e found = ground (
  arith,
  lookup-insert_inv key k (record { value = value; generation = g }) e s.entries,
  h k e,
  Member-append_left k s.expiry_keys (key ∷ []),
  Member-append_last key s.expiry_keys,
)

upsert_entry-CoversNew :
    (g : ℕ) (expiry : List BattleExpiryBatch) (s : UpsertState) (entry : BattleChunkEntry)
    → CoversNew g expiry s
    → CoversNew g expiry (upsert_entry g s entry)
unfolding upsert_entry
upsert_entry-CoversNew g expiry s entry h = elim (Option-cases (admitted entry)) [
  | inl e ↦ rw (e, upsert_entry) h
  | inr ((key, value), e) ↦ rw (e, upsert_entry) (store-CoversNew g expiry s key value h)
]

upsert_entries-CoversNew :
    (g : ℕ) (expiry : List BattleExpiryBatch) (s : UpsertState) (entries : List BattleChunkEntry)
    → CoversNew g expiry s
    → CoversNew g expiry (upsert_entries g s entries)
unfolding upsert_entries
upsert_entries-CoversNew g expiry s [] h = h
upsert_entries-CoversNew g expiry s (entry ∷ rest) h =
    upsert_entries-CoversNew g expiry (upsert_entry g s entry) rest
      (upsert_entry-CoversNew g expiry s entry h)

Covered-append_left :
    (k : BattleCacheKey) (g : ℕ) (xs ys : List BattleExpiryBatch)
    → Covered k g xs
    → Covered k g (xs ++ ys)
Covered-append_left k g [] ys m = absurd m
Covered-append_left k g (x ∷ xs) ys (inl e) = inl e
Covered-append_left k g (x ∷ xs) ys (inr m) = inr (Covered-append_left k g xs ys m)

Covered-append_last :
    (k : BattleCacheKey) (xs : List BattleExpiryBatch) (b : BattleExpiryBatch)
    → Member k b.keys
    → Covered k b.generation (xs ++ b ∷ [])
Covered-append_last k [] b m = inl (refl, m)
Covered-append_last k (x ∷ xs) b m = inr (Covered-append_last k xs b m)

queued-Covered :
    (k : BattleCacheKey) (g : ℕ) (expiry : List BattleExpiryBatch) (received_at generation : ℕ)
    (keys : List BattleCacheKey)
    → Covered k g expiry ⊎ ((generation ≡ g) × Member k keys)
    → Covered k g (queued expiry received_at generation keys)
unfolding queued
queued-Covered k g expiry received_at generation [] (inl h) = h
queued-Covered k g expiry received_at generation [] (inr h) = absurd h.1
queued-Covered k g expiry received_at generation (key ∷ keys) (inl h) =
    Covered-append_left k g expiry _ h
queued-Covered k g expiry received_at generation (key ∷ keys) (inr (e, m)) =
    rw (← e) (Covered-append_last k expiry _ m)

upserted-IsCovered :
    (c : BattleRoomCache) (entries : List BattleChunkEntry) (received_at : ℕ)
    → IsCovered c
    → IsCovered (upserted c entries received_at).cache
unfolding upserted stored started
upserted-IsCovered c entries received_at h =
    let g = wrapping_next c.next_generation in
    let s = upsert_entries g (started c) entries in
    λ k e found. queued-Covered k e.generation c.expiry received_at g s.expiry_keys (
      upsert_entries-CoversNew g c.expiry (started c) entries (λ j d found. inl (h j d found)) k e
        found)

retain_current-Member :
    (c : BattleRoomCache) (k : BattleCacheKey) (g : ℕ) (keys : List BattleCacheKey)
    → is_current c k g ≡ true
    → Member k keys
    → Member k (retain_current c g keys)
unfolding retain_current
retain_current-Member c k g [] h m = absurd m
retain_current-Member c k g (key ∷ keys) h m = ground (arith, retain_current-Member c k g keys h)

pruned_expiry-Covered :
    (c : BattleRoomCache) (k : BattleCacheKey) (g : ℕ) (expiry : List BattleExpiryBatch)
    → is_current c k g ≡ true
    → Covered k g expiry
    → Covered k g (pruned_expiry c expiry)
unfolding pruned_expiry
pruned_expiry-Covered c k g [] h m = absurd m
pruned_expiry-Covered c k g (b ∷ rest) h m =
    Covered-keep_nonempty k g b (retain_current c b.generation b.keys) (pruned_expiry c rest)
      (elim m [
        | inl (e, held) ↦ inl (e, retain_current-Member c k b.generation b.keys (rw e h) held)
        | inr later ↦ inr (pruned_expiry-Covered c k g rest h later)
      ])

is_current-lookup :
    (c : BattleRoomCache) (k : BattleCacheKey) (e : CachedBattleChunk)
    → lookup k c.entries ≡ some e
    → is_current c k e.generation ≡ true
unfolding is_current
is_current-lookup c k e h = ground arith

pub prune-IsCovered : (c : BattleRoomCache) → IsCovered c → IsCovered (prune_stale_indexes c)
unfolding prune_stale_indexes
prune-IsCovered c h k e found =
    pruned_expiry-Covered c k e.generation c.expiry (is_current-lookup c k e found) (h k e found)

-- `record_changes` only writes the change log.
recorded-keeps :
    (changed : Set BattleCacheKey) (c : BattleRoomCache)
    → ((record_changes changed c).0.entries ≡ c.entries)
      × ((record_changes changed c).0.expiry ≡ c.expiry)
unfolding record_changes
recorded-keeps [] c = (refl, refl)
recorded-keeps (e ∷ rest) c = (refl, refl)

-- What each call leaves behind: a covered cache within the call's limit.
abbrev Settled : ℕ → BattleRoomCache → Type 0
Settled max_entries c = IsCovered c × (length c.entries ≤ max_entries)

recorded-Settled :
    (max_entries : ℕ) (p : Pending)
    → IsCovered p.cache
    → Settled max_entries (recorded (evict_to_limit max_entries p)).0
unfolding recorded
recorded-Settled max_entries p h =
    let q = evict_to_limit max_entries p in
    let (same_entries, same_expiry) = recorded-keeps q.changed q.cache in
    rw (same_entries, same_expiry) (evict-IsCovered max_entries p h, evict-le max_entries p h)

prune_periodically-Settled :
    (max_entries generation : ℕ) (c : BattleRoomCache)
    → Settled max_entries c
    → Settled max_entries (prune_periodically generation c)
unfolding prune_periodically prune_stale_indexes
prune_periodically-Settled max_entries generation c h = elim (Bool-cases (generation % 64 == 0)) [
  | inl e ↦ rw e (prune-IsCovered c h.0, h.1)
  | inr e ↦ rw e h
]

pub step-Settled :
    (c : BattleRoomCache) (op : Operation) → IsCovered c → Settled (limit op) (step c op)
unfolding step upsert cleanup
step-Settled c (upserts entries received_at max_entries) h =
    prune_periodically-Settled max_entries (wrapping_next c.next_generation) _ (
      recorded-Settled max_entries (upserted c entries received_at)
        (upserted-IsCovered c entries received_at h))
step-Settled c (cleans now retention max_entries) h =
    let start : Pending = record { cache = c; changed = [] } in
    let expired =
      expire_rule (λ q. IsCovered q.cache) now retention start
        (λ q inv _. pop_expiry_batch-IsCovered q inv) h in
    recorded-Settled max_entries (expire now retention start) expired.0

run-IsCovered : (c : BattleRoomCache) (ops : List Operation) → IsCovered c → IsCovered (run c ops)
unfolding run
run-IsCovered c [] h = h
run-IsCovered c (op ∷ ops) h = run-IsCovered (step c op) ops (step-Settled c op h).0

empty-IsCovered : IsCovered empty_cache
unfolding empty_cache lookup
empty-IsCovered k e found = ground arith

-- After any history of a room's cache, a further call leaves at most its limit of cached chunks.
pub step-le_limit :
    (ops : List Operation) (op : Operation)
    → length (step (run empty_cache ops) op).entries ≤ limit op
step-le_limit ops op =
    (step-Settled (run empty_cache ops) op (run-IsCovered empty_cache ops empty-IsCovered)).1
