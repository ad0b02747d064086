-- ===== src/Battle/Update.antt =====
-- `BattleRoomCache::upsert` and `cleanup` of src/relay.rs, with the loops that they run.
use minecraft_team_viewer_ba.Prelude.{
  Bool, List, [], false, if◌then◌else◌, length, ltb, map, not, suc, true, ℕ, ◌%◌, ◌&&◌, ◌++◌, ◌+◌,
  ◌-◌, ◌==◌, ◌||◌, ◌∷◌,
}
use minecraft_team_viewer_ba.Prelude.Map.{Set}
use minecraft_team_viewer_ba.Prelude.Loop.{while}
use minecraft_team_viewer_ba.Battle.Types.{
  BattleCacheKey, BattleChangeBatch, BattleChunkEntry, BattleExpiryBatch, BattleRoomCache,
  battle_key_order,
}
use minecraft_team_viewer_ba.Battle.Cache.{
  Pending, UpsertState, is_current, keep_nonempty, max_change_batches, max_change_operations,
  pop_expiry_batch, pop_oldest_key, saturating_add, upsert_entries, wrapping_next,
}

-- The pops left in the expiry queue: one for each key, and one for each batch.
unfoldable pub pending_pops : List BattleExpiryBatch → ℕ
pending_pops [] = 0
pending_pops (batch ∷ rest) = suc (length batch.keys) + pending_pops rest

unfoldable pub is_empty : {A : Type 0} → List A → Bool
is_empty [] = true
is_empty (x ∷ xs) = false

unfoldable pub over_limit : ℕ → Pending → Bool
unfolding is_empty
over_limit max_entries p = ltb max_entries (length p.cache.entries) && not (is_empty p.cache.expiry)

-- The fuel is one more than the pops left, so the loop ends by its test.
unfoldable pub evict_to_limit : ℕ → Pending → Pending
unfolding pending_pops over_limit pop_oldest_key while
evict_to_limit max_entries p =
    while (suc (pending_pops p.cache.expiry)) (over_limit max_entries) pop_oldest_key p

-- The test of the loop of `cleanup`: the front batch is older than the retention.
unfoldable pub front_expired : ℕ → ℕ → Pending → Bool
front_expired now retention p = elim p.cache.expiry [
  | [] ↦ false
  | batch ∷ rest ↦ ltb retention (now - batch.received_at)
]

-- Each round pops one batch.
unfoldable pub expire : ℕ → ℕ → Pending → Pending
unfolding front_expired pop_expiry_batch while
expire now retention p =
    while (suc (length p.cache.expiry)) (front_expired now retention) pop_expiry_batch p

abbrev pub set_keys : {K : Type 0} → Set K → List K
set_keys = map (λ e. e.0)

abbrev pub over_changes : List BattleChangeBatch → ℕ → Bool
over_changes changes operations =
    ltb max_change_batches (length changes) || ltb max_change_operations operations

-- The `while` loop of `record_changes` over `changes` and `change_operations`.
unfoldable pub trim_changes : List BattleChangeBatch → ℕ → List BattleChangeBatch × ℕ
trim_changes [] operations = ([], operations)
trim_changes (batch ∷ rest) operations =
    let trimmed = trim_changes rest (operations - length batch.keys) in
    if over_changes (batch ∷ rest) operations then trimmed else (batch ∷ rest, operations)

-- `record_changes` for a set that is not empty.
unfoldable pub push_changes : List BattleCacheKey → BattleRoomCache → BattleRoomCache
unfolding trim_changes wrapping_next saturating_add
push_changes keys cache =
    let revision = wrapping_next cache.revision in
    let trimmed =
      trim_changes (cache.changes ++ record { revision = revision; keys = keys } ∷ [])
        (saturating_add cache.change_operations (length keys)) in
    record cache { revision = revision; changes = trimmed.0; change_operations = trimmed.1 }

unfoldable pub record_changes : Set BattleCacheKey → BattleRoomCache → BattleRoomCache × Bool
unfolding push_changes
record_changes [] cache = (cache, false)
record_changes (e ∷ rest) cache = (push_changes (set_keys (e ∷ rest)) cache, true)

-- `keys.retain(..)`: the keys whose entry still has the batch's generation.
unfoldable pub retain_current : BattleRoomCache → ℕ → List BattleCacheKey → List BattleCacheKey
unfolding is_current
retain_current cache generation [] = []
retain_current cache generation (key ∷ keys) =
    let rest = retain_current cache generation keys in
    if is_current cache key generation then key ∷ rest else rest

unfoldable pub pruned_expiry : BattleRoomCache → List BattleExpiryBatch → List BattleExpiryBatch
unfolding retain_current keep_nonempty
pruned_expiry cache [] = []
pruned_expiry cache (batch ∷ rest) =
    keep_nonempty batch (retain_current cache batch.generation batch.keys)
      (pruned_expiry cache rest)

unfoldable pub prune_stale_indexes : BattleRoomCache → BattleRoomCache
unfolding pruned_expiry
prune_stale_indexes cache = record cache { expiry = pruned_expiry cache cache.expiry }

-- The queue once the keys of a report are pushed on it as one batch, if there are any.
unfoldable pub queued :
    List BattleExpiryBatch → ℕ → ℕ → List BattleCacheKey → List BattleExpiryBatch
queued expiry received_at generation [] = expiry
queued expiry received_at generation (key ∷ keys) =
    expiry ++ record { received_at = received_at; generation = generation; keys = key ∷ keys } ∷ []

-- The cache once the entries of a report are stored and their batch is queued.
unfoldable pub stored : BattleRoomCache → UpsertState → ℕ → Pending
stored cache s received_at = record {
  cache = record cache {
    entries = s.entries;
    next_generation = wrapping_next cache.next_generation;
    expiry = queued cache.expiry received_at (wrapping_next cache.next_generation) s.expiry_keys;
  };
  changed = s.changed;
}

unfoldable pub started : BattleRoomCache → UpsertState
started cache = record { entries = cache.entries; expiry_keys = []; changed = [] }

-- `record_changes` at the end of `upsert` and `cleanup`.
unfoldable pub recorded : Pending → BattleRoomCache × Bool
recorded p = record_changes p.changed p.cache

unfoldable pub upserted : BattleRoomCache → List BattleChunkEntry → ℕ → Pending
upserted cache entries received_at =
    stored cache (upsert_entries (wrapping_next cache.next_generation) (started cache) entries)
      received_at

-- `upsert` prunes the queue in every 64th generation.
unfoldable pub prune_periodically : ℕ → BattleRoomCache → BattleRoomCache
prune_periodically generation cache =
    if generation % 64 == 0 then prune_stale_indexes cache else cache

unfoldable pub upsert : BattleRoomCache → List BattleChunkEntry → ℕ → ℕ → BattleRoomCache × Bool
upsert cache entries received_at max_entries =
    let (cache', changed) =
      recorded (evict_to_limit max_entries (upserted cache entries received_at)) in
    (prune_periodically (wrapping_next cache.next_generation) cache', changed)

unfoldable pub cleanup : BattleRoomCache → ℕ → ℕ → ℕ → BattleRoomCache × Bool
cleanup cache now retention max_entries =
    recorded
      (evict_to_limit max_entries (expire now retention (record { cache = cache; changed = [] })))
