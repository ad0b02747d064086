-- ===== src/Battle/Cache.antt =====
-- `impl BattleRoomCache` of src/relay.rs: upsert, cleanup and their loops, the full expansion and the
-- patch since a delivered revision. The `Cell` counters of the debug build are left out, and so are the
-- interners, which only share allocations.
use minecraft_team_viewer_ba.Prelude.{
  Bool, List, Option, [], false, if◌then◌else◌, ite, max, min, none, some, true, ℕ, ◌%◌, ◌++◌, ◌+◌,
  ◌==◌, ◌∷◌,
}
use minecraft_team_viewer_ba.Prelude.Map.{Map, Set, insert, lookup, remove}
use minecraft_team_viewer_ba.Prelude.Text.{Text, Text-discrete, nat_key, text_key, trim}
use minecraft_team_viewer_ba.Battle.Types.{
  BattleCacheKey, BattleChunkEntry, BattleChunkRef, BattleChunkValue, BattleChunkValue-discrete,
  BattleExpiryBatch, BattleRoomCache, CachedBattleChunk, battle_key_order,
}

abbrev pub max_change_batches : ℕ
max_change_batches = 256

abbrev pub max_change_operations : ℕ
max_change_operations = 65536

abbrev pub u64_max : ℕ
u64_max = 0xffffffffffffffff

-- `n.wrapping_add(1).max(1)` on u64.
unfoldable pub wrapping_next : ℕ → ℕ
wrapping_next n = max ((n + 1) % 0x10000000000000000) 1

-- `saturating_add` on u64 and on a 64-bit usize.
unfoldable pub saturating_add : ℕ → ℕ → ℕ
saturating_add a b = min (a + b) u64_max

unfoldable pub empty_cache : BattleRoomCache
empty_cache = record {
  entries = [];
  expiry = [];
  changes = [];
  change_operations = 0;
  revision = 0;
  next_generation = 0;
  evictions_total = 0;
}

unfoldable pub from_ref : BattleChunkRef → Text → Option BattleCacheKey
from_ref reference dimension = elim reference.coord [
  | none ↦ none
  | some coord ↦
      some (record { dimension = dimension; chunk_x = coord.chunk_x; chunk_z = coord.chunk_z })
]

unfoldable pub to_ref : BattleCacheKey → BattleChunkRef
to_ref key = record {
  dimension = key.dimension;
  coord = some (record { chunk_x = key.chunk_x; chunk_z = key.chunk_z });
}

-- The key and value of an entry that the loop of `upsert` does not skip.
unfoldable pub admitted : BattleChunkEntry → Option (BattleCacheKey × BattleChunkValue)
unfolding from_ref trim Text-discrete
admitted entry = elim entry.reference [
  | none ↦ none
  | some reference ↦
      ite (Text-discrete (trim reference.dimension) []) none
        (elim (from_ref reference (trim reference.dimension)) [
          | none ↦ none
          | some key ↦ elim entry.payload [ none ↦ none | some value ↦ some (key, value) ]
        ])
]

-- The locals of `upsert`: the entries, `expiry_keys` and `changed`.
pub record UpsertState : Type 0 where
  pub entries : Map BattleCacheKey CachedBattleChunk
  pub expiry_keys : List BattleCacheKey
  pub changed : Set BattleCacheKey

unfoldable pub visible_changed : Option CachedBattleChunk → BattleChunkValue → Bool
unfolding BattleChunkValue-discrete
visible_changed none value = true
visible_changed (some current) value =
    ite (BattleChunkValue-discrete current.value value) false true

unfoldable pub store : ℕ → UpsertState → BattleCacheKey → BattleChunkValue → UpsertState
store generation s key value = record {
  entries = insert key (record { value = value; generation = generation }) s.entries;
  expiry_keys = s.expiry_keys ++ key ∷ [];
  changed =
      if visible_changed (lookup key s.entries) value then insert key tt s.changed else s.changed;
}

unfoldable pub upsert_entry : ℕ → UpsertState → BattleChunkEntry → UpsertState
unfolding store
upsert_entry generation s entry = elim (admitted entry) [
  | none ↦ s
  | some (key, value) ↦ store generation s key value
]

unfoldable pub upsert_entries : ℕ → UpsertState → List BattleChunkEntry → UpsertState
upsert_entries generation s [] = s
upsert_entries generation s (entry ∷ rest) =
    upsert_entries generation (upsert_entry generation s entry) rest

-- A cache and the set `changed` that its operations fill.
pub record Pending : Type 0 where
  pub cache : BattleRoomCache
  pub changed : Set BattleCacheKey

-- `entries.get(&key).is_some_and(|entry| entry.generation == generation)`
unfoldable pub is_current : BattleRoomCache → BattleCacheKey → ℕ → Bool
is_current cache key generation = elim (lookup key cache.entries) [
  | none ↦ false
  | some entry ↦ entry.generation == generation
]

unfoldable pub remove_current : ℕ → BattleCacheKey → Pending → Pending
unfolding is_current
remove_current generation key p =
    if is_current p.cache key generation
    then record {
      cache = record (p.cache) {
        entries = remove key p.cache.entries;
        evictions_total = saturating_add p.cache.evictions_total 1;
      };
      changed = insert key tt p.changed;
    }
    else p

unfoldable pub with_expiry : List BattleExpiryBatch → Pending → Pending
with_expiry expiry p = record p { cache = record (p.cache) { expiry = expiry } }

-- A batch with the keys that are left to it, gone from the queue if there are none.
unfoldable pub keep_nonempty :
    BattleExpiryBatch → List BattleCacheKey → List BattleExpiryBatch → List BattleExpiryBatch
keep_nonempty batch [] rest = rest
keep_nonempty batch (key ∷ keys) rest = record batch { keys = key ∷ keys } ∷ rest

unfoldable pub pop_front_key :
    BattleExpiryBatch → List BattleCacheKey → List BattleExpiryBatch → Pending → Pending
unfolding with_expiry remove_current keep_nonempty
pop_front_key batch [] rest p = with_expiry rest p
pop_front_key batch (key ∷ keys) rest p =
    remove_current batch.generation key (with_expiry (keep_nonempty batch keys rest) p)

unfoldable pub pop_oldest_from : List BattleExpiryBatch → Pending → Pending
unfolding pop_front_key
pop_oldest_from [] p = p
pop_oldest_from (batch ∷ rest) p = pop_front_key batch batch.keys rest p

unfoldable pub pop_oldest_key : Pending → Pending
unfolding pop_oldest_from
pop_oldest_key p = pop_oldest_from p.cache.expiry p

unfoldable pub remove_all_current : ℕ → List BattleCacheKey → Pending → Pending
unfolding remove_current
remove_all_current generation [] p = p
remove_all_current generation (key ∷ keys) p =
    remove_all_current generation keys (remove_current generation key p)

unfoldable pub pop_batch_from : List BattleExpiryBatch → Pending → Pending
unfolding remove_all_current with_expiry
pop_batch_from [] p = p
pop_batch_from (batch ∷ rest) p =
    remove_all_current batch.generation batch.keys (with_expiry rest p)

unfoldable pub pop_expiry_batch : Pending → Pending
unfolding pop_batch_from
pop_expiry_batch p = pop_batch_from p.cache.expiry p
