-- ===== src/Battle/Covered.antt =====
-- Every cached chunk is reachable from the expiry queue of src/relay.rs's `BattleRoomCache`: a batch
-- of its generation holds its key. Without this the eviction loop could not reach it.
use minecraft_team_viewer_ba.Prelude.{List, Member, [], arith, refl, some, ℕ, ◌∷◌, ◌≡◌, ◌⊎◌}
use minecraft_team_viewer_ba.Prelude.Map.{Map, lookup, lookup-remove_inv}
use minecraft_team_viewer_ba.Battle.Types.{
  BattleCacheKey, BattleExpiryBatch, BattleRoomCache, CachedBattleChunk, battle_key_order,
}
use minecraft_team_viewer_ba.Battle.Cache.{
  Pending, keep_nonempty, pop_batch_from, pop_expiry_batch, pop_front_key, pop_oldest_from,
  pop_oldest_key, remove_all_current, remove_current, with_expiry,
}

abbrev pub Covered : BattleCacheKey → ℕ → List BattleExpiryBatch → Type 0
Covered k g [] = ⊥
Covered k g (b ∷ bs) = ((b.generation ≡ g) × Member k b.keys) ⊎ Covered k g bs

abbrev pub Covers : Map BattleCacheKey CachedBattleChunk → List BattleExpiryBatch → Type 0
Covers entries expiry =
    (k : BattleCacheKey) (e : CachedBattleChunk)
    → lookup k entries ≡ some e
    → Covered k e.generation expiry

abbrev pub IsCovered : BattleRoomCache → Type 0
IsCovered c = Covers c.entries c.expiry

pub Covered-keep_nonempty :
    (k : BattleCacheKey) (g : ℕ) (b : BattleExpiryBatch) (keys : List BattleCacheKey)
    (rest : List BattleExpiryBatch)
    → ((b.generation ≡ g) × Member k keys) ⊎ Covered k g rest
    → Covered k g (keep_nonempty b keys rest)
unfolding keep_nonempty
Covered-keep_nonempty k g b [] rest h = ground arith
Covered-keep_nonempty k g b (key ∷ keys) rest h = ground arith

-- Popping one key keeps the others covered: an entry of another generation has another batch.
pop_front_key-IsCovered :
    (b : BattleExpiryBatch) (keys : List BattleCacheKey) (rest : List BattleExpiryBatch)
    (p : Pending)
    → Covers p.cache.entries (record b { keys = keys } ∷ rest)
    → IsCovered (pop_front_key b keys rest p).cache
unfolding pop_front_key
pop_front_key-IsCovered b [] rest p h k e found = ground (arith, h k e)
pop_front_key-IsCovered b (key ∷ keys) rest p h k e found = ground (
  arith,
  lookup-remove_inv key k e p.cache.entries,
  h k e,
  Covered-keep_nonempty k e.generation b keys rest,
)

pop_oldest_from-IsCovered :
    (expiry : List BattleExpiryBatch) (p : Pending)
    → Covers p.cache.entries expiry
    → p.cache.expiry ≡ expiry
    → IsCovered (pop_oldest_from expiry p).cache
unfolding pop_oldest_from
pop_oldest_from-IsCovered [] p h same = rw same h
pop_oldest_from-IsCovered (b ∷ rest) p h same = pop_front_key-IsCovered b b.keys rest p h

pub pop_oldest_key-IsCovered :
    (p : Pending) → IsCovered p.cache → IsCovered (pop_oldest_key p).cache
unfolding pop_oldest_key
pop_oldest_key-IsCovered p h = pop_oldest_from-IsCovered p.cache.expiry p h refl

-- The entries that are left once a batch is spent are covered by the others.
remove_all_current-Covers :
    (g : ℕ) (keys : List BattleCacheKey) (p : Pending) (rest : List BattleExpiryBatch)
    → ((k : BattleCacheKey) (e : CachedBattleChunk)
        → lookup k p.cache.entries ≡ some e
        → ((g ≡ e.generation) × Member k keys) ⊎ Covered k e.generation rest)
    → Covers (remove_all_current g keys p).cache.entries rest
unfolding remove_all_current
remove_all_current-Covers g [] p rest h = λ k e found. ground (arith, h k e)
remove_all_current-Covers g (key ∷ keys) p rest h =
    remove_all_current-Covers g keys (remove_current g key p) rest
      λ k e found. ground (arith, lookup-remove_inv key k e p.cache.entries, h k e)

pub remove_all_current-expiry :
    (g : ℕ) (keys : List BattleCacheKey) (p : Pending)
    → (remove_all_current g keys p).cache.expiry ≡ p.cache.expiry
unfolding remove_all_current
remove_all_current-expiry g [] p = refl
remove_all_current-expiry g (key ∷ keys) p =
    ground (arith, remove_all_current-expiry g keys (remove_current g key p))

pop_batch_from-IsCovered :
    (expiry : List BattleExpiryBatch) (p : Pending)
    → Covers p.cache.entries expiry
    → p.cache.expiry ≡ expiry
    → IsCovered (pop_batch_from expiry p).cache
unfolding pop_batch_from
pop_batch_from-IsCovered [] p h same = rw same h
pop_batch_from-IsCovered (b ∷ rest) p h same =
    rw (remove_all_current-expiry b.generation b.keys (with_expiry rest p))
      (remove_all_current-Covers b.generation b.keys (with_expiry rest p) rest h)

pub pop_expiry_batch-IsCovered :
    (p : Pending) → IsCovered p.cache → IsCovered (pop_expiry_batch p).cache
unfolding pop_expiry_batch
pop_expiry_batch-IsCovered p h = pop_batch_from-IsCovered p.cache.expiry p h refl
