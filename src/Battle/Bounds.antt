-- ===== src/Battle/Bounds.antt =====
-- The size of `BattleRoomCache` in src/relay.rs: `upsert` and `cleanup` end within `max_entries`.
use minecraft_team_viewer_ba.Prelude.{
  List, [], arith, false, length, refl, suc, true, ℕ, ◌+◌, ◌<◌, ◌∷◌, ◌≡◌, ◌≤◌,
}
use minecraft_team_viewer_ba.Prelude.Map.{Map, Set, lookup, lookup-insert_head}
use minecraft_team_viewer_ba.Prelude.Loop.{while_rule}
use minecraft_team_viewer_ba.Battle.Types.{
  BattleCacheKey, BattleExpiryBatch, BattleRoomCache, CachedBattleChunk, battle_key_order,
}
use minecraft_team_viewer_ba.Battle.Cache.{
  Pending, pop_batch_from, pop_expiry_batch, pop_front_key, pop_oldest_from, pop_oldest_key,
  keep_nonempty, remove_current, with_expiry,
}
use minecraft_team_viewer_ba.Battle.Update.{
  evict_to_limit, expire, front_expired, is_empty, over_limit, pending_pops,
}
use minecraft_team_viewer_ba.Battle.Covered.{
  Covers, IsCovered, pop_oldest_key-IsCovered, remove_all_current-expiry,
}

remove_current-expiry :
    (g : ℕ) (key : BattleCacheKey) (p : Pending)
    → (remove_current g key p).cache.expiry ≡ p.cache.expiry
unfolding remove_current
remove_current-expiry g key p = ground arith

pop_front_key-lt :
    (b : BattleExpiryBatch) (keys : List BattleCacheKey) (rest : List BattleExpiryBatch)
    (p : Pending)
    → pending_pops (pop_front_key b keys rest p).cache.expiry
      < suc (length keys) + pending_pops rest
unfolding pop_front_key pending_pops
pop_front_key-lt b [] rest p = omega arith
pop_front_key-lt b (key ∷ []) rest p =
    rw (remove_current-expiry b.generation key (with_expiry (keep_nonempty b [] rest) p))
      (omega arith)
pop_front_key-lt b (key ∷ k ∷ ks) rest p =
    rw (remove_current-expiry b.generation key (with_expiry (keep_nonempty b (k ∷ ks) rest) p))
      (omega arith)

pop_oldest_from-lt :
    (expiry : List BattleExpiryBatch) (p : Pending)
    → is_empty expiry ≡ false
    → pending_pops (pop_oldest_from expiry p).cache.expiry < pending_pops expiry
unfolding pop_oldest_from pending_pops is_empty
pop_oldest_from-lt [] p h = cc
pop_oldest_from-lt (b ∷ rest) p h = pop_front_key-lt b b.keys rest p

pop_oldest_key-lt :
    (p : Pending)
    → is_empty p.cache.expiry ≡ false
    → pending_pops (pop_oldest_key p).cache.expiry < pending_pops p.cache.expiry
unfolding pop_oldest_key
pop_oldest_key-lt p h = pop_oldest_from-lt p.cache.expiry p h

over_limit-nonempty :
    (max_entries : ℕ) (p : Pending)
    → over_limit max_entries p ≡ true
    → is_empty p.cache.expiry ≡ false
unfolding over_limit
over_limit-nonempty max_entries p h = ground arith

evict_rule :
    (max_entries : ℕ) (p : Pending)
    → IsCovered p.cache
    → IsCovered (evict_to_limit max_entries p).cache
      × (over_limit max_entries (evict_to_limit max_entries p) ≡ false)
unfolding evict_to_limit
evict_rule max_entries p h =
    while_rule (λ q. IsCovered q.cache) (λ q. pending_pops q.cache.expiry) (over_limit max_entries)
      pop_oldest_key
      (λ q inv more. (
        pop_oldest_key-IsCovered q inv,
        pop_oldest_key-lt q (over_limit-nonempty max_entries q more),
      ))
      (suc (pending_pops p.cache.expiry)) p (omega arith) h

-- With nothing left to pop, nothing is cached.
Covers-nil : (m : Map BattleCacheKey CachedBattleChunk) → Covers m [] → length m ≡ 0
unfolding lookup
Covers-nil [] h = refl
Covers-nil ((k, e) ∷ m) h = absurd (h k e (lookup-insert_head k e m))

within_limit :
    (max_entries : ℕ) (c : BattleRoomCache) (expiry : List BattleExpiryBatch)
    (d : Set BattleCacheKey)
    → c.expiry ≡ expiry
    → Covers c.entries expiry
    → over_limit max_entries (record { cache = c; changed = d }) ≡ false
    → length c.entries ≤ max_entries
unfolding over_limit
within_limit max_entries c [] d same h over = omega (arith, Covers-nil c.entries h)
within_limit max_entries c (b ∷ rest) d same h over = ground (arith, same)

pub evict-le :
    (max_entries : ℕ) (p : Pending)
    → IsCovered p.cache
    → length (evict_to_limit max_entries p).cache.entries ≤ max_entries
evict-le max_entries p h =
    let (covered, done) = evict_rule max_entries p h in
    let q = evict_to_limit max_entries p in
    within_limit max_entries q.cache q.cache.expiry q.changed refl covered done

pub evict-IsCovered :
    (max_entries : ℕ) (p : Pending)
    → IsCovered p.cache
    → IsCovered (evict_to_limit max_entries p).cache
evict-IsCovered max_entries p h = (evict_rule max_entries p h).0

pop_batch_from-lt :
    (expiry : List BattleExpiryBatch) (p : Pending)
    → is_empty expiry ≡ false
    → length (pop_batch_from expiry p).cache.expiry < length expiry
unfolding pop_batch_from is_empty
pop_batch_from-lt [] p h = cc
pop_batch_from-lt (b ∷ rest) p h =
    rw (remove_all_current-expiry b.generation b.keys (with_expiry rest p)) (omega arith)

front_expired-nonempty :
    (now retention : ℕ) (c : BattleRoomCache) (expiry : List BattleExpiryBatch)
    (d : Set BattleCacheKey)
    → c.expiry ≡ expiry
    → front_expired now retention (record { cache = c; changed = d }) ≡ true
    → is_empty expiry ≡ false
unfolding front_expired is_empty
front_expired-nonempty now retention c [] d same h = ground (arith, same)
front_expired-nonempty now retention c (b ∷ rest) d same h = refl

pub expire_rule :
    (P : Pending → Type 0) (now retention : ℕ) (p : Pending)
    → ((q : Pending) → P q → front_expired now retention q ≡ true → P (pop_expiry_batch q))
    → P p
    → P (expire now retention p) × (front_expired now retention (expire now retention p) ≡ false)
unfolding expire pop_expiry_batch
expire_rule P now retention p keep h =
    while_rule P (λ q. length q.cache.expiry) (front_expired now retention) pop_expiry_batch
      (λ q inv more. (
        keep q inv more,
        pop_batch_from-lt q.cache.expiry q
            (front_expired-nonempty now retention q.cache q.cache.expiry q.changed refl more),
      ))
      (suc (length p.cache.expiry)) p (omega arith) h
