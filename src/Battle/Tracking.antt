-- ===== src/Battle/Tracking.antt =====
-- What src/relay.rs's `BattleRoomCache` changes within one call: the set `changed` names every key
-- whose value differs from the value before the call.
use minecraft_team_viewer_ba.Prelude.Loop.{while_keeps}
use minecraft_team_viewer_ba.Battle.Cache.{
  Pending, UpsertState, admitted, keep_nonempty, pop_batch_from, pop_expiry_batch, pop_front_key,
  pop_oldest_from, pop_oldest_key, remove_all_current, remove_current, store, upsert_entries,
  upsert_entry, visible_changed, with_expiry, wrapping_next,
}
use minecraft_team_viewer_ba.Battle.Types.{
  BattleCacheKey, BattleCacheKey-discrete, BattleChunkEntry, BattleChunkValue,
  BattleChunkValue-discrete, BattleExpiryBatch, BattleRoomCache, CachedBattleChunk,
  battle_key_order,
}
use minecraft_team_viewer_ba.Battle.Update.{
  evict_to_limit, expire, front_expired, over_limit, pending_pops, started, stored, upserted,
}
use minecraft_team_viewer_ba.Prelude.Map.{
  Map, Set, contains_key, lookup, lookup-insert_ne, lookup-insert_self, lookup-remove_ne,
}
use minecraft_team_viewer_ba.Prelude.{
  List, Option, Option-cases, [], ap, arith, false, inl, inr, length, none, refl, some, suc, true,
  ℕ, ◌∷◌, ◌≡◌, ◌⊎◌,
}

abbrev pub value_of : Option CachedBattleChunk → Option BattleChunkValue
value_of none = none
value_of (some e) = some e.value

-- What a cache holds at a key, without its generation.
abbrev pub view : Map BattleCacheKey CachedBattleChunk → BattleCacheKey → Option BattleChunkValue
view entries k = value_of (lookup k entries)

abbrev pub Differs :
    Map BattleCacheKey CachedBattleChunk
    → Map BattleCacheKey CachedBattleChunk
    → Set BattleCacheKey
    → Type 0
Differs old new changed =
    (k : BattleCacheKey) → (view new k ≡ view old k) ⊎ (contains_key k changed ≡ true)

pub record Tracks (c : BattleRoomCache) (p : Pending) : Type 0 where
  pub differs : Differs c.entries p.cache.entries p.changed
  pub same_changes : p.cache.changes ≡ c.changes
  pub same_revision : p.cache.revision ≡ c.revision

remove_current-Differs :
    (old : Map BattleCacheKey CachedBattleChunk) (g : ℕ) (key : BattleCacheKey) (p : Pending)
    → Differs old p.cache.entries p.changed
    → Differs old (remove_current g key p).cache.entries (remove_current g key p).changed
unfolding remove_current
remove_current-Differs old g key p h k = elim (BattleCacheKey-discrete key k) [
  | yes same ↦ ground (arith, h k, lookup-insert_self key tt p.changed)
  | no other ↦ ground (
    arith,
    h k,
    lookup-insert_ne key k tt p.changed other,
    lookup-remove_ne key k p.cache.entries other,
  )
]

remove_current-Tracks :
    (c : BattleRoomCache) (g : ℕ) (key : BattleCacheKey) (p : Pending)
    → Tracks c p
    → Tracks c (remove_current g key p)
remove_current-Tracks c g key p t = record {
  differs = remove_current-Differs c.entries g key p t.differs;
  same_changes = unfold remove_current in ground arith;
  same_revision = unfold remove_current in ground arith;
}

with_expiry-Tracks :
    (c : BattleRoomCache) (expiry : List BattleExpiryBatch) (p : Pending)
    → Tracks c p
    → Tracks c (with_expiry expiry p)
unfolding with_expiry
with_expiry-Tracks c expiry p t = record {
  differs = t.differs;
  same_changes = t.same_changes;
  same_revision = t.same_revision;
}

pop_oldest_from-Tracks :
    (c : BattleRoomCache) (expiry : List BattleExpiryBatch) (p : Pending)
    → Tracks c p
    → Tracks c (pop_oldest_from expiry p)
unfolding pop_oldest_from
pop_oldest_from-Tracks c [] p t = t
pop_oldest_from-Tracks c (b ∷ rest) p t = from b.keys
  where
    from : (keys : List BattleCacheKey) → Tracks c (pop_front_key b keys rest p)
    from [] = with_expiry-Tracks c rest p t
    from (key ∷ keys) =
        remove_current-Tracks c b.generation key _
          (with_expiry-Tracks c (keep_nonempty b keys rest) p t)

remove_all_current-Tracks :
    (c : BattleRoomCache) (g : ℕ) (keys : List BattleCacheKey) (p : Pending)
    → Tracks c p
    → Tracks c (remove_all_current g keys p)
unfolding remove_all_current
remove_all_current-Tracks c g [] p t = t
remove_all_current-Tracks c g (key ∷ keys) p t =
    remove_all_current-Tracks c g keys (remove_current g key p) (remove_current-Tracks c g key p t)

pop_batch_from-Tracks :
    (c : BattleRoomCache) (expiry : List BattleExpiryBatch) (p : Pending)
    → Tracks c p
    → Tracks c (pop_batch_from expiry p)
unfolding pop_batch_from
pop_batch_from-Tracks c [] p t = t
pop_batch_from-Tracks c (b ∷ rest) p t =
    remove_all_current-Tracks c b.generation b.keys _ (with_expiry-Tracks c rest p t)

pub evict-Tracks :
    (c : BattleRoomCache) (max_entries : ℕ) (p : Pending)
    → Tracks c p
    → Tracks c (evict_to_limit max_entries p)
unfolding evict_to_limit
evict-Tracks c max_entries p t =
    while_keeps (Tracks c) (over_limit max_entries) pop_oldest_key
      (λ q inv. pop_oldest_key-Tracks q inv) (suc (pending_pops p.cache.expiry)) p t
  where
    pop_oldest_key-Tracks : (q : Pending) → Tracks c q → Tracks c (pop_oldest_key q)
    pop_oldest_key-Tracks q inv =
        unfold pop_oldest_key in pop_oldest_from-Tracks c q.cache.expiry q inv

pub expire-Tracks :
    (c : BattleRoomCache) (now retention : ℕ) (p : Pending)
    → Tracks c p
    → Tracks c (expire now retention p)
unfolding expire
expire-Tracks c now retention p t =
    while_keeps (Tracks c) (front_expired now retention) pop_expiry_batch
      (λ q inv. pop_expiry_batch-Tracks q inv) (suc (length p.cache.expiry)) p t
  where
    pop_expiry_batch-Tracks : (q : Pending) → Tracks c q → Tracks c (pop_expiry_batch q)
    pop_expiry_batch-Tracks q inv =
        unfold pop_expiry_batch in pop_batch_from-Tracks c q.cache.expiry q inv

-- An entry that is not visibly changed had the same value before.
not_visible :
    (previous : Option CachedBattleChunk) (value : BattleChunkValue)
    → visible_changed previous value ≡ false
    → value_of previous ≡ some value
unfolding visible_changed
not_visible none value h = cc
not_visible (some e) value h = elim (BattleChunkValue-discrete e.value value) [
  | yes same ↦ ap some same
  | no other ↦ ground arith
]

store-Differs :
    (old : Map BattleCacheKey CachedBattleChunk) (g : ℕ) (s : UpsertState) (key : BattleCacheKey)
    (value : BattleChunkValue)
    → Differs old s.entries s.changed
    → Differs old (store g s key value).entries (store g s key value).changed
unfolding store
store-Differs old g s key value h k =
    let entry : CachedBattleChunk = record { value = value; generation = g } in
    elim (BattleCacheKey-discrete key k) [
      | yes same ↦ ground (
        arith,
        h k,
        lookup-insert_self key entry s.entries,
        lookup-insert_self key tt s.changed,
        not_visible (lookup key s.entries) value,
      )
      | no other ↦ ground (
        arith,
        h k,
        lookup-insert_ne key k entry s.entries other,
        lookup-insert_ne key k tt s.changed other,
      )
    ]

upsert_entry-Differs :
    (old : Map BattleCacheKey CachedBattleChunk) (g : ℕ) (s : UpsertState)
    (entry : BattleChunkEntry)
    → Differs old s.entries s.changed
    → Differs old (upsert_entry g s entry).entries (upsert_entry g s entry).changed
unfolding upsert_entry
upsert_entry-Differs old g s entry h = elim (Option-cases (admitted entry)) [
  | inl e ↦ rw (e, upsert_entry) h
  | inr ((key, value), e) ↦ rw (e, upsert_entry) (store-Differs old g s key value h)
]

upsert_entries-Differs :
    (old : Map BattleCacheKey CachedBattleChunk) (g : ℕ) (s : UpsertState)
    (entries : List BattleChunkEntry)
    → Differs old s.entries s.changed
    → Differs old (upsert_entries g s entries).entries (upsert_entries g s entries).changed
unfolding upsert_entries
upsert_entries-Differs old g s [] h = h
upsert_entries-Differs old g s (entry ∷ rest) h =
    upsert_entries-Differs old g (upsert_entry g s entry) rest
      (upsert_entry-Differs old g s entry h)

pub upserted-Tracks :
    (c : BattleRoomCache) (entries : List BattleChunkEntry) (received_at : ℕ)
    → Tracks c (upserted c entries received_at)
unfolding upserted stored started
upserted-Tracks c entries received_at = record {
  differs =
      upsert_entries-Differs c.entries (wrapping_next c.next_generation) (started c) entries
        (λ k. inl refl);
  same_changes = refl;
  same_revision = refl;
}
