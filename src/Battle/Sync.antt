-- ===== src/Battle/Sync.antt =====
-- What a client misses: every key whose value changed since a revision is named in the log of
-- src/relay.rs's `BattleRoomCache`, as long as the log reaches back to that revision.
use minecraft_team_viewer_ba.Battle.History.{Operation, cleans, run, step, upserts}
use minecraft_team_viewer_ba.Battle.Log.{
  Chain, Chain-append, IsSuffix, LoggedSince, LoggedSince-append, LoggedSince-last, set_keys-Member,
  trim_changes-IsSuffix,
}
use minecraft_team_viewer_ba.Battle.Tracking.{
  Differs, Tracks, evict-Tracks, expire-Tracks, upserted-Tracks, view,
}
use minecraft_team_viewer_ba.Battle.Cache.{
  Pending, empty_cache, saturating_add, u64_max, wrapping_next,
}
use minecraft_team_viewer_ba.Battle.Types.{
  BattleCacheKey, BattleChangeBatch, BattleRoomCache, CachedBattleChunk, battle_key_order,
}
use minecraft_team_viewer_ba.Battle.Update.{
  cleanup, evict_to_limit, expire, prune_periodically, prune_stale_indexes, push_changes,
  record_changes, recorded, set_keys, trim_changes, upsert, upserted,
}
use minecraft_team_viewer_ba.Prelude.Map.{Map, Set, contains_key, lookup}
use minecraft_team_viewer_ba.Prelude.{
  Bool-cases, List, [], arith, inl, inr, length, length-append, refl, suc, true, ℕ, ◌%◌, ◌++◌, ◌+◌,
  ◌<◌, ◌==◌, ◌∙◌, ◌∷◌, ◌≡◌, ◌≤◌, ◌⊎◌,
}

-- `c` has been reached from a cache of revision `r` with the entries `old`.
pub record Synced (r : ℕ) (old : Map BattleCacheKey CachedBattleChunk) (c : BattleRoomCache)
    : Type 0 where
  pub start : ℕ
  pub chain : Chain start c.changes
  pub ends : start + length c.changes ≡ c.revision
  pub since : r ≤ c.revision
  pub logged :
      start ≤ r → (k : BattleCacheKey) → (view c.entries k ≡ view old k) ⊎ LoggedSince r k c.changes

pub record IsLogged (c : BattleRoomCache) : Type 0 where
  pub start : ℕ
  pub chain : Chain start c.changes
  pub ends : start + length c.changes ≡ c.revision

pub Synced-refl : (c : BattleRoomCache) → IsLogged c → Synced c.revision c.entries c
Synced-refl c h = record {
  start = h.start;
  chain = h.chain;
  ends = h.ends;
  since = omega arith;
  logged = λ le k. inl refl;
}

wrapping_next-suc : (n : ℕ) → n < u64_max → wrapping_next n ≡ suc n
unfolding wrapping_next
wrapping_next-suc n h = omega arith

-- An empty set of changes leaves every value as it was.
unchanged :
    (old new : Map BattleCacheKey CachedBattleChunk) (k : BattleCacheKey)
    → Differs old new []
    → view new k ≡ view old k
unfolding lookup
unchanged old new k h = ground (arith, h k)

-- A key that a call changed, or that was logged before it, is logged once the call's batch is pushed.
logged_after :
    (r : ℕ) (old before after : Map BattleCacheKey CachedBattleChunk) (log : List BattleChangeBatch)
    (changed : Set BattleCacheKey) (b : BattleChangeBatch) (k : BattleCacheKey)
    → b.keys ≡ set_keys changed
    → r < b.revision
    → (view before k ≡ view old k) ⊎ LoggedSince r k log
    → (view after k ≡ view before k) ⊎ (contains_key k changed ≡ true)
    → (view after k ≡ view old k) ⊎ LoggedSince r k (log ++ b ∷ [])
logged_after r old before after log changed b k same newer h (inr touched) =
    inr (LoggedSince-last r k log b newer (rw same (set_keys-Member k changed touched)))
logged_after r old before after log changed b k same newer (inr logged) (inl e) =
    inr (LoggedSince-append r k log (b ∷ []) logged)
logged_after r old before after log changed b k same newer (inl e') (inl e) = inl (e ∙ e')

push_changes-Synced :
    (r : ℕ) (old : Map BattleCacheKey CachedBattleChunk) (c : BattleRoomCache)
    (changed : Set BattleCacheKey) (q : BattleRoomCache)
    → Synced r old c
    → c.revision < u64_max
    → Differs c.entries q.entries changed
    → q.changes ≡ c.changes
    → q.revision ≡ c.revision
    → Synced r old (push_changes (set_keys changed) q)
unfolding push_changes
push_changes-Synced r old c changed q s small d same_changes same_revision = record {
  start = suffix.start';
  chain = suffix.chain;
  ends = omega (arith, suffix.ends, length-append {0} q.changes (batch ∷ []), next, ends);
  since = omega (arith, next, s.since);
  logged = λ le k. kept k le (
      logged_after r old c.entries q.entries q.changes changed batch k refl
        (omega (arith, next, s.since))
        (rw same_changes (s.logged (omega (arith, suffix.later, le)) k)) (d k));
}
  where
    next : wrapping_next q.revision ≡ suc c.revision
    next = rw same_revision (wrapping_next-suc c.revision small)

    ends : s.start + length q.changes ≡ c.revision
    ends = rw same_changes s.ends

    batch : BattleChangeBatch
    batch = record { revision = wrapping_next q.revision; keys = set_keys changed }

    suffix :
        IsSuffix s.start
          (q.changes ++ batch ∷ [])
          (trim_changes
            (q.changes ++ batch ∷ [])
            (saturating_add q.change_operations (length (set_keys changed)))).0
    suffix =
        trim_changes-IsSuffix s.start (q.changes ++ batch ∷ [])
          (saturating_add q.change_operations (length (set_keys changed)))
          (Chain-append s.start q.changes batch (rw same_changes s.chain)
            (omega (arith, next, ends)))

    kept :
        (k : BattleCacheKey)
        → suffix.start' ≤ r
        → (view q.entries k ≡ view old k) ⊎ LoggedSince r k (q.changes ++ batch ∷ [])
        → (view q.entries k ≡ view old k)
          ⊎ LoggedSince r k
              (trim_changes
                (q.changes ++ batch ∷ [])
                (saturating_add q.change_operations (length (set_keys changed)))).0
    kept k le (inl e) = inl e
    kept k le (inr logged) = inr (suffix.keeps r k le logged)

recorded-Synced :
    (r : ℕ) (old : Map BattleCacheKey CachedBattleChunk) (c : BattleRoomCache)
    (changed : Set BattleCacheKey) (q : BattleRoomCache)
    → Synced r old c
    → c.revision < u64_max
    → Differs c.entries q.entries changed
    → q.changes ≡ c.changes
    → q.revision ≡ c.revision
    → Synced r old (record_changes changed q).0
unfolding record_changes
recorded-Synced r old c [] q s small d same_changes same_revision = record {
  start = s.start;
  chain = rw same_changes s.chain;
  ends = rw (same_changes, same_revision) s.ends;
  since = rw same_revision s.since;
  logged = λ le k. rw (same_changes, unchanged c.entries q.entries k d) (s.logged le k);
}
recorded-Synced r old c (e ∷ rest) q s small d same_changes same_revision =
    push_changes-Synced r old c (e ∷ rest) q s small d same_changes same_revision

prune_periodically-Synced :
    (r : ℕ) (old : Map BattleCacheKey CachedBattleChunk) (generation : ℕ) (c : BattleRoomCache)
    → Synced r old c
    → Synced r old (prune_periodically generation c)
unfolding prune_periodically prune_stale_indexes
prune_periodically-Synced r old generation c s = elim (Bool-cases (generation % 64 == 0)) [
  | inl e ↦ rw e (record {
    start = s.start;
    chain = s.chain;
    ends = s.ends;
    since = s.since;
    logged = s.logged;
  })
  | inr e ↦ rw e s
]

prune_periodically-revision :
    (generation : ℕ) (c : BattleRoomCache) → (prune_periodically generation c).revision ≡ c.revision
unfolding prune_periodically prune_stale_indexes
prune_periodically-revision generation c = ground arith

-- The part that `upsert` and `cleanup` share: evict, then record the changes.
finished-Synced :
    (r : ℕ) (old : Map BattleCacheKey CachedBattleChunk) (c : BattleRoomCache) (max_entries : ℕ)
    (p : Pending)
    → Synced r old c
    → c.revision < u64_max
    → Tracks c p
    → Synced r old (recorded (evict_to_limit max_entries p)).0
unfolding recorded
finished-Synced r old c max_entries p s small t =
    let q = evict_to_limit max_entries p in
    let t' = evict-Tracks c max_entries p t in
    recorded-Synced r old c q.changed q.cache s small t'.differs t'.same_changes t'.same_revision

record_changes-revision-le :
    (changed : Set BattleCacheKey) (c : BattleRoomCache)
    → (record_changes changed c).0.revision ≤ suc c.revision
unfolding record_changes push_changes wrapping_next
record_changes-revision-le [] c = omega arith
record_changes-revision-le (e ∷ rest) c = omega arith

finished-revision-le :
    (c : BattleRoomCache) (max_entries : ℕ) (p : Pending)
    → Tracks c p
    → (recorded (evict_to_limit max_entries p)).0.revision ≤ suc c.revision
unfolding recorded
finished-revision-le c max_entries p t =
    let q = evict_to_limit max_entries p in
    omega (
      arith,
      record_changes-revision-le q.changed q.cache,
      (evict-Tracks c max_entries p t).same_revision,
    )

cleaning-Tracks :
    (c : BattleRoomCache) (now retention : ℕ)
    → Tracks c (expire now retention (record { cache = c; changed = [] }))
cleaning-Tracks c now retention =
    expire-Tracks c now retention (record { cache = c; changed = [] })
      (record { differs = λ k. inl refl; same_changes = refl; same_revision = refl })

step-Synced :
    (r : ℕ) (old : Map BattleCacheKey CachedBattleChunk) (c : BattleRoomCache) (op : Operation)
    → Synced r old c
    → c.revision < u64_max
    → Synced r old (step c op)
unfolding step upsert cleanup
step-Synced r old c (upserts entries received_at max_entries) s small =
    prune_periodically-Synced r old (wrapping_next c.next_generation) _ (
      finished-Synced r old c max_entries (upserted c entries received_at) s small
        (upserted-Tracks c entries received_at))
step-Synced r old c (cleans now retention max_entries) s small =
    finished-Synced r old c max_entries (expire now retention (record { cache = c; changed = [] }))
      s small (cleaning-Tracks c now retention)

step-revision-le : (c : BattleRoomCache) (op : Operation) → (step c op).revision ≤ suc c.revision
unfolding step upsert cleanup
step-revision-le c (upserts entries received_at max_entries) =
    let p = upserted c entries received_at in
    omega (
      arith,
      finished-revision-le c max_entries p (upserted-Tracks c entries received_at),
      prune_periodically-revision (wrapping_next c.next_generation)
          (recorded (evict_to_limit max_entries p)).0,
    )
step-revision-le c (cleans now retention max_entries) =
    finished-revision-le c max_entries (expire now retention (record { cache = c; changed = [] }))
      (cleaning-Tracks c now retention)

pub run-Synced :
    (r : ℕ) (old : Map BattleCacheKey CachedBattleChunk) (c : BattleRoomCache)
    (ops : List Operation)
    → Synced r old c
    → c.revision + length ops ≤ u64_max
    → Synced r old (run c ops)
unfolding run
run-Synced r old c [] s small = s
run-Synced r old c (op ∷ ops) s small =
    run-Synced r old (step c op) ops (step-Synced r old c op s (omega arith))
      (omega (arith, step-revision-le c op))

pub run-revision-le :
    (c : BattleRoomCache) (ops : List Operation) → (run c ops).revision ≤ c.revision + length ops
unfolding run
run-revision-le c [] = omega arith
run-revision-le c (op ∷ ops) = omega (arith, run-revision-le (step c op) ops, step-revision-le c op)

-- The log of a cache that has been used from the start is numbered without gaps.
pub run-IsLogged : (ops : List Operation) → length ops ≤ u64_max → IsLogged (run empty_cache ops)
unfolding empty_cache
run-IsLogged ops small =
    let s =
      run-Synced 0 [] empty_cache ops
        (Synced-refl empty_cache (record { start = 0; chain = tt; ends = omega arith }))
        (omega arith) in
    record { start = s.start; chain = s.chain; ends = s.ends }
