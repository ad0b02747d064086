-- ===== src/Battle/Delivery.antt =====
-- `patch_since` of src/relay.rs refines sending the whole cache: a client that held the entries of the
-- delivered revision holds those of the current one once it has handled the answer.
use minecraft_team_viewer_ba.Battle.Merge.{project_option}
use minecraft_team_viewer_ba.Battle.Update.{set_keys}
use minecraft_team_viewer_ba.Battle.Log.{Chain, LoggedSince, LoggedSince-lt, set_keys-Member}
use minecraft_team_viewer_ba.Battle.Sync.{
  Synced, Synced-refl, run-IsLogged, run-Synced, run-revision-le,
}
use minecraft_team_viewer_ba.Battle.Tracking.{view}
use minecraft_team_viewer_ba.Prelude.Map.{
  Set, contains_key, insert, lookup-insert_ne, lookup-insert_self,
}
use minecraft_team_viewer_ba.Battle.Cache.{empty_cache, saturating_add, u64_max}
use minecraft_team_viewer_ba.Battle.Client.{Copy, apply-patch_for, apply_patch, copy_of, is_member}
use minecraft_team_viewer_ba.Battle.History.{Operation, run}
use minecraft_team_viewer_ba.Battle.Patch.{
  changed_since, history_lost, insert_keys, patch_for, patch_since,
}
use minecraft_team_viewer_ba.Battle.Types.{
  BattleCacheKey, BattleCacheKey-discrete, BattleChangeBatch, BattleChunkPatchScope,
  BattleRoomCache, battle_key_order,
}
use minecraft_team_viewer_ba.Prelude.{
  Bool, Bool-cases, List, Member, Option, [], arith, false, if◌then◌else◌, inl, inr, length, ltb,
  ltb→ge, none, refl, some, suc, sym, true, ℕ, ◌+◌, ◌<◌, ◌==◌, ◌||◌, ◌∷◌, ◌≡◌, ◌≤◌, ◌⊎◌,
}

-- What a client that knows `clear_fields` holds after the answer of `patch_since`: no answer makes the
-- relay send `full`.
abbrev pub receive : Option (Option BattleChunkPatchScope) → Copy → Copy → Copy
receive none full copy = full
receive (some none) full copy = copy
receive (some (some patch)) full copy = apply_patch true patch copy

pub copy_of-view :
    (c : BattleRoomCache) (include_mode : Bool) (k : BattleCacheKey)
    → copy_of c include_mode k ≡ project_option include_mode (view c.entries k)
unfolding copy_of
copy_of-view c include_mode k = ground arith

-- Equal values give equal copies.
copy_of_same :
    (c d : BattleRoomCache) (include_mode : Bool) (k : BattleCacheKey)
    → view c.entries k ≡ view d.entries k
    → copy_of c include_mode k ≡ copy_of d include_mode k
copy_of_same c d include_mode k e =
    cc (copy_of-view c include_mode k, copy_of-view d include_mode k)

insert_keys-contains :
    (k : BattleCacheKey) (keys : List BattleCacheKey) (s : Set BattleCacheKey)
    → Member k keys ⊎ (contains_key k s ≡ true)
    → contains_key k (insert_keys keys s) ≡ true
unfolding insert_keys
insert_keys-contains k [] s (inl m) = absurd m
insert_keys-contains k [] s (inr h) = h
insert_keys-contains k (j ∷ js) s h = insert_keys-contains k js (insert j tt s) (after h)
  where
    held : contains_key k s ≡ true → contains_key k (insert j tt s) ≡ true
    held e = elim (BattleCacheKey-discrete j k) [
      | yes same ↦ rw same (ground (arith, lookup-insert_self k tt s))
      | no other ↦ rw (lookup-insert_ne j k tt s other) e
    ]

    after :
        Member k (j ∷ js) ⊎ (contains_key k s ≡ true)
        → Member k js ⊎ (contains_key k (insert j tt s) ≡ true)
    after (inl (inl same)) = inr (rw same (ground (arith, lookup-insert_self k tt s)))
    after (inl (inr m)) = inl m
    after (inr e) = inr (held e)

changed_since-contains :
    (r : ℕ) (k : BattleCacheKey) (log : List BattleChangeBatch) (s : Set BattleCacheKey)
    → LoggedSince r k log ⊎ (contains_key k s ≡ true)
    → contains_key k (changed_since r log s) ≡ true
unfolding changed_since
changed_since-contains r k [] s (inl h) = absurd h
changed_since-contains r k [] s (inr h) = h
changed_since-contains r k (b ∷ bs) s h = elim (Bool-cases (ltb r b.revision)) [
  | inl newer ↦ rw newer (changed_since-contains r k bs (insert_keys b.keys s) (taken h))
  | inr older ↦ rw older (changed_since-contains r k bs s (skipped older h))
]
  where
    taken :
        LoggedSince r k (b ∷ bs) ⊎ (contains_key k s ≡ true)
        → LoggedSince r k bs ⊎ (contains_key k (insert_keys b.keys s) ≡ true)
    taken (inl (inl (_, m))) = inr (insert_keys-contains k b.keys s (inl m))
    taken (inl (inr logged)) = inl logged
    taken (inr e) = inr (insert_keys-contains k b.keys s (inr e))

    skipped :
        ltb r b.revision ≡ false
        → LoggedSince r k (b ∷ bs) ⊎ (contains_key k s ≡ true)
        → LoggedSince r k bs ⊎ (contains_key k s ≡ true)
    skipped older (inl (inl (lt, _))) = absurd (omega (arith, ltb→ge r b.revision older))
    skipped older (inl (inr logged)) = inl logged
    skipped older (inr e) = inr e

is_member_of_Member :
    (k : BattleCacheKey) (keys : List BattleCacheKey) → Member k keys → is_member k keys ≡ true
unfolding is_member
is_member_of_Member k [] m = absurd m
is_member_of_Member k (j ∷ js) m = elim (BattleCacheKey-discrete j k) [
  | yes same ↦ ground arith
  | no other ↦ ground (arith, is_member_of_Member k js)
]

saturating_add-one : (n : ℕ) → n < u64_max → saturating_add n 1 ≡ suc n
unfolding saturating_add
saturating_add-one n h = omega arith

empty-revision : empty_cache.revision ≡ 0
unfolding empty_cache
empty-revision = refl

-- The log reaches back to the revision if its front batch is the next one or an older one.
reaches_back :
    (start r : ℕ) (log : List BattleChangeBatch)
    → Chain start log
    → r < u64_max
    → history_lost log r ≡ false
    → start ≤ r
unfolding history_lost
reaches_back start r [] h small kept = cc
reaches_back start r (b ∷ bs) h small kept =
    omega (arith, ltb→ge (saturating_add r 1) b.revision kept, saturating_add-one r small, h.0)

module _ (r : ℕ) (d c : BattleRoomCache) (include_mode : Bool) (k : BattleCacheKey)
    (s : Synced r d.entries c) where
  up_to_date : r ≡ c.revision → copy_of d include_mode k ≡ copy_of c include_mode k
  up_to_date e = sym (copy_of_same c d include_mode k (same (s.logged (omega (arith, s.ends)) k)))
    where
      same :
          (view c.entries k ≡ view d.entries k) ⊎ LoggedSince r k c.changes
          → view c.entries k ≡ view d.entries k
      same (inl h) = h
      same (inr logged) =
          absurd (omega (arith, LoggedSince-lt r k s.start c.changes s.chain logged, s.ends))

  patched :
      s.start ≤ r
      → apply_patch true
          (patch_for c include_mode true (set_keys (changed_since r c.changes [])))
          (copy_of d include_mode)
          k
        ≡ copy_of c include_mode k
  patched le =
      rw
        (apply-patch_for c include_mode k keys (copy_of d include_mode) (view d.entries k)
          (copy_of-view d include_mode k))
        (right (s.logged le k))
    where
      keys : List BattleCacheKey
      keys = set_keys (changed_since r c.changes [])

      right :
          (view c.entries k ≡ view d.entries k) ⊎ LoggedSince r k c.changes
          → (if is_member k keys then copy_of c include_mode k else copy_of d include_mode k)
            ≡ copy_of c include_mode k
      right (inl h) = ground (arith, copy_of_same c d include_mode k h)
      right (inr logged) = rw (
          is_member_of_Member k keys
            (set_keys-Member k _ (changed_since-contains r k c.changes [] (inl logged))))

  delivers :
      r < u64_max
      → receive
          (patch_since c r include_mode true)
          (copy_of c include_mode)
          (copy_of d include_mode)
          k
        ≡ copy_of c include_mode k
  unfolding patch_since
  delivers small = elim (Bool-cases (r == c.revision)) [
    | inl e ↦ rw e (up_to_date (ground arith))
    | inr e ↦ rw e (elim (Bool-cases (ltb c.revision r || history_lost c.changes r)) [
      | inl lost ↦ rw lost
      | inr kept ↦ rw kept (patched (reaches_back s.start r c.changes s.chain small (ground arith)))
    ])
  ]

-- After any history, and any further one, the answer of `patch_since` at the earlier revision, with its
-- cleared fields, brings the copy of the earlier cache of a client that merges upserts and clears the
-- named fields to the current cache, at every key and in every field. It is assumed that there are fewer
-- than 2^64 - 1 calls in all, so that the revision does not wrap.
pub patch_since-delivers :
    (before after : List Operation) (include_mode : Bool) (k : BattleCacheKey)
    → length before + length after < u64_max
    → let d = run empty_cache before in
      let c = run d after in
      receive
        (patch_since c d.revision include_mode true)
        (copy_of c include_mode)
        (copy_of d include_mode)
        k
      ≡ copy_of c include_mode k
patch_since-delivers before after include_mode k small =
    let d = run empty_cache before in
    let bound = run-revision-le empty_cache before in
    let zero_revision = empty-revision in
    delivers d.revision d (run d after) include_mode k
      (run-Synced d.revision d.entries d after (Synced-refl d (run-IsLogged before (omega arith)))
        (omega (arith, bound, zero_revision)))
      (omega (arith, bound, zero_revision))
