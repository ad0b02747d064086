-- ===== src/Snapshot/Delivery.antt =====
-- What `state_payload_for_profile_with_battle` of src/relay.rs does to a client's battle chunks: with the
-- whole state, a patch, an adapted patch or nothing at all, the client follows the cache of its room.
use minecraft_team_viewer_ba.Battle.Merge.{project_option}
use minecraft_team_viewer_ba.Battle.Tracking.{view}
use minecraft_team_viewer_ba.Snapshot.Rebuilding.{patch_for-FromCache}
use minecraft_team_viewer_ba.Snapshot.Receiving.{
  AllFromCache, adapted, build_patch-chunks, chunks_of, empty-battle_chunks,
  entries_copy-full_entries, patch_copy, receive_payload, strip-battle_chunks,
}
use minecraft_team_viewer_ba.Battle.Cache.{empty_cache, u64_max}
use minecraft_team_viewer_ba.Battle.History.{Operation, run}
use minecraft_team_viewer_ba.Battle.Delivery.{copy_of-view, patch_since-delivers, receive}
use minecraft_team_viewer_ba.Snapshot.Strip.{patch_is_empty, strip_player_positions}
use minecraft_team_viewer_ba.Snapshot.Types.{Patch, SnapshotFull}
use minecraft_team_viewer_ba.Compat.Profile.{
  ProtocolProfile, supports_battle_chunk_mode, supports_clear_fields,
}
use minecraft_team_viewer_ba.Objects.Fields.{F64}
use minecraft_team_viewer_ba.Snapshot.Diff.{Same, build_patch}
use minecraft_team_viewer_ba.Battle.Update.{set_keys}
use minecraft_team_viewer_ba.Battle.Client.{Copy, copy_of}
use minecraft_team_viewer_ba.Battle.Patch.{changed_since, history_lost, patch_since}
use minecraft_team_viewer_ba.Battle.Types.{
  BattleCacheKey, BattleChunkPatchScope, BattleChunkValue, BattleRoomCache, battle_key_order,
}
use minecraft_team_viewer_ba.Snapshot.Payload.{
  battle_patch_for, finish_patch, full_chunks, full_payload, payload_from, state_payload,
  with_battle,
}
use minecraft_team_viewer_ba.Prelude.{
  Bool, Bool-cases, List, Option, [], ap, arith, false, inl, inr, length, ltb, none, refl, some,
  subst, sym, true, ℕ, ◌+◌, ◌<◌, ◌==◌, ◌||◌, ◌∙◌, ◌≡◌,
}

module _ (same : Same) (same_f64 : F64 → F64 → Bool) (profile : ProtocolProfile) (copy : Copy)
    (mode : Bool) (k : BattleCacheKey) (raw : Option BattleChunkValue)
    (shown : copy k ≡ project_option mode raw) where
  -- A finished patch has the effect that it had before on a client that knows cleared fields.
  finished :
      (strip : Bool) (delivered : SnapshotFull) (patch : Option Patch)
      → AllFromCache mode k (chunks_of patch)
      → receive_payload
          (supports_clear_fields profile)
          (finish_patch same same_f64 profile strip delivered patch)
          copy
          k
        ≡ patch_copy true (chunks_of patch) copy k
  unfolding finish_patch receive_payload patch_copy
  finished strip delivered none p = refl
  finished false delivered (some patch) p = adapted mode k raw profile patch copy shown p
  finished true delivered (some patch) p =
      let stripped = strip_player_positions same_f64 delivered patch in
      let kept = strip-battle_chunks same_f64 delivered patch in
      elim (Bool-cases (patch_is_empty stripped)) [
        | inl e ↦ rw e (
            ap (λ chunks. patch_copy true chunks copy k)
              (sym (empty-battle_chunks stripped e) ∙ kept))
        | inr e ↦ rw e (
            adapted mode k raw profile stripped copy shown
              (subst (AllFromCache mode k) (sym kept) p)
            ∙ ap (λ chunks. patch_copy true chunks copy k) kept)
      ]

chunks_of-with_battle :
    (battle : Option BattleChunkPatchScope) (patch : Option Patch)
    → chunks_of patch ≡ none
    → chunks_of (with_battle battle patch) ≡ battle
unfolding with_battle
chunks_of-with_battle none patch h = h
chunks_of-with_battle (some scope) patch h = refl

abbrev AnswerFromCache : Bool → BattleCacheKey → Option (Option BattleChunkPatchScope) → Type 0
AnswerFromCache mode k none = Unit {0}
AnswerFromCache mode k (some chunks) = AllFromCache mode k chunks

patch_since-AnswerFromCache :
    (c : BattleRoomCache) (r : ℕ) (mode : Bool) (k : BattleCacheKey)
    → AnswerFromCache mode k (patch_since c r mode true)
unfolding patch_since
patch_since-AnswerFromCache c r mode k = elim (Bool-cases (r == c.revision)) [
  | inl e ↦ rw e tt
  | inr e ↦ rw e (elim (Bool-cases (ltb c.revision r || history_lost c.changes r)) [
    | inl lost ↦ rw lost tt
    | inr kept ↦ rw kept (patch_for-FromCache c mode k (set_keys (changed_since r c.changes [])))
  ])
]

battle_patch_for-patch_since :
    (profile : ProtocolProfile) (r : ℕ) (c : BattleRoomCache)
    → battle_patch_for profile r (some c)
      ≡ patch_since c r (supports_battle_chunk_mode profile) true
unfolding battle_patch_for patch_since
battle_patch_for-patch_since profile r c = ground arith

module _ (same : Same) (same_f64 : F64 → F64 → Bool) (profile : ProtocolProfile)
    (force_full strip : Bool) (delivered target : SnapshotFull)
    (no_old : delivered.battle_chunks ≡ []) (no_new : target.battle_chunks ≡ []) where
  abbrev mode : Bool
  mode = supports_battle_chunk_mode profile

  abbrev knows : Bool
  knows = supports_clear_fields profile

  full_copy :
      (c : BattleRoomCache) (old : Copy) (k : BattleCacheKey)
      → receive_payload knows (some (full_payload profile target (some c))) old k ≡ copy_of c mode k
  unfolding receive_payload full_payload full_chunks
  full_copy c old k = entries_copy-full_entries c mode k

  -- A patch with the chunks of the cache does what they do.
  battle_copy :
      (battle : Option BattleChunkPatchScope) (old : Copy) (k : BattleCacheKey)
      (raw : Option BattleChunkValue)
      → old k ≡ project_option mode raw
      → AllFromCache mode k battle
      → receive_payload knows
          (finish_patch same same_f64 profile strip delivered
            (with_battle battle (build_patch same delivered target)))
          old
          k
        ≡ patch_copy true battle old k
  battle_copy battle old k raw shown p =
      let patch = with_battle battle (build_patch same delivered target) in
      let same_chunks =
        chunks_of-with_battle battle (build_patch same delivered target)
          (build_patch-chunks same delivered target no_old no_new) in
      finished same same_f64 profile old mode k raw shown strip delivered patch
        (subst (AllFromCache mode k) (sym same_chunks) p)
      ∙ ap (λ chunks. patch_copy true chunks old k) same_chunks

  payload_copy :
      (c : BattleRoomCache) (old : Copy) (k : BattleCacheKey) (raw : Option BattleChunkValue)
      (answer : Option (Option BattleChunkPatchScope))
      → old k ≡ project_option mode raw
      → AnswerFromCache mode k answer
      → receive answer (copy_of c mode) old k ≡ copy_of c mode k
      → receive_payload knows
          (payload_from same same_f64 profile force_full delivered strip target (some c) answer)
          old
          k
        ≡ copy_of c mode k
  unfolding payload_from
  payload_copy c old k raw none shown p h = full_copy c old k
  payload_copy c old k raw (some battle) shown p h = elim (Bool-cases force_full) [
    | inl e ↦ rw e (full_copy c old k)
    | inr e ↦ rw e (battle_copy battle old k raw shown p ∙ received battle h)
  ]
    where
      received :
          (b : Option BattleChunkPatchScope)
          → receive (some b) (copy_of c mode) old k ≡ copy_of c mode k
          → patch_copy true b old k ≡ copy_of c mode k
      received none e = unfold patch_copy in e
      received (some scope) e = unfold patch_copy in e

-- After any history of a room's cache, and any further one, what a client is sent brings its copy of the
-- battle chunks at the revision that was delivered to the current cache, at every key and in every field:
-- the whole state, a patch, with or without the player positions, or nothing. The client merges upserts
-- after deletions. If its version supports `clear_fields`, it empties the fields they name; if not, it
-- ignores them, and the patch is adapted to it. Snapshots carry no battle chunks of their own, and there
-- are fewer than 2^64 - 1 calls of the cache in all.
pub state_payload-delivers :
    (same : Same) (same_f64 : F64 → F64 → Bool) (profile : ProtocolProfile)
    (force_full strip : Bool) (delivered target : SnapshotFull) (before after : List Operation)
    (k : BattleCacheKey)
    → delivered.battle_chunks ≡ []
    → target.battle_chunks ≡ []
    → length before + length after < u64_max
    → let mode = supports_battle_chunk_mode profile in
      let d = run empty_cache before in
      let c = run d after in
      receive_payload
        (supports_clear_fields profile)
        (state_payload same same_f64 profile force_full
          (some delivered)
          d.revision
          strip
          target
          (some c))
        (copy_of d mode)
        k
      ≡ copy_of c mode k
unfolding state_payload
state_payload-delivers same same_f64 profile force_full strip delivered target before after k no_old
      no_new small =
    let mode = supports_battle_chunk_mode profile in
    let d = run empty_cache before in
    let c = run d after in
    ap
      (λ answer.
        receive_payload (supports_clear_fields profile)
          (payload_from same same_f64 profile force_full delivered strip target (some c) answer)
          (copy_of d mode) k)
      (battle_patch_for-patch_since profile d.revision c)
    ∙ payload_copy same same_f64 profile force_full strip delivered target no_old no_new c
        (copy_of d mode) k (view d.entries k) (patch_since c d.revision mode true)
        (copy_of-view d mode k) (patch_since-AnswerFromCache c d.revision mode k)
        (patch_since-delivers before after mode k small)
