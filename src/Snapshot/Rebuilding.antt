-- ===== src/Snapshot/Rebuilding.antt =====
-- What `adapt_outbound_patch` of src/protocol_compat.rs does to the battle chunks of a patch, as a client
-- that does not know `clear_fields` sees it.
use minecraft_team_viewer_ba.Prelude.Map.{lookup}
use minecraft_team_viewer_ba.Battle.Merge.{merge_onto, merge_onto_complete, project_option}
use minecraft_team_viewer_ba.Battle.Patch.{patch_for, patch_upsert, project_value, proto_entry}
use minecraft_team_viewer_ba.Battle.Client.{
  Copy, apply_patch, cached_merged, is_deleted, is_member, merge_option, merge_upsert, refers,
  upsert_of, upsert_of-patch_for,
}
use minecraft_team_viewer_ba.Battle.Types.{
  BattleCacheKey, BattleChunkPatchScope, BattleChunkRef, BattleChunkUpsert, BattleChunkValue,
  BattleRoomCache, CachedBattleChunk, battle_key_order,
}
use minecraft_team_viewer_ba.Snapshot.Adapt.{
  BattleChunkRef-discrete, push_new, push_reference, rebuild_chunk_upserts, rebuild_chunks,
}
use minecraft_team_viewer_ba.Prelude.{
  Bool, Bool-cases, List, Option, [], ap, arith, contains, false, if◌then◌else◌, inl, inr,
  map_option, none, not, refl, some, subst, sym, true, ◌&&◌, ◌++◌, ◌||◌, ◌∙◌, ◌∷◌, ◌≡◌,
}
use minecraft_team_viewer_ba.Prelude.Text.{nat_key, text_key}
use minecraft_team_viewer_ba.Battle.Update.{is_empty}

-- An upsert of a key is one of a cached chunk, with its cleared fields.
abbrev pub FromCache : Bool → BattleCacheKey → Option BattleChunkUpsert → Type 0
FromCache mode k none = Unit {0}
FromCache mode k (some u) = (entry : CachedBattleChunk) × (u ≡ patch_upsert mode true k entry)

pub patch_for-FromCache :
    (c : BattleRoomCache) (mode : Bool) (k : BattleCacheKey) (keys : List BattleCacheKey)
    → FromCache mode k (upsert_of k (patch_for c mode true keys).upsert)
patch_for-FromCache c mode k keys =
    subst (FromCache mode k) (sym (upsert_of-patch_for c mode true k keys))
      (cases (is_member k keys) (lookup k c.entries))
  where
    cases :
        (member : Bool) (found : Option CachedBattleChunk)
        → FromCache mode k (if member then map_option (patch_upsert mode true k) found else none)
    cases false found = tt
    cases true none = tt
    cases true (some entry) = (entry, refl)

abbrev without_fields : BattleChunkUpsert → BattleChunkUpsert
without_fields u = record u { clear_fields = [] }

upsert_of-rebuild :
    (k : BattleCacheKey) (us : List BattleChunkUpsert) (delete : List BattleChunkRef)
    → upsert_of k (rebuild_chunk_upserts us delete).0 ≡ map_option without_fields (upsert_of k us)
unfolding upsert_of rebuild_chunk_upserts
upsert_of-rebuild k [] delete = refl
upsert_of-rebuild k (u ∷ us) delete = ground (
  arith,
  upsert_of-rebuild k us
      (if is_empty u.clear_fields then delete else push_reference u.reference delete),
)

is_deleted-append :
    (k : BattleCacheKey) (r : BattleChunkRef) (delete : List BattleChunkRef)
    → is_deleted k (delete ++ r ∷ []) ≡ is_deleted k delete || refers k r
unfolding is_deleted
is_deleted-append k r [] = ground arith
is_deleted-append k r (d ∷ delete) = ground (arith, is_deleted-append k r delete)

is_deleted_contained :
    (k : BattleCacheKey) (r : BattleChunkRef) (delete : List BattleChunkRef)
    → contains BattleChunkRef-discrete r delete ≡ true
    → is_deleted k delete ≡ (is_deleted k delete || refers k r)
unfolding is_deleted contains
is_deleted_contained k r [] h = ground arith
is_deleted_contained k r (d ∷ delete) h = elim (BattleChunkRef-discrete d r) [
  | yes e ↦ ground (arith, ap (refers k) e)
  | no n ↦ ground (arith, is_deleted_contained k r delete)
]

-- Pushing a reference deletes the key that it is to, and no other.
is_deleted-push_new :
    (k : BattleCacheKey) (r : BattleChunkRef) (delete : List BattleChunkRef)
    → is_deleted k (push_new BattleChunkRef-discrete r delete) ≡ is_deleted k delete || refers k r
unfolding push_new
is_deleted-push_new k r delete = elim (Bool-cases (contains BattleChunkRef-discrete r delete)) [
  | inl e ↦ rw e (is_deleted_contained k r delete e)
  | inr e ↦ rw e (is_deleted-append k r delete)
]

refers_option : BattleCacheKey → Option BattleChunkRef → Bool
refers_option k none = false
refers_option k (some r) = refers k r

-- What the loop deletes of a key besides: the key of an upsert that clears fields.
drops : BattleCacheKey → List BattleChunkUpsert → Bool
unfolding refers_option
drops k [] = false
drops k (u ∷ us) = (refers_option k u.reference && not (is_empty u.clear_fields)) || drops k us

is_deleted-rebuild :
    (k : BattleCacheKey) (us : List BattleChunkUpsert) (delete : List BattleChunkRef)
    → is_deleted k (rebuild_chunk_upserts us delete).1 ≡ is_deleted k delete || drops k us
unfolding rebuild_chunk_upserts drops push_reference refers_option
is_deleted-rebuild k [] delete = ground arith
is_deleted-rebuild k (u ∷ us) delete =
    let next = if is_empty u.clear_fields then delete else push_reference u.reference delete in
    is_deleted-rebuild k us next ∙ pushed u.reference (is_empty u.clear_fields)
  where
    pushed :
        (r : Option BattleChunkRef) (keep : Bool)
        → is_deleted k (if keep then delete else push_reference r delete) || drops k us
          ≡ is_deleted k delete || ((refers_option k r && not keep) || drops k us)
    pushed r true = ground arith
    pushed none false = ground arith
    pushed (some r) false = ground (arith, is_deleted-push_new k r delete)

drops-none :
    (k : BattleCacheKey) (us : List BattleChunkUpsert) → upsert_of k us ≡ none → drops k us ≡ false
unfolding drops refers_option upsert_of
drops-none k [] h = refl
drops-none k (u ∷ us) h = ground (arith, drops-none k us)

drops-some :
    (k : BattleCacheKey) (us : List BattleChunkUpsert) (u : BattleChunkUpsert)
    → upsert_of k us ≡ some u
    → is_empty u.clear_fields ≡ false
    → drops k us ≡ true
unfolding drops refers_option upsert_of
drops-some k [] u h e = absurd (cc h)
drops-some k (v ∷ us) u h e = ground (arith, drops-some k us u)

module _ (mode : Bool) (k : BattleCacheKey) (raw : Option BattleChunkValue) where
  -- A chunk that is deleted first if it clears fields needs no names of fields.
  legacy_merged :
      (entry : CachedBattleChunk) (deleted : Bool)
      → (is_empty (patch_upsert mode true k entry).clear_fields ≡ false → deleted ≡ true)
      → merge_upsert false
          (without_fields (patch_upsert mode true k entry))
          (if deleted then none else project_option mode raw)
        ≡ some (project_value mode entry.value)
  unfolding merge_upsert patch_upsert proto_entry merge_onto
  legacy_merged entry true h = refl
  legacy_merged entry false h = ap some (merge_onto_complete entry.value mode raw (ground arith))

  known_merged :
      (entry : CachedBattleChunk) (deleted : Bool)
      → merge_upsert true
          (patch_upsert mode true k entry)
          (if deleted then none else project_option mode raw)
        ≡ some (project_value mode entry.value)
  known_merged entry true = cached_merged mode k none entry
  known_merged entry false = cached_merged mode k raw entry

  -- For a client that knows no cleared fields, deleting and sending anew comes to the same as they.
  pub apply_patch-rebuild :
      (scope : BattleChunkPatchScope) (copy : Copy)
      → copy k ≡ project_option mode raw
      → (found : Option BattleChunkUpsert) → upsert_of k scope.upsert ≡ found
      → FromCache mode k found
      → apply_patch false (rebuild_chunks scope) copy k ≡ apply_patch true scope copy k
  unfolding apply_patch rebuild_chunks merge_option
  apply_patch-rebuild scope copy shown none e from =
      rw
        (
          upsert_of-rebuild k scope.upsert scope.delete,
          is_deleted-rebuild k scope.upsert scope.delete,
          e,
          drops-none k scope.upsert e,
        )
        (ground arith)
  apply_patch-rebuild scope copy shown (some u) e (entry, same) =
      rw
        (
          upsert_of-rebuild k scope.upsert scope.delete,
          is_deleted-rebuild k scope.upsert scope.delete,
          e,
          shown,
          same,
        )
        (legacy_merged entry (is_deleted k scope.delete || drops k scope.upsert) (λ h.
            ground (arith, drops-some k scope.upsert u e, ap (λ v. is_empty v.clear_fields) same))
          ∙ sym (known_merged entry (is_deleted k scope.delete)))
