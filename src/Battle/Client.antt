-- ===== src/Battle/Client.antt =====
-- A client's copy of the battle chunks of a room, as a function of the key, and what a
-- `BattleChunkPatchScope` of src/relay.rs does to it: it first removes what is deleted, then merges an
-- upsert onto what is left. A client that does not know `clear_fields` does not read them.
use minecraft_team_viewer_ba.Battle.Merge.{merge_onto, merge_onto-cleared, project_option}
use minecraft_team_viewer_ba.Prelude.Map.{lookup}
use minecraft_team_viewer_ba.Battle.Cache.{from_ref, to_ref}
use minecraft_team_viewer_ba.Battle.Patch.{patch_for, patch_upsert, project_value, proto_entry}
use minecraft_team_viewer_ba.Battle.Types.{
  BattleCacheKey, BattleCacheKey-discrete, BattleChunkPatchScope, BattleChunkRef, BattleChunkUpsert,
  BattleChunkValue, BattleRoomCache, CachedBattleChunk, battle_key_order,
}
use minecraft_team_viewer_ba.Prelude.{
  Bool, List, Option, Option-cases, [], ap, arith, false, if◌then◌else◌, inl, inr, is_some, ite,
  map_option, none, not, refl, some, true, ◌&&◌, ◌||◌, ◌∷◌, ◌≡◌, ◌≢◌,
}

abbrev pub Copy : Type 0
Copy = BattleCacheKey → Option BattleChunkValue

-- What a client that is sent `full_entries` holds.
unfoldable pub copy_of : BattleRoomCache → Bool → Copy
unfolding project_value
copy_of c include_mode k = elim (lookup k c.entries) [
  | none ↦ none
  | some entry ↦ some (project_value include_mode entry.value)
]

-- Whether a reference is to the key.
unfoldable pub refers : BattleCacheKey → BattleChunkRef → Bool
unfolding BattleCacheKey-discrete from_ref
refers k reference = elim (from_ref reference reference.dimension) [
  | none ↦ false
  | some j ↦ ite (BattleCacheKey-discrete j k) true false
]

-- The upsert of a key; a patch has one at most, since its keys are those of a set.
unfoldable pub upsert_of : BattleCacheKey → List BattleChunkUpsert → Option BattleChunkUpsert
upsert_of k [] = none
upsert_of k (u ∷ us) = elim u.reference [
  | none ↦ upsert_of k us
  | some reference ↦ if refers k reference then some u else upsert_of k us
]

unfoldable pub is_deleted : BattleCacheKey → List BattleChunkRef → Bool
is_deleted k [] = false
is_deleted k (reference ∷ rest) = refers k reference || is_deleted k rest

unfoldable pub merge_upsert :
    Bool → BattleChunkUpsert → Option BattleChunkValue → Option BattleChunkValue
unfolding merge_onto
merge_upsert knows u old = elim u.payload [
  | none ↦ old
  | some value ↦ some (merge_onto (if knows then u.clear_fields else []) old value)
]

unfoldable pub merge_option :
    Bool → Option BattleChunkUpsert → Option BattleChunkValue → Option BattleChunkValue
unfolding merge_upsert
merge_option knows none old = old
merge_option knows (some u) old = merge_upsert knows u old

unfoldable pub apply_patch : Bool → BattleChunkPatchScope → Copy → Copy
unfolding merge_option upsert_of is_deleted
apply_patch knows patch copy k =
    merge_option knows (upsert_of k patch.upsert)
      (if is_deleted k patch.delete then none else copy k)

pub refers-to_ref_self : (k : BattleCacheKey) → refers k (to_ref k) ≡ true
unfolding refers to_ref from_ref
refers-to_ref_self k = ground arith

pub refers-to_ref_ne : (j k : BattleCacheKey) → j ≢ k → refers k (to_ref j) ≡ false
unfolding refers to_ref from_ref
refers-to_ref_ne j k n = elim (BattleCacheKey-discrete j k) [
  | yes e ↦ absurd (n e)
  | no _ ↦ ground arith
]

unfoldable pub is_member : BattleCacheKey → List BattleCacheKey → Bool
unfolding BattleCacheKey-discrete
is_member k [] = false
is_member k (j ∷ js) = ite (BattleCacheKey-discrete j k) true (is_member k js)

-- The upsert that a patch has for a key of the cache.
abbrev pub cached_upsert : BattleRoomCache → Bool → Bool → BattleCacheKey → Option BattleChunkUpsert
cached_upsert c include_mode include_clear_fields k =
    map_option (patch_upsert include_mode include_clear_fields k) (lookup k c.entries)

module _ (c : BattleRoomCache) (include_mode include_clear_fields : Bool) (k : BattleCacheKey) where
  abbrev patch : List BattleCacheKey → BattleChunkPatchScope
  patch keys = patch_for c include_mode include_clear_fields keys

  -- The patch upserts the keys that are cached.
  pub upsert_of-patch_for :
      (keys : List BattleCacheKey)
      → upsert_of k (patch keys).upsert
        ≡ (if is_member k keys then cached_upsert c include_mode include_clear_fields k else none)
  unfolding patch_for upsert_of is_member patch_upsert proto_entry
  upsert_of-patch_for [] = refl
  upsert_of-patch_for (j ∷ keys) = elim (BattleCacheKey-discrete j k) [
    | yes same ↦ rw same (ground (arith, upsert_of-patch_for keys, refers-to_ref_self k))
    | no other ↦ ground (arith, upsert_of-patch_for keys, refers-to_ref_ne j k other)
  ]

  -- It deletes those that are not.
  pub is_deleted-patch_for :
      (keys : List BattleCacheKey)
      → is_deleted k (patch keys).delete
        ≡ (is_member k keys && not (is_some (copy_of c include_mode k)))
  unfolding patch_for is_deleted is_member copy_of
  is_deleted-patch_for [] = refl
  is_deleted-patch_for (j ∷ keys) = elim (BattleCacheKey-discrete j k) [
    | yes same ↦ rw same (ground (arith, is_deleted-patch_for keys, refers-to_ref_self k))
    | no other ↦ ground (arith, is_deleted-patch_for keys, refers-to_ref_ne j k other)
  ]

-- A cached chunk's upsert, merged onto any projected value with its cleared fields.
pub cached_merged :
    (include_mode : Bool) (k : BattleCacheKey) (raw : Option BattleChunkValue)
    (entry : CachedBattleChunk)
    → merge_upsert true (patch_upsert include_mode true k entry) (project_option include_mode raw)
      ≡ some (project_value include_mode entry.value)
unfolding merge_upsert patch_upsert proto_entry
cached_merged include_mode k raw entry = ap some (merge_onto-cleared entry.value include_mode raw)

module _ (c : BattleRoomCache) (include_mode : Bool) (k : BattleCacheKey) where
  copy_of-lookup :
      (found : Option CachedBattleChunk)
      → lookup k c.entries ≡ found
      → copy_of c include_mode k
        ≡ map_option (λ entry. project_value include_mode entry.value) found
  unfolding copy_of
  copy_of-lookup found e = ap (map_option (λ entry. project_value include_mode entry.value)) e

  merged :
      (raw : Option BattleChunkValue)
      → merge_option true (cached_upsert c include_mode true k) (
          if not (is_some (copy_of c include_mode k))
          then none
          else project_option include_mode raw)
        ≡ copy_of c include_mode k
  unfolding merge_option
  merged raw = elim (Option-cases (lookup k c.entries)) [
    | inl e ↦ rw (copy_of-lookup none e, e) refl
    | inr (entry, e) ↦
        rw (copy_of-lookup (some entry) e, e) (cached_merged include_mode k raw entry)
  ]

  -- So a client that applies it is right at the keys of the patch, and unchanged elsewhere.
  pub apply-patch_for :
      (keys : List BattleCacheKey) (copy : Copy) (raw : Option BattleChunkValue)
      → copy k ≡ project_option include_mode raw
      → apply_patch true (patch_for c include_mode true keys) copy k
        ≡ (if is_member k keys then copy_of c include_mode k else copy k)
  unfolding apply_patch
  apply-patch_for keys copy raw h =
      rw
        (
          upsert_of-patch_for c include_mode true k keys,
          is_deleted-patch_for c include_mode true k keys,
        )
        (cases (is_member k keys))
    where
      cases :
          (member : Bool)
          → merge_option true
              (if member then cached_upsert c include_mode true k else none)
              (if member && not (is_some (copy_of c include_mode k)) then none else copy k)
            ≡ (if member then copy_of c include_mode k else copy k)
      cases true = rw h (merged raw)
      cases false = unfold merge_option in refl
