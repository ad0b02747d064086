-- ===== src/Snapshot/Rebuilt.antt =====
-- What `adapt_outbound_patch` of src/protocol_compat.rs leaves of the scopes of a patch.
use minecraft_team_viewer_ba.Compat.Profile.{ProtocolProfile, supports_clear_fields}
use minecraft_team_viewer_ba.Battle.Types.{
  BattleChunkPatchScope, BattleChunkRef, BattleChunkUpsert, BattleChunkValue, battle_key_order,
}
use minecraft_team_viewer_ba.Objects.Table.{ObjectUpsert}
use minecraft_team_viewer_ba.Snapshot.Adapt.{
  BattleChunkRef-discrete, adapt_outbound_patch, push_new, push_reference, rebuild_chunk_upserts,
  rebuild_chunks, rebuild_scope, rebuild_upserts,
}
use minecraft_team_viewer_ba.Snapshot.Types.{Patch, PatchScope}
use minecraft_team_viewer_ba.Prelude.{
  All, Bool, Bool-cases, List, Option, [], ap, arith, contains, false, if◌then◌else◌, inl, inr, ite,
  map, map_option, none, not, refl, some, true, ◌&&◌, ◌++◌, ◌||◌, ◌∙◌, ◌∷◌, ◌≡◌,
}
use minecraft_team_viewer_ba.Prelude.Text.{Text, Text-discrete, nat_key, text_key}
use minecraft_team_viewer_ba.Battle.Update.{is_empty, upsert}

-- Whether an id has an upsert with cleared fields.
abbrev clears : {D : Type 0} → Text → List (ObjectUpsert D) → Bool
clears id [] = false
clears id (upsert ∷ upserts) =
    (ite (Text-discrete upsert.id id) true false && not (is_empty upsert.clear_fields))
    || clears id upserts

contains-append :
    {A : Type 0} (eq : Discrete A) (a b : A) (xs : List A)
    → contains eq a (xs ++ b ∷ []) ≡ contains eq a xs || ite (eq b a) true false
unfolding contains
contains-append eq a b [] = ground arith
contains-append eq a b (x ∷ xs) = ground (arith, contains-append eq a b xs)

contains-push_new :
    {A : Type 0} (eq : Discrete A) (a b : A) (xs : List A)
    → contains eq a (push_new eq b xs) ≡ contains eq a xs || ite (eq b a) true false
unfolding push_new
contains-push_new eq a b xs = elim (eq b a) [
  | yes e ↦ elim (Bool-cases (contains eq b xs)) [
    | inl h ↦ rw h (ground (arith, ap (λ c. contains eq c xs) e))
    | inr h ↦ rw h (contains-append eq a b xs)
  ]
  | no n ↦ ground (arith, contains-append eq a b xs)
]

-- What an upsert says of its object.
abbrev pub sent : {D : Type 0} → ObjectUpsert D → Text × Option D
sent u = (u.id, u.payload)

-- The deletions and the upserts of a rebuilt scope.
pub record IsRebuilt {D : Type 0} (before after : PatchScope D) : Type 0 where
  pub no_fields : All (λ u. u.clear_fields ≡ []) after.upsert
  pub upserts : map sent after.upsert ≡ map sent before.upsert
  pub deletes :
      (id : Text)
      → contains Text-discrete id after.delete
        ≡ contains Text-discrete id before.delete || clears id before.upsert

rebuild_upserts-IsRebuilt :
    {D : Type 0} (us : List (ObjectUpsert D)) (delete : List Text)
    → IsRebuilt
        (record { upsert = us; delete = delete })
        (record { upsert = (rebuild_upserts us delete).0; delete = (rebuild_upserts us delete).1 })
unfolding rebuild_upserts
rebuild_upserts-IsRebuilt [] delete = record {
  no_fields = tt;
  upserts = refl;
  deletes = λ id. ground arith;
}
rebuild_upserts-IsRebuilt (u ∷ us) delete =
    let delete' = if is_empty u.clear_fields then delete else push_new Text-discrete u.id delete in
    let rest = rebuild_upserts-IsRebuilt us delete' in
    record {
      no_fields = (refl, rest.no_fields);
      upserts = ap (◌∷◌ (sent u)) rest.upserts;
      deletes = λ id. rest.deletes id ∙ pushed id;
    }
  where
    pushed :
        (id : Text)
        → contains Text-discrete id
              (if is_empty u.clear_fields then delete else push_new Text-discrete u.id delete)
            || clears id us
          ≡ contains Text-discrete id delete
            || ((ite (Text-discrete u.id id) true false && not (is_empty u.clear_fields))
                || clears id us)
    pushed id = ground (arith, contains-push_new Text-discrete id u.id delete)

-- A scope that is not there stays away; one that is there is rebuilt.
abbrev pub Rebuilt : {D : Type 0} → Option (PatchScope D) → Option (PatchScope D) → Type 0
Rebuilt none after = after ≡ none
Rebuilt (some before) none = ⊥
Rebuilt (some before) (some after) = IsRebuilt before after

rebuild_scope-Rebuilt :
    {D : Type 0} (scope : Option (PatchScope D)) → Rebuilt scope (map_option rebuild_scope scope)
unfolding rebuild_scope
rebuild_scope-Rebuilt none = refl
rebuild_scope-Rebuilt (some scope) = rebuild_upserts-IsRebuilt scope.upsert scope.delete

abbrev is_named : BattleChunkRef → Option BattleChunkRef → Bool
is_named reference none = false
is_named reference (some r) = ite (BattleChunkRef-discrete r reference) true false

-- Whether a battle chunk has an upsert with cleared fields.
abbrev clears_chunk : BattleChunkRef → List BattleChunkUpsert → Bool
clears_chunk reference [] = false
clears_chunk reference (upsert ∷ upserts) =
    (is_named reference upsert.reference && not (is_empty upsert.clear_fields))
    || clears_chunk reference upserts

-- What an upsert says of its battle chunk.
abbrev pub sent_chunk : BattleChunkUpsert → Option BattleChunkRef × Option BattleChunkValue
sent_chunk u = (u.reference, u.payload)

-- The deletions and the upserts of the rebuilt battle chunks.
pub record IsRebuiltChunks (before after : BattleChunkPatchScope) : Type 0 where
  pub no_fields : All (λ u. u.clear_fields ≡ []) after.upsert
  pub upserts : map sent_chunk after.upsert ≡ map sent_chunk before.upsert
  pub deletes :
      (reference : BattleChunkRef)
      → contains BattleChunkRef-discrete reference after.delete
        ≡ contains BattleChunkRef-discrete reference before.delete
          || clears_chunk reference before.upsert

rebuild_chunk_upserts-IsRebuiltChunks :
    (us : List BattleChunkUpsert) (delete : List BattleChunkRef)
    → IsRebuiltChunks
        (record { upsert = us; delete = delete })
        (record {
          upsert = (rebuild_chunk_upserts us delete).0;
          delete = (rebuild_chunk_upserts us delete).1;
        })
unfolding rebuild_chunk_upserts push_reference
rebuild_chunk_upserts-IsRebuiltChunks [] delete = record {
  no_fields = tt;
  upserts = refl;
  deletes = λ reference. ground arith;
}
rebuild_chunk_upserts-IsRebuiltChunks (u ∷ us) delete =
    let delete' = if is_empty u.clear_fields then delete else push_reference u.reference delete in
    let rest = rebuild_chunk_upserts-IsRebuiltChunks us delete' in
    record {
      no_fields = (refl, rest.no_fields);
      upserts = ap (◌∷◌ (sent_chunk u)) rest.upserts;
      deletes = λ reference.
          rest.deletes reference ∙ pushed reference u.reference (is_empty u.clear_fields);
    }
  where
    pushed :
        (reference : BattleChunkRef) (r : Option BattleChunkRef) (keep : Bool)
        → contains BattleChunkRef-discrete reference
              (if keep then delete else push_reference r delete)
            || clears_chunk reference us
          ≡ contains BattleChunkRef-discrete reference delete
            || ((is_named reference r && not keep) || clears_chunk reference us)
    pushed reference r true = ground arith
    pushed reference none false = ground arith
    pushed reference (some r) false =
        ground (arith, contains-push_new BattleChunkRef-discrete reference r delete)

abbrev pub RebuiltChunks : Option BattleChunkPatchScope → Option BattleChunkPatchScope → Type 0
RebuiltChunks none after = after ≡ none
RebuiltChunks (some before) none = ⊥
RebuiltChunks (some before) (some after) = IsRebuiltChunks before after

rebuild_chunks-RebuiltChunks :
    (scope : Option BattleChunkPatchScope) → RebuiltChunks scope (map_option rebuild_chunks scope)
unfolding rebuild_chunks
rebuild_chunks-RebuiltChunks none = refl
rebuild_chunks-RebuiltChunks (some scope) =
    rebuild_chunk_upserts-IsRebuiltChunks scope.upsert scope.delete

-- For a peer that does not know `clear_fields`, each of the six scopes of a patch keeps what its upserts
-- say of each object or battle chunk, none of them has cleared fields, and an id or reference is deleted
-- exactly when it was before or has an upsert that cleared fields. The rest of the patch stays.
pub adapt_outbound_patch-Rebuilt :
    (profile : ProtocolProfile) (patch : Patch)
    → supports_clear_fields profile ≡ false
    → let after = adapt_outbound_patch profile patch in
      Rebuilt patch.players after.players
      × Rebuilt patch.entities after.entities
      × Rebuilt patch.waypoints after.waypoints
      × RebuiltChunks patch.battle_chunks after.battle_chunks
      × Rebuilt patch.last_seen_players after.last_seen_players
      × Rebuilt patch.player_marks after.player_marks
      × (record after {
        players = patch.players;
        entities = patch.entities;
        waypoints = patch.waypoints;
        battle_chunks = patch.battle_chunks;
        last_seen_players = patch.last_seen_players;
        player_marks = patch.player_marks;
      }
          ≡ patch)
unfolding adapt_outbound_patch
adapt_outbound_patch-Rebuilt profile patch h = rw h (
  rebuild_scope-Rebuilt patch.players,
  rebuild_scope-Rebuilt patch.entities,
  rebuild_scope-Rebuilt patch.waypoints,
  rebuild_chunks-RebuiltChunks patch.battle_chunks,
  rebuild_scope-Rebuilt patch.last_seen_players,
  rebuild_scope-Rebuilt patch.player_marks,
  refl,
)
