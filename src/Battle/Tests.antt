-- ===== src/Battle/Tests.antt =====
-- Runs of the battle chunk cache of src/relay.rs, and its theorems at them.
use minecraft_team_viewer_ba.Prelude.Map.{insert, lookup, remove}
use minecraft_team_viewer_ba.Battle.Client.{copy_of}
use minecraft_team_viewer_ba.Battle.Limit.{step-le_limit}
use minecraft_team_viewer_ba.Prelude.Loop.{while}
use minecraft_team_viewer_ba.Battle.Cache.{
  admitted, empty_cache, from_ref, is_current, pop_expiry_batch, pop_oldest_key, remove_current,
  saturating_add, store, to_ref, upsert_entries, upsert_entry, visible_changed, wrapping_next,
}
use minecraft_team_viewer_ba.Battle.Update.{
  cleanup, evict_to_limit, expire, front_expired, over_limit, pending_pops, prune_periodically,
  push_changes, queued, record_changes, recorded, started, stored, trim_changes, upsert, upserted,
}
use minecraft_team_viewer_ba.Battle.Delivery.{patch_since-delivers, receive}
use minecraft_team_viewer_ba.Battle.History.{Operation, cleans, run, step, upserts}
use minecraft_team_viewer_ba.Battle.Patch.{
  battle_missing_fields, changed_since, history_lost, insert_keys, patch_for, patch_since,
  patch_upsert, project_value, proto_entry,
}
use minecraft_team_viewer_ba.Battle.Types.{
  BattleCacheKey, BattleCacheKey-discrete, BattleChunkEntry, BattleChunkPatchScope, BattleChunkRef,
  BattleChunkUpsert, BattleChunkValue, BattleChunkValue-discrete, BattleRoomCache, battle_key_order,
  key_ltb,
}
use minecraft_team_viewer_ba.Prelude.{
  List, Option, [], arith, false, length, none, refl, some, true, ℕ, ℕ_discrete, ◌∷◌, ◌≡◌, ◌≤◌,
}
use minecraft_team_viewer_ba.Prelude.Int.{pos, ℤ-discrete}
use minecraft_team_viewer_ba.Prelude.Text.{
  Text-discrete, codes, nat_key, text_key, text_ltb, trim, trim_start,
}

abbrev pub red : BattleChunkValue
red = record {
  symbol = some (codes "A");
  marker_type = none;
  color_raw = codes "#f00";
  color_note = none;
  observed_at = some (pos 7);
  position_sampled_at = none;
  alignment_source = none;
  reporter_id = none;
  room_code = none;
  color_mode = none;
  color_semantic_key = none;
  mode = some (codes "simmc");
}

abbrev pub chunk_at : ℕ → BattleChunkValue → BattleChunkEntry
chunk_at x value = record {
  reference = some (record {
    dimension = codes " nether ";
    coord = some (record { chunk_x = pos x; chunk_z = pos 0 });
  });
  payload = some value;
}

abbrev pub key_at : ℕ → BattleCacheKey
key_at x = record { dimension = codes "nether"; chunk_x = pos x; chunk_z = pos 0 }

abbrev pub before : List Operation
before = upserts (chunk_at 1 red ∷ chunk_at 2 red ∷ []) 0 10 ∷ []

-- It has lost its symbol and its mode.
abbrev blue : BattleChunkValue
blue = record red {
  symbol = none;
  color_raw = codes "#00f";
  color_note = some (codes "sea");
  mode = none;
}

-- The second report changes chunk 2 and adds chunk 3; the cleanup then drops the first report's batch,
-- in which chunk 1 alone is current.
abbrev pub after : List Operation
after = upserts (chunk_at 2 blue ∷ chunk_at 3 red ∷ []) 5 10 ∷ cleans 12 10 10 ∷ []

abbrev cache : BattleRoomCache
cache = run (run empty_cache before) after

program : Unit {0}
unfolding run step upsert cleanup upserted stored started queued upsert_entries upsert_entry store
    admitted from_ref trim trim_start Text-discrete evict_to_limit expire front_expired
    pop_expiry_batch over_limit pending_pops while recorded record_changes push_changes trim_changes
    wrapping_next saturating_add prune_periodically lookup insert remove visible_changed is_current
    remove_current pop_oldest_key key_ltb text_ltb BattleCacheKey-discrete BattleChunkValue-discrete
    ℤ-discrete ℕ_discrete empty_cache patch_since patch_for changed_since insert_keys history_lost
    to_ref proto_entry project_value battle_missing_fields patch_upsert
program = tt

cache_revision : cache.revision ≡ 3
unfolding program
cache_revision = refl

-- The patch since revision 1 upserts chunks 2 and 3 and deletes chunk 1.
abbrev delete_of : Option (Option BattleChunkPatchScope) → List BattleChunkRef
delete_of (some (some patch)) = patch.delete
delete_of _ = []

abbrev upserts_of : Option (Option BattleChunkPatchScope) → List BattleChunkUpsert
upserts_of (some (some patch)) = patch.upsert
upserts_of _ = []

cache_delete : delete_of (patch_since cache 1 true false) ≡ to_ref (key_at 1) ∷ []
unfolding program
cache_delete = refl

cache_upsert : length (upserts_of (patch_since cache 1 true false)) ≡ 2
unfolding program
cache_upsert = refl

patch_since-delivers_example :
    receive
      (patch_since cache (run empty_cache before).revision true true)
      (copy_of cache true)
      (copy_of (run empty_cache before) true)
      (key_at 2)
    ≡ copy_of cache true (key_at 2)
patch_since-delivers_example = patch_since-delivers before after true (key_at 2) (omega arith)

step-le_limit_example :
    length (step (run empty_cache before) (upserts (chunk_at 3 red ∷ []) 5 2)).entries ≤ 2
step-le_limit_example = step-le_limit before (upserts (chunk_at 3 red ∷ []) 5 2)
