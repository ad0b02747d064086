-- ===== src/Battle/Types.antt =====
-- The battle chunk messages that src/relay.rs builds and reads, and the key, entry and batch types
-- of `BattleRoomCache`. An `Arc` is its contents; an `Instant` is a number of nanoseconds.
use minecraft_team_viewer_ba.Prelude.{Bool, List, Option, false, if◌then◌else◌, true, ℕ, ℕ_discrete}
use minecraft_team_viewer_ba.Prelude.Int.{ltb_ℤ, ℤ, ℤ-discrete}
use minecraft_team_viewer_ba.Prelude.Map.{Key, Map}
use minecraft_team_viewer_ba.Prelude.Text.{Text, Text-discrete, text_ltb}

pub record BattleChunkCoord : Type 0 where
  pub chunk_x : ℤ
  pub chunk_z : ℤ

pub record BattleChunkRef : Type 0 where
  pub dimension : Text
  pub coord : Option BattleChunkCoord

pub record BattleChunkValue : Type 0 where
  pub symbol : Option Text
  pub marker_type : Option Text
  pub color_raw : Text
  pub color_note : Option Text
  pub observed_at : Option ℤ
  pub position_sampled_at : Option ℤ
  pub alignment_source : Option Text
  pub reporter_id : Option Text
  pub room_code : Option Text
  pub color_mode : Option Text
  pub color_semantic_key : Option Text
  pub mode : Option Text

pub record BattleChunkEntry : Type 0 where
  pub reference : Option BattleChunkRef
  pub payload : Option BattleChunkValue

pub record BattleChunkUpsert : Type 0 where
  pub reference : Option BattleChunkRef
  pub payload : Option BattleChunkValue
  pub clear_fields : List Text

pub record BattleChunkPatchScope : Type 0 where
  pub upsert : List BattleChunkUpsert
  pub delete : List BattleChunkRef

pub record BattleCacheKey : Type 0 where
  pub dimension : Text
  pub chunk_x : ℤ
  pub chunk_z : ℤ

unfoldable pub BattleCacheKey-discrete : Discrete BattleCacheKey
unfolding Text-discrete ℤ-discrete ℕ_discrete
BattleCacheKey-discrete = hlevel (ℕ_discrete)

unfoldable pub BattleChunkValue-discrete : Discrete BattleChunkValue
unfolding Text-discrete ℤ-discrete ℕ_discrete
BattleChunkValue-discrete = hlevel (ℕ_discrete)

-- The derived `Ord`: field by field, in the order of the declaration.
unfoldable pub key_ltb : BattleCacheKey → BattleCacheKey → Bool
unfolding text_ltb
key_ltb a b =
    if text_ltb a.dimension b.dimension
    then true
    else if text_ltb b.dimension a.dimension
    then false
    else if ltb_ℤ a.chunk_x b.chunk_x
    then true
    else if ltb_ℤ b.chunk_x a.chunk_x
    then false
    else ltb_ℤ a.chunk_z b.chunk_z

instance abbrev pub battle_key_order : Key BattleCacheKey
battle_key_order = record { eq = BattleCacheKey-discrete; ltb = key_ltb }

pub record CachedBattleChunk : Type 0 where
  pub value : BattleChunkValue
  pub generation : ℕ

pub record BattleExpiryBatch : Type 0 where
  pub received_at : ℕ
  pub generation : ℕ
  pub keys : List BattleCacheKey

pub record BattleChangeBatch : Type 0 where
  pub revision : ℕ
  pub keys : List BattleCacheKey

-- The front of a deque is the head of its list.
pub record BattleRoomCache : Type 0 where
  pub entries : Map BattleCacheKey CachedBattleChunk
  pub expiry : List BattleExpiryBatch
  pub changes : List BattleChangeBatch
  pub change_operations : ℕ
  pub revision : ℕ
  pub next_generation : ℕ
  pub evictions_total : ℕ
