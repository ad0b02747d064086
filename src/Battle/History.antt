-- ===== src/Battle/History.antt =====
-- The calls that the relay of src/relay.rs makes of a room's `BattleRoomCache`, and their histories.
use minecraft_team_viewer_ba.Prelude.{List, [], ℕ, ◌∷◌}
use minecraft_team_viewer_ba.Battle.Types.{BattleChunkEntry, BattleRoomCache, battle_key_order}
use minecraft_team_viewer_ba.Battle.Update.{cleanup, upsert}

-- One report stored at a time, or one periodic cleanup; each with the limit in force.
pub data Operation : Type 0 where
  upserts : (entries : List BattleChunkEntry) (received_at max_entries : ℕ) → Operation
  cleans : (now retention max_entries : ℕ) → Operation

abbrev pub limit : Operation → ℕ
limit (upserts entries received_at max_entries) = max_entries
limit (cleans now retention max_entries) = max_entries

unfoldable pub step : BattleRoomCache → Operation → BattleRoomCache
step c (upserts entries received_at max_entries) = (upsert c entries received_at max_entries).0
step c (cleans now retention max_entries) = (cleanup c now retention max_entries).0

unfoldable pub run : BattleRoomCache → List Operation → BattleRoomCache
run c [] = c
run c (op ∷ ops) = run (step c op) ops
