-- ===== src/Relay/Observation.antt =====
-- `apply_battle_observation` and `choose_battle_candidate_by_overlap` of src/relay.rs: where a piece of a
-- battle map lies, and the chunks it says something of.
use minecraft_team_viewer_ba.Sources.Candidates.{Timed}
use minecraft_team_viewer_ba.Battle.Types.{BattleChunkEntry, battle_key_order}
use minecraft_team_viewer_ba.Battle.Update.{is_empty}
use minecraft_team_viewer_ba.Prelude.Int.{
  ltb_ℤ, negsuc, pos, wrap_signed, wrapping_abs, wrapping_sub, ℤ, ◌+ℤ◌,
}
use minecraft_team_viewer_ba.Prelude.Map.{Map, insert, lookup, remove}
use minecraft_team_viewer_ba.Relay.Types.{BattleProjection, SourceState, timed}
use minecraft_team_viewer_ba.Snapshot.Diff.{same_text}
use minecraft_team_viewer_ba.Snapshot.Keys.{battle_entry_key, battle_key}
use minecraft_team_viewer_ba.Snapshot.Strip.{same_option}
use minecraft_team_viewer_ba.Prelude.{
  Bool, List, Option, [], false, if◌then◌else◌, ltb, map, none, not, some, suc, ℕ, ◌&&◌, ◌==◌, ◌^◌,
  ◌||◌, ◌∷◌,
}
use minecraft_team_viewer_ba.Prelude.Text.{Text, codes, nat_key, text_key, trim}

pub record ObservationCandidate : Type 0 where
  pub source : Text
  pub base_chunk_x : ℤ
  pub base_chunk_z : ℤ
  pub position_sampled_at : ℤ

pub record ObservationCell : Type 0 where
  pub rel_chunk_x : ℤ
  pub rel_chunk_z : ℤ
  pub symbol : Option Text
  pub color_raw : Text

pub record BattleMapObservation : Type 0 where
  pub dimension : Text
  pub mode : Option Text
  pub candidates : List ObservationCandidate
  pub cells : List ObservationCell
  pub snapshot_observed_at : ℤ

unfoldable pub saturating_add_i32 : ℤ → ℤ → ℤ
saturating_add_i32 a b =
    let sum = a +ℤ b in
    if ltb_ℤ (pos 2147483647) sum
    then pos 2147483647
    else if ltb_ℤ sum (negsuc 2147483647)
    then negsuc 2147483647
    else sum

-- `matches!(candidate.source, ..)`
unfoldable pub is_history_source : Text → Bool
is_history_source source =
    same_text source (codes "history_primary")
    || same_text source (codes "history_boundary_alternative")

unfoldable pub history_candidates : List ObservationCandidate → List ObservationCandidate
unfolding is_history_source
history_candidates [] = []
history_candidates (candidate ∷ candidates) =
    let rest = history_candidates candidates in
    if is_history_source candidate.source then candidate ∷ rest else rest

unfoldable pub colored_cells : List ObservationCell → List ObservationCell
colored_cells [] = []
colored_cells (cell ∷ cells) =
    let rest = colored_cells cells in if is_empty (trim cell.color_raw) then rest else cell ∷ rest

-- The key of the chunk that a cell is for a candidate.
unfoldable pub cell_key : Text → ObservationCandidate → ObservationCell → Text
unfolding battle_key saturating_add_i32
cell_key dimension candidate cell =
    battle_key dimension (saturating_add_i32 candidate.base_chunk_x cell.rel_chunk_x)
      (saturating_add_i32 candidate.base_chunk_z cell.rel_chunk_z)

unfoldable pub agrees : Option (Timed BattleChunkEntry) → ObservationCell → Bool
unfolding same_option
agrees none cell = false
agrees (some entry) cell = elim (entry.content).payload [
  | none ↦ false
  | some value ↦
      same_option same_text value.symbol cell.symbol && same_text value.color_raw cell.color_raw
]

-- The cells that a candidate puts on chunks known to look the same.
unfoldable pub overlap_score :
    Text → Map Text (Timed BattleChunkEntry) → ObservationCandidate → List ObservationCell → ℕ
unfolding cell_key agrees
overlap_score dimension chunks candidate [] = 0
overlap_score dimension chunks candidate (cell ∷ cells) =
    let rest = overlap_score dimension chunks candidate cells in
    if agrees (lookup (cell_key dimension candidate cell) chunks) cell then suc rest else rest

-- The first of the highest scores, as the stable sort by `Reverse` puts it in front.
unfoldable pub best_scored : List (ℕ × ObservationCandidate) → Option (ℕ × ObservationCandidate)
best_scored [] = none
best_scored (entry ∷ entries) = elim (best_scored entries) [
  | none ↦ some entry
  | some best ↦ some (if ltb (entry.0) (best.0) then best else entry)
]

unfoldable pub count_score : ℕ → List (ℕ × ObservationCandidate) → ℕ
count_score score [] = 0
count_score score (entry ∷ entries) =
    let rest = count_score score entries in if entry.0 == score then suc rest else rest

unfoldable pub choose_battle_candidate_by_overlap :
    List ObservationCandidate
    → List ObservationCell
    → Text
    → Map Text (Timed BattleChunkEntry)
    → Option ObservationCandidate
unfolding overlap_score best_scored count_score
choose_battle_candidate_by_overlap candidates cells dimension chunks =
    let scored = map (λ c. (overlap_score dimension chunks c cells, c)) candidates in
    elim (best_scored scored) [
      | none ↦ none
      | some (best_score, best) ↦
          if count_score best_score scored == 1 || (best_score == 0 && is_empty chunks)
          then some best
          else none
    ]

-- The number of values of an `i32` and of an `i64`.
abbrev pub i32_values : ℕ
i32_values = 2 ^ 32

abbrev pub i64_values : ℕ
i64_values = 2 ^ 64

-- `(a - b).abs()` of two `i32`.
unfoldable pub distance : ℤ → ℤ → ℤ
unfolding wrap_signed
distance a b = wrapping_abs i32_values (wrapping_sub i32_values a b)

unfoldable pub is_near : BattleProjection → ObservationCandidate → Bool
unfolding wrap_signed distance
is_near previous candidate = not (
    ltb_ℤ (pos 1) (
      wrap_signed i32_values (
        distance candidate.base_chunk_x previous.base_chunk_x
        +ℤ distance candidate.base_chunk_z previous.base_chunk_z)))

unfoldable pub near_previous :
    BattleProjection → List ObservationCandidate → List ObservationCandidate
unfolding is_near
near_previous previous [] = []
near_previous previous (candidate ∷ candidates) =
    let rest = near_previous previous candidates in
    if is_near previous candidate then candidate ∷ rest else rest

-- `(0..=10_000).contains(&(report_time - previous_time))`, and the same dimension.
unfoldable pub is_recent : Text → ℤ → BattleProjection → Bool
unfolding wrap_signed
is_recent dimension observed_at previous =
    let age = wrapping_sub i64_values observed_at previous.snapshot_observed_at in
    same_text previous.dimension dimension && not (ltb_ℤ age (pos 0)) && not (ltb_ℤ (pos 10000) age)

unfoldable pub choose_candidate :
    List ObservationCandidate
    → List ObservationCell
    → Text
    → ℤ
    → Option BattleProjection
    → Map Text (Timed BattleChunkEntry)
    → Option ObservationCandidate
unfolding choose_battle_candidate_by_overlap near_previous is_recent
choose_candidate (candidate ∷ []) cells dimension observed_at projection chunks = some candidate
choose_candidate candidates cells dimension observed_at none chunks =
    choose_battle_candidate_by_overlap candidates cells dimension chunks
choose_candidate candidates cells dimension observed_at (some previous) chunks =
    let by_overlap = choose_battle_candidate_by_overlap candidates cells dimension chunks in
    if is_recent dimension observed_at previous
    then elim (near_previous previous candidates) [
      | [] ↦ by_overlap
      | candidate ∷ others ↦ if is_empty others then some candidate else by_overlap
    ]
    else by_overlap

-- `cell.symbol` without an empty text.
abbrev pub cell_symbol : Option Text → Option Text
cell_symbol none = none
cell_symbol (some []) = none
cell_symbol (some (c ∷ cs)) = some (c ∷ cs)

abbrev pub marker_of : Option Text → Option Text
marker_of none = none
marker_of (some symbol) =
    if same_text symbol (codes "╫") || same_text symbol (codes "╬")
    then some (codes "war_core")
    else none

abbrev pub observed_mode : Option Text → Text
observed_mode none = codes "generic"
observed_mode (some mode) =
    if same_text (trim mode) (codes "simmc") then codes "simmc" else codes "generic"

unfoldable pub observed_dimension : Text → Text
observed_dimension dimension =
    if is_empty (trim dimension) then codes "minecraft:overworld" else trim dimension

unfoldable pub observed_entry :
    Text
    → Text
    → Text
    → BattleMapObservation
    → ObservationCandidate
    → ObservationCell
    → BattleChunkEntry
unfolding saturating_add_i32 observed_dimension
observed_entry reporter_id room dimension report chosen cell = record {
  reference = some (record {
    dimension = dimension;
    coord = some (record {
      chunk_x = saturating_add_i32 chosen.base_chunk_x cell.rel_chunk_x;
      chunk_z = saturating_add_i32 chosen.base_chunk_z cell.rel_chunk_z;
    });
  });
  payload = some (record {
    symbol = cell_symbol cell.symbol;
    marker_type = marker_of (cell_symbol cell.symbol);
    color_raw = trim cell.color_raw;
    color_note = none;
    observed_at = some (report.snapshot_observed_at);
    position_sampled_at = some (chosen.position_sampled_at);
    alignment_source = some (chosen.source);
    reporter_id = some reporter_id;
    room_code = some room;
    color_mode = some (codes "raw_observed");
    color_semantic_key = none;
    mode = some (observed_mode report.mode);
  });
}

-- The chunks of the source, the ids of the new projection and the entries for the cache.
pub record Placed : Type 0 where
  pub chunks : Map Text (Timed BattleChunkEntry)
  pub chunk_ids : List Text
  pub cache_entries : List BattleChunkEntry

unfoldable pub place_entries :
    ℕ → List BattleChunkEntry → Map Text (Timed BattleChunkEntry) → Placed
unfolding battle_entry_key
place_entries now [] chunks = record { chunks = chunks; chunk_ids = []; cache_entries = [] }
place_entries now (entry ∷ entries) chunks = elim (battle_entry_key entry) [
  | none ↦ place_entries now entries chunks
  | some key ↦
      let rest = place_entries now entries (insert key (timed entry now) chunks) in
      record rest { chunk_ids = key ∷ rest.chunk_ids; cache_entries = entry ∷ rest.cache_entries }
]

unfoldable pub remove_keys : {V : Type 0} → List Text → Map Text V → Map Text V
remove_keys [] m = m
remove_keys (key ∷ keys) m = remove_keys keys (remove key m)

abbrev pub projected_ids : Option BattleProjection → List Text
projected_ids none = []
projected_ids (some previous) = previous.chunk_ids

-- A projection that is chosen replaces the chunks of the one before.
unfoldable pub place_projection :
    SourceState
    → Text
    → BattleMapObservation
    → ℕ
    → Text
    → List ObservationCell
    → ObservationCandidate
    → SourceState × List BattleChunkEntry
unfolding observed_entry place_entries remove_keys
place_projection source reporter_id report received_at dimension cells chosen =
    let placed =
      place_entries received_at
        (map (observed_entry reporter_id source.room dimension report chosen) cells)
        (remove_keys (projected_ids source.battle_projection) source.battle_chunks) in
    (
      record source {
        battle_chunks = placed.chunks;
        battle_projection = some (record {
          dimension = dimension;
          base_chunk_x = chosen.base_chunk_x;
          base_chunk_z = chosen.base_chunk_z;
          snapshot_observed_at = report.snapshot_observed_at;
          chunk_ids = placed.chunk_ids;
        });
      },
      placed.cache_entries,
    )

unfoldable pub apply_battle_observation :
    SourceState → Text → BattleMapObservation → ℕ → SourceState × List BattleChunkEntry
unfolding observed_dimension history_candidates colored_cells choose_candidate place_projection
apply_battle_observation source reporter_id report received_at =
    let dimension = observed_dimension report.dimension in
    let candidates = history_candidates report.candidates in
    let cells = colored_cells report.cells in
    if is_empty candidates || is_empty cells
    then (source, [])
    else elim (choose_candidate candidates cells dimension report.snapshot_observed_at
        source.battle_projection source.battle_chunks) [
          | none ↦ (source, [])
          | some chosen ↦
              place_projection source reporter_id report received_at dimension cells chosen
        ]
