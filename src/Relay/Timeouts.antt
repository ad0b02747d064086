-- ===== src/Relay/Timeouts.antt =====
-- `cleanup_timeouts` of src/relay.rs: what is too old leaves the tables of every source.
use minecraft_team_viewer_ba.Battle.Types.{BattleRoomCache, battle_key_order}
use minecraft_team_viewer_ba.Objects.Waypoint.{WaypointData}
use minecraft_team_viewer_ba.Sources.Candidates.{Timed}
use minecraft_team_viewer_ba.Battle.Update.{cleanup, is_empty}
use minecraft_team_viewer_ba.Prelude.Int.{negsuc, pos, ℤ}
use minecraft_team_viewer_ba.Prelude.Map.{Map, contains_key, retain}
use minecraft_team_viewer_ba.Relay.Types.{Connection, Relay, RelayConfig, SourceState, seconds}
use minecraft_team_viewer_ba.Prelude.{
  Bool, [], false, if◌then◌else◌, leb, length, max, min, none, not, some, unwrap_or, ℕ, ◌&&◌, ◌-◌,
  ◌==◌, ◌||◌, ◌∷◌,
}
use minecraft_team_viewer_ba.Prelude.Text.{Text, nat_key, text_key}

-- `now.duration_since(received_at) <= Duration::from_secs(timeout)`
abbrev pub is_fresh : ℕ → ℕ → ℕ → Bool
is_fresh now timeout received_at = leb (now - received_at) (seconds timeout)

-- `u64::try_from(ttl.clamp(5, 86_400))`
unfoldable pub clamp_ttl : ℤ → ℕ
clamp_ttl (pos n) = max 5 (min n 86_400)
clamp_ttl (negsuc n) = 5

unfoldable pub waypoint_timeout : RelayConfig → WaypointData → ℕ
unfolding clamp_ttl
waypoint_timeout config waypoint =
    if unwrap_or waypoint.permanent false then 315_360_000 else (elim waypoint.ttl_seconds [
      | none ↦ config.waypoint_timeout_sec
      | some ttl ↦ clamp_ttl ttl
    ])

-- A table without its stale objects, by the time each may stay.
unfoldable pub without_stale : {V : Type 0} → ℕ → (V → ℕ) → Map Text (Timed V) → Map Text (Timed V)
unfolding retain
without_stale now timeout table =
    retain (λ id value. is_fresh now (timeout value.content) value.received_at) table

-- `before != table.len()`
abbrev pub shrank : {V : Type 0} → Map Text V → Map Text V → Bool
shrank before after = not (length before == length after)

abbrev pub tab_is_stale : RelayConfig → ℕ → SourceState → Bool
tab_is_stale config now source = elim source.tab_received_at [
  | none ↦ false
  | some received_at ↦ not (is_fresh now config.tab_report_timeout_sec received_at)
]

unfoldable pub cleanup_tables : RelayConfig → ℕ → SourceState → SourceState
unfolding without_stale waypoint_timeout
cleanup_tables config now source = record source {
  players = without_stale now (λ value. config.player_timeout_sec) source.players;
  entities = without_stale now (λ value. config.entity_timeout_sec) source.entities;
  waypoints = without_stale now (waypoint_timeout config) source.waypoints;
  battle_chunks = without_stale now (λ value. config.battle_chunk_timeout_sec) source.battle_chunks;
}

-- The reported tab list of a source without a connection leaves by its own timeout.
unfoldable pub cleanup_tab : RelayConfig → ℕ → Bool → SourceState → SourceState
cleanup_tab config now is_connected source =
    if not is_connected && tab_is_stale config now source
    then record source { tab_players = []; tab_received_at = none; tab_timestamp = none }
    else source

unfoldable pub cleanup_source : RelayConfig → ℕ → Bool → SourceState → SourceState
unfolding cleanup_tables cleanup_tab
cleanup_source config now is_connected source =
    cleanup_tab config now is_connected (cleanup_tables config now source)

unfoldable pub source_changed : RelayConfig → ℕ → Bool → SourceState → Bool
unfolding cleanup_tables
source_changed config now is_connected source =
    let after = cleanup_tables config now source in
    shrank source.players after.players
    || shrank source.entities after.entities
    || shrank source.waypoints after.waypoints
    || shrank source.battle_chunks after.battle_chunks
    || (not is_connected && tab_is_stale config now source && not (is_empty source.tab_players))

-- The loop over the sources.
unfoldable pub cleanup_sources :
    RelayConfig → ℕ → Map Text Connection → Map Text SourceState → Map Text SourceState × Bool
unfolding cleanup_source source_changed
cleanup_sources config now connections [] = ([], false)
cleanup_sources config now connections ((id, source) ∷ sources) =
    let is_connected = contains_key id connections in
    let rest = cleanup_sources config now connections sources in
    (
      (id, cleanup_source config now is_connected source) ∷ rest.0,
      source_changed config now is_connected source || rest.1,
    )

-- The loop over the caches of the rooms.
unfoldable pub cleanup_caches :
    RelayConfig → ℕ → Map Text BattleRoomCache → Map Text BattleRoomCache × Bool
unfolding cleanup
cleanup_caches config now [] = ([], false)
cleanup_caches config now ((room, cache) ∷ caches) =
    let cleaned =
      cleanup cache now (seconds config.battle_chunk_cache_retention_sec)
        config.battle_chunk_cache_max_entries in
    let rest = cleanup_caches config now caches in ((room, cleaned.0) ∷ rest.0, cleaned.1 || rest.1)

unfoldable pub cleanup_timeouts : ℕ → Relay → Relay × Bool
unfolding cleanup_sources cleanup_caches
cleanup_timeouts now relay =
    let sources = cleanup_sources relay.config now relay.connections relay.sources in
    let caches = cleanup_caches relay.config now relay.battle_caches in
    (record relay { sources = sources.0; battle_caches = caches.0 }, sources.1 || caches.1)
