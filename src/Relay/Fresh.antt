-- ===== src/Relay/Fresh.antt =====
-- What `cleanup_timeouts` of src/relay.rs leaves in the tables of a source.
use minecraft_team_viewer_ba.Relay.Stay.{
  IsFreshTable, IsWaypointStay, waypoint_timeout-IsWaypointStay, without_stale-IsFreshTable,
}
use minecraft_team_viewer_ba.Objects.Sync.{IsDistinctTable, received_at}
use minecraft_team_viewer_ba.Relay.Types.{Connection, Relay, RelayConfig, SourceState}
use minecraft_team_viewer_ba.Relay.Timeouts.{
  cleanup_source, cleanup_sources, cleanup_tab, cleanup_tables, cleanup_timeouts, is_fresh,
  tab_is_stale,
}
use minecraft_team_viewer_ba.Prelude.Map.{Map, contains_key, lookup}
use minecraft_team_viewer_ba.Prelude.{
  Bool, Bool-cases, Option, [], ap, arith, false, inl, inr, map_option, none, not, refl, some,
  subst, sym, true, ℕ, ◌&&◌, ◌*◌, ◌-◌, ◌<◌, ◌∷◌, ◌≡◌, ◌⊎◌,
}
use minecraft_team_viewer_ba.Prelude.Text.{Text, Text-discrete, nat_key, text_key}

-- The tables of a source have no key twice.
pub record HasDistinctTables (source : SourceState) : Type 0 where
  pub players : IsDistinctTable source.players
  pub entities : IsDistinctTable source.entities
  pub waypoints : IsDistinctTable source.waypoints
  pub battle_chunks : IsDistinctTable source.battle_chunks

-- The tab list of a source is dropped if the source has no connection and the list came too long ago.
abbrev IsTabDropped : ℕ → RelayConfig → Bool → Option ℕ → Type 0
IsTabDropped now config true received_at = ⊥
IsTabDropped now config false none = ⊥
IsTabDropped now config false (some t) = config.tab_report_timeout_sec * 1_000_000_000 < now - t

abbrev pub TabAged : ℕ → RelayConfig → Bool → SourceState → SourceState → Type 0
TabAged now config is_connected before after =
    (IsTabDropped now config is_connected before.tab_received_at
      × (after.tab_players ≡ [])
      × (after.tab_received_at ≡ none)
      × (after.tab_timestamp ≡ none))
    ⊎ (¬ (IsTabDropped now config is_connected before.tab_received_at)
        × (after.tab_players ≡ before.tab_players)
        × (after.tab_received_at ≡ before.tab_received_at)
        × (after.tab_timestamp ≡ before.tab_timestamp))

-- A source before and after the clean-up.
pub record IsCleaned (config : RelayConfig) (now : ℕ) (is_connected : Bool)
    (before after : SourceState) : Type 0 where
  pub players :
      IsFreshTable now
        (λ value limit. limit ≡ config.player_timeout_sec)
        before.players
        after.players
  pub entities :
      IsFreshTable now
        (λ value limit. limit ≡ config.entity_timeout_sec)
        before.entities
        after.entities
  pub waypoints : IsFreshTable now (IsWaypointStay config) before.waypoints after.waypoints
  pub battle_chunks :
      IsFreshTable now
        (λ value limit. limit ≡ config.battle_chunk_timeout_sec)
        before.battle_chunks
        after.battle_chunks
  pub tab : TabAged now config is_connected before after
  pub rest :
      record after {
        players = before.players;
        entities = before.entities;
        waypoints = before.waypoints;
        battle_chunks = before.battle_chunks;
        tab_players = before.tab_players;
        tab_received_at = before.tab_received_at;
        tab_timestamp = before.tab_timestamp;
      }
      ≡ before

tab_is_stale-cases :
    (config : RelayConfig) (now : ℕ) (is_connected : Bool) (source : SourceState)
    → (IsTabDropped now config is_connected source.tab_received_at
        × ((not is_connected && tab_is_stale config now source) ≡ true))
      ⊎ (¬ (IsTabDropped now config is_connected source.tab_received_at)
          × ((not is_connected && tab_is_stale config now source) ≡ false))
tab_is_stale-cases config now true source = inr ((λ d. d), refl)
tab_is_stale-cases config now false source = at source.tab_received_at
  where
    at :
        (received_at : Option ℕ)
        → (IsTabDropped now config false received_at
            × ((elim received_at [
              | none ↦ false
              | some t ↦ not (is_fresh now config.tab_report_timeout_sec t)
            ])
                ≡ true))
          ⊎ (¬ (IsTabDropped now config false received_at)
              × ((elim received_at [
                | none ↦ false
                | some t ↦ not (is_fresh now config.tab_report_timeout_sec t)
              ])
                  ≡ false))
    at none = inr ((λ d. d), refl)
    at (some t) = elim (Bool-cases (is_fresh now config.tab_report_timeout_sec t)) [
      | inl e ↦ inr ((λ d. ground (arith, d, e)), ground arith)
      | inr e ↦ inl (ground arith, ground arith)
    ]

module _ (config : RelayConfig) (now : ℕ) (source : SourceState)
    (d : HasDistinctTables source) where
  tables-IsCleaned :
      (is_connected : Bool) (after : SourceState)
      → TabAged now config is_connected source after
      → (record (cleanup_tables config now source) {
        tab_players = after.tab_players;
        tab_received_at = after.tab_received_at;
        tab_timestamp = after.tab_timestamp;
      }
          ≡ after)
      → IsCleaned config now is_connected source after
  unfolding cleanup_tables
  tables-IsCleaned is_connected after tab same =
      subst (IsCleaned config now is_connected source) same (record {
        players = without_stale-IsFreshTable now _ _ source.players (λ value. refl) d.players;
        entities = without_stale-IsFreshTable now _ _ source.entities (λ value. refl) d.entities;
        waypoints =
            without_stale-IsFreshTable now _ _ source.waypoints
              (waypoint_timeout-IsWaypointStay config) d.waypoints;
        battle_chunks =
            without_stale-IsFreshTable now _ _ source.battle_chunks (λ value. refl) d.battle_chunks;
        tab = tab;
        rest = refl;
      })

cleanup_source-IsCleaned :
    (config : RelayConfig) (now : ℕ) (is_connected : Bool) (source : SourceState)
    → HasDistinctTables source
    → IsCleaned config now is_connected source (cleanup_source config now is_connected source)
unfolding cleanup_source cleanup_tables cleanup_tab
cleanup_source-IsCleaned config now is_connected source d =
    elim (tab_is_stale-cases config now is_connected source) [
      | inl (dropped, e) ↦ rw e (
          tables-IsCleaned config now source d is_connected _ (inl (dropped, refl, refl, refl))
            refl)
      | inr (kept, e) ↦
          rw e (
            tables-IsCleaned config now source d is_connected _ (inr (kept, refl, refl, refl)) refl)
    ]

-- The source is still there, and cleaned.
abbrev pub Cleaned : RelayConfig → ℕ → Bool → Option SourceState → Option SourceState → Type 0
Cleaned config now is_connected none after = after ≡ none
Cleaned config now is_connected (some before) none = ⊥
Cleaned config now is_connected (some before) (some after) =
    IsCleaned config now is_connected before after

abbrev pub DistinctAt : Option SourceState → Type 0
DistinctAt none = Unit {0}
DistinctAt (some source) = HasDistinctTables source

lookup-cleanup_sources :
    (config : RelayConfig) (now : ℕ) (connections : Map Text Connection) (id : Text)
    (sources : Map Text SourceState)
    → lookup id (cleanup_sources config now connections sources).0
      ≡ map_option (cleanup_source config now (contains_key id connections)) (lookup id sources)
unfolding cleanup_sources lookup
lookup-cleanup_sources config now connections id [] = refl
lookup-cleanup_sources config now connections id ((i, source) ∷ sources) =
    elim (Text-discrete i id) [
      | yes e ↦
          ground (
            arith,
            ap (λ j. some (cleanup_source config now (contains_key j connections) source)) e,
          )
      | no n ↦ ground (arith, lookup-cleanup_sources config now connections id sources)
    ]

map_option-Cleaned :
    (config : RelayConfig) (now : ℕ) (is_connected : Bool) (source : Option SourceState)
    → DistinctAt source
    → Cleaned config now is_connected source
        (map_option (cleanup_source config now is_connected) source)
map_option-Cleaned config now is_connected none d = refl
map_option-Cleaned config now is_connected (some source) d =
    cleanup_source-IsCleaned config now is_connected source d

-- A clean-up leaves at every source the players, entities and battle chunks that came at most as many
-- seconds ago as the configuration allows for each, and no others. A waypoint stays for ten years if it
-- is permanent, else for its own time held between five seconds and a day, or for the configured time.
-- The tab list stays unless its source has no connection and it is older than the configured time. Nothing
-- else of a source or of the relay changes but the battle caches, and no source is added or removed. The
-- tables of the source have distinct ids.
pub cleanup_timeouts-Cleaned :
    (now : ℕ) (relay : Relay) (id : Text)
    → DistinctAt (lookup id relay.sources)
    → let after = (cleanup_timeouts now relay).0 in
      Cleaned relay.config now
        (contains_key id relay.connections)
        (lookup id relay.sources)
        (lookup id after.sources)
      × (record after { sources = relay.sources; battle_caches = relay.battle_caches } ≡ relay)
unfolding cleanup_timeouts
cleanup_timeouts-Cleaned now relay id d = (
  subst (Cleaned relay.config now (contains_key id relay.connections) (lookup id relay.sources))
      (sym (lookup-cleanup_sources relay.config now relay.connections id relay.sources))
      (map_option-Cleaned relay.config now (contains_key id relay.connections)
        (lookup id relay.sources) d),
  refl,
)
