-- ===== src/Relay/Refresh.antt =====
-- `send_preexpiry_refresh_requests` of src/relay.rs: before objects time out, their source is asked to
-- report them again.
use minecraft_team_viewer_ba.Sources.Candidates.{Timed}
use minecraft_team_viewer_ba.Battle.Types.{BattleChunkEntry, BattleChunkRef, battle_key_order}
use minecraft_team_viewer_ba.Battle.Update.{is_empty}
use minecraft_team_viewer_ba.Objects.Fields.{F64}
use minecraft_team_viewer_ba.Prelude.Map.{Map, contains_key, insert, lookup}
use minecraft_team_viewer_ba.Relay.Types.{Clock, Relay, RelayConfig, SourceState, seconds}
use minecraft_team_viewer_ba.Prelude.{
  Bool, List, Option, [], false, if◌then◌else◌, leb, ltb, none, not, some, suc, ℕ, ◌&&◌, ◌-◌, ◌||◌,
  ◌∷◌,
}
use minecraft_team_viewer_ba.Prelude.Text.{Text, codes, nat_key, text_key}

pub record RefreshRequest : Type 0 where
  pub reason : Text
  pub server_time : F64
  pub players : List Text
  pub entities : List Text
  pub battle_chunks : List BattleChunkRef

-- `age < timeout && timeout.saturating_sub(age) <= lead`
unfoldable pub expires_soon : ℕ → ℕ → ℕ → ℕ → Bool
expires_soon now timeout lead received_at =
    let age = now - received_at in ltb age (seconds timeout) && leb (seconds timeout - age) lead

-- The loop over a table with its `break`: the reference of each object that times out soon, if it has one.
unfoldable pub refresh_items :
    {V R : Type 0} → ℕ → (Text → V → Option R) → (ℕ → Bool) → ℕ → Map Text (Timed V) → List R
refresh_items max_items reference is_due count [] = []
refresh_items max_items reference is_due count ((id, value) ∷ table) =
    let rest = refresh_items max_items reference is_due count table in
    let more = refresh_items max_items reference is_due (suc count) table in
    if is_due value.received_at
    then (elim (reference id value.content) [
      | none ↦ rest
      | some item ↦ if leb max_items (suc count) then item ∷ [] else item ∷ more
    ])
    else rest

abbrev pub chunk_reference : Text → BattleChunkEntry → Option BattleChunkRef
chunk_reference id entry = entry.reference

unfoldable pub refresh_request : RelayConfig → Clock → SourceState → RefreshRequest
unfolding expires_soon refresh_items
refresh_request config clock source =
    let lead = config.refresh_lead in
    record {
      reason = codes "pre_expiry";
      server_time = clock.unix_seconds;
      players =
          refresh_items config.refresh_max_items (λ id value. some id)
            (expires_soon clock.now config.player_timeout_sec lead) 0 source.players;
      entities =
          refresh_items config.refresh_max_items (λ id value. some id)
            (expires_soon clock.now config.entity_timeout_sec lead) 0 source.entities;
      battle_chunks =
          refresh_items config.refresh_max_items chunk_reference
            (expires_soon clock.now config.battle_chunk_timeout_sec lead) 0 source.battle_chunks;
    }

unfoldable pub asks_nothing : RefreshRequest → Bool
asks_nothing request =
    is_empty request.players && is_empty request.entities && is_empty request.battle_chunks

-- Whether the last request to a source is too recent.
unfoldable pub cools_down : RelayConfig → ℕ → Option ℕ → Bool
cools_down config now none = false
cools_down config now (some last) = ltb (now - last) config.refresh_cooldown

-- The first loop, over the sources that are connected.
unfoldable pub refresh_requests :
    Relay → Clock → Map Text SourceState → List (Text × RefreshRequest)
unfolding refresh_request asks_nothing cools_down
refresh_requests relay clock [] = []
refresh_requests relay clock ((source_id, source) ∷ sources) =
    let rest = refresh_requests relay clock sources in
    let request = refresh_request relay.config clock source in
    if not (contains_key source_id relay.connections)
      || cools_down relay.config clock.now (lookup source_id relay.last_refresh_sent)
    then rest
    else if asks_nothing request
    then rest
    else (source_id, request) ∷ rest

-- The second loop: a request that the channel takes is remembered. Whether it does is the channel's.
unfoldable pub send_requests :
    (Text → Bool)
    → ℕ
    → List (Text × RefreshRequest)
    → Map Text ℕ
    → Map Text ℕ × List (Text × RefreshRequest)
send_requests accepts now [] sent = (sent, [])
send_requests accepts now ((source_id, request) ∷ requests) sent =
    let refused = send_requests accepts now requests sent in
    let taken = send_requests accepts now requests (insert source_id now sent) in
    if accepts source_id then (taken.0, (source_id, request) ∷ taken.1) else refused

unfoldable pub send_preexpiry_refresh_requests :
    (Text → Bool) → Clock → Relay → Relay × List (Text × RefreshRequest)
unfolding refresh_requests send_requests
send_preexpiry_refresh_requests accepts clock relay =
    let result =
      send_requests accepts clock.now (refresh_requests relay clock relay.sources)
        relay.last_refresh_sent in
    (record relay { last_refresh_sent = result.0 }, result.1)
