-- ===== src/Relay/Invariant.antt =====
-- What holds of the relay of src/relay.rs after any events: the count of the players that other parts
-- of the server read, and the bound of the list of sources that left.
use minecraft_team_viewer_ba.Relay.Refresh.{send_preexpiry_refresh_requests}
use minecraft_team_viewer_ba.Relay.Broadcast.{Encoding, broadcast}
use minecraft_team_viewer_ba.Relay.Spread.{broadcast-Keeps}
use minecraft_team_viewer_ba.Relay.Keeps.{
  IsSound, Keeps-IsSound, apply_web_map_command-Keeps, deliver-kind, length-record_disconnected,
  modify-Keeps, purge_room-Keeps,
}
use minecraft_team_viewer_ba.Relay.Apply.{apply_report}
use minecraft_team_viewer_ba.Relay.Timeouts.{cleanup_timeouts}
use minecraft_team_viewer_ba.Relay.Commands.{force_full}
use minecraft_team_viewer_ba.Relay.Handler.{
  Protocol, RelayEvent, active_connections_request, battle_chunk_meta, delete_last_seen_players,
  deliver, delivered, disconnected, handle_event, player_report, purge, register,
  report_policy_update, resync, snapshot_request, tab_history_changed, tab_history_subscription,
  web_map_command,
}
use minecraft_team_viewer_ba.Prelude.Int.{ℤ}
use minecraft_team_viewer_ba.Prelude.Map.{lookup}
use minecraft_team_viewer_ba.Relay.Admin.{delete_last_seen}
use minecraft_team_viewer_ba.Relay.Events.{
  RegisterConnection, count, disconnect, register_connection, update_player_connection_count,
}
use minecraft_team_viewer_ba.Relay.Types.{Clock, Relay, RelayConfig, new_relay}
use minecraft_team_viewer_ba.Prelude.{Bool, arith, refl, true, ℕ}
use minecraft_team_viewer_ba.Prelude.Text.{Text, nat_key, text_key}

register-IsSound :
    (clock : Clock) (connection : RegisterConnection) (relay : Relay)
    → IsSound relay
    → IsSound (register_connection clock connection relay)
unfolding register_connection update_player_connection_count
register-IsSound clock connection relay s = record { counted = refl; bounded = s.bounded }

disconnect-IsSound :
    (is_health : ℤ → Bool) (clock : Clock) (id : Text) (relay : Relay)
    → IsSound relay
    → IsSound (disconnect is_health clock id relay)
unfolding disconnect update_player_connection_count
disconnect-IsSound is_health clock id relay s = record {
  counted = refl;
  bounded =
      length-record_disconnected is_health clock id (lookup id relay.connections)
        (lookup id relay.sources) relay.disconnected_external_sources s.bounded;
}

module _ (Head Policy : Type 0) (protocol : Protocol) where
  pub handle_event-IsSound :
      (clock : Clock) (random : Text) (event : RelayEvent Head Policy) (relay : Relay)
      → IsSound relay
      → IsSound (handle_event protocol clock random event relay).0
  unfolding handle_event apply_report force_full delete_last_seen
  handle_event-IsSound clock random (register connection) relay s =
      register-IsSound clock connection relay s
  handle_event-IsSound clock random (disconnected id) relay s =
      disconnect-IsSound protocol.is_health clock id relay s
  handle_event-IsSound clock random (delivered id revision snapshot battle_revision) relay s =
      Keeps-IsSound
        (modify-Keeps relay id (deliver revision snapshot battle_revision)
          (deliver-kind revision snapshot battle_revision))
        s
  handle_event-IsSound clock random (player_report id report) relay s = record {
    counted = s.counted;
    bounded = s.bounded;
  }
  handle_event-IsSound clock random (resync id) relay s =
      let k = modify-Keeps relay id (λ c. record c { force_full = true }) (λ c. refl) in
      let s' = Keeps-IsSound k s in record { counted = s'.counted; bounded = s'.bounded }
  handle_event-IsSound clock random (battle_chunk_meta id requested) relay s = s
  handle_event-IsSound clock random (web_map_command id command) relay s =
      Keeps-IsSound (apply_web_map_command-Keeps clock random id command relay) s
  handle_event-IsSound clock random (tab_history_subscription id enabled) relay s =
      Keeps-IsSound
        (modify-Keeps relay id (λ c. record c { tab_history_subscribed = enabled }) (λ c. refl)) s
  handle_event-IsSound clock random (tab_history_changed room head) relay s = s
  handle_event-IsSound clock random (report_policy_update room policy) relay s = s
  handle_event-IsSound clock random (snapshot_request room) relay s = s
  handle_event-IsSound clock random (delete_last_seen_players records) relay s = record {
    counted = s.counted;
    bounded = s.bounded;
  }
  handle_event-IsSound clock random (purge room) relay s =
      Keeps-IsSound (purge_room-Keeps room relay) s
  handle_event-IsSound clock random (active_connections_request room) relay s = s

  -- The relay after events, each with the clock that it reads, and clean-ups, refresh requests and broadcasts between
  -- them.
  pub data Reached (config : RelayConfig) : Relay → Type 0 where
    start : (filter : Bool) → Reached config (new_relay config filter)
    handled :
        (clock : Clock)
        → (random : Text) → (event : RelayEvent Head Policy) → {relay : Relay}
        → Reached config relay
        → Reached config (handle_event protocol clock random event relay).0
    cleaned :
        (now : ℕ)
        → {relay : Relay} → Reached config relay
        → Reached config (cleanup_timeouts now relay).0
    refreshed :
        (accepts : Text → Bool)
        → (clock : Clock) → {relay : Relay} → Reached config relay
        → Reached config (send_preexpiry_refresh_requests accepts clock relay).0
    spread :
        (encoding : Encoding)
        → (now : ℕ) → (clock : Clock) → (state_dirty : Bool) → {relay : Relay}
        → Reached config relay
        → Reached config (broadcast encoding now clock state_dirty relay)

  -- In every reachable state of the relay, the counter that other threads read is the number of connected
  -- players, and at most 128 sources that left are kept.
  pub Reached-IsSound :
      (config : RelayConfig) {relay : Relay} → Reached config relay → IsSound relay
  unfolding new_relay cleanup_timeouts send_preexpiry_refresh_requests count
  Reached-IsSound config (start filter) = record { counted = refl; bounded = omega arith }
  Reached-IsSound config (handled clock random e {relay} r) =
      handle_event-IsSound clock random e relay (Reached-IsSound config r)
  Reached-IsSound config (cleaned now r) =
      let s = Reached-IsSound config r in record { counted = s.counted; bounded = s.bounded }
  Reached-IsSound config (spread encoding now clock state_dirty {relay} r) =
      Keeps-IsSound (broadcast-Keeps encoding now clock state_dirty relay)
        (Reached-IsSound config r)
  Reached-IsSound config (refreshed accepts clock r) =
      let s = Reached-IsSound config r in record { counted = s.counted; bounded = s.bounded }
