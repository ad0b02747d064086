-- ===== src/Relay/Isolation.antt =====
-- What a report of one client in src/relay.rs leaves of the sources of the others and of other rooms.
use minecraft_team_viewer_ba.Relay.Stay.{and_then, lookup-retain}
use minecraft_team_viewer_ba.Relay.Deaths.{Spared, survives-cases, survives_nobody}
use minecraft_team_viewer_ba.Relay.Report.{PlayerReportBundle}
use minecraft_team_viewer_ba.Objects.Sync.{IsDistinctTable}
use minecraft_team_viewer_ba.Prelude.Int.{ℤ}
use minecraft_team_viewer_ba.Relay.Deletion.{waypoint_at}
use minecraft_team_viewer_ba.Sources.Candidates.{Timed}
use minecraft_team_viewer_ba.Objects.Waypoint.{WaypointData}
use minecraft_team_viewer_ba.Battle.Types.{BattleChunkEntry, BattleRoomCache, battle_key_order}
use minecraft_team_viewer_ba.Battle.Update.{is_empty}
use minecraft_team_viewer_ba.Battle.Update.{is_empty}
use minecraft_team_viewer_ba.Snapshot.Project.{map_values}
use minecraft_team_viewer_ba.Prelude.Map.{Map, lookup, lookup-insert_ne}
use minecraft_team_viewer_ba.Relay.Apply.{
  apply_report, cancel_deaths, death_targets, room_of, survives, update_cache,
}
use minecraft_team_viewer_ba.Relay.Types.{Clock, Relay, SourceState}
use minecraft_team_viewer_ba.Prelude.{
  List, Option, [], ap, arith, if◌then◌else◌, inl, inr, map_option, none, refl, some, subst, sym, ℕ,
  ◌∙◌, ◌∷◌, ◌≡◌, ◌≢◌,
}
use minecraft_team_viewer_ba.Prelude.Text.{Text, Text-discrete, nat_key, text_key}

lookup-map_values :
    {V W : Type 0} (f : V → W) (id : Text) (m : Map Text V)
    → lookup id (map_values f m) ≡ map_option f (lookup id m)
unfolding lookup
lookup-map_values f id [] = refl
lookup-map_values f id ((i, v) ∷ m) = elim (Text-discrete i id) [
  | yes e ↦ ground arith
  | no n ↦ ground (arith, lookup-map_values f id m)
]

-- The sources after the death of the targets.
abbrev after_deaths : List Text → Option SourceState → Option SourceState
after_deaths [] source = source
after_deaths (target ∷ targets) source = map_option (cancel_deaths (target ∷ targets)) source

lookup-after_deaths :
    (targets : List Text) (id : Text) (sources : Map Text SourceState)
    → lookup id (if is_empty targets then sources else map_values (cancel_deaths targets) sources)
      ≡ after_deaths targets (lookup id sources)
unfolding is_empty
lookup-after_deaths [] id sources = refl
lookup-after_deaths (target ∷ targets) id sources =
    lookup-map_values (cancel_deaths (target ∷ targets)) id sources

update_cache-other :
    (now max_entries : ℕ) (room other : Text) (entries : List BattleChunkEntry)
    (caches : Map Text BattleRoomCache)
    → room ≢ other
    → lookup other (update_cache now max_entries room entries caches) ≡ lookup other caches
unfolding update_cache
update_cache-other now max_entries room other [] caches n = refl
update_cache-other now max_entries room other (entry ∷ entries) caches n =
    lookup-insert_ne room other _ caches n

abbrev pub HasDistinctWaypoints : Option SourceState → Type 0
HasDistinctWaypoints none = Unit {0}
HasDistinctWaypoints (some source) = IsDistinctTable source.waypoints

abbrev pub without_waypoints : SourceState → SourceState
without_waypoints source = record source { waypoints = [] }

after_deaths-without_waypoints :
    (targets : List Text) (source : Option SourceState)
    → map_option without_waypoints (after_deaths targets source)
      ≡ map_option without_waypoints source
unfolding cancel_deaths
after_deaths-without_waypoints [] source = refl
after_deaths-without_waypoints (target ∷ targets) none = refl
after_deaths-without_waypoints (target ∷ targets) (some source) = refl

-- The waypoint after the deaths is the one that passes the code's test.
waypoint_at-after_deaths :
    (targets : List Text) (source : Option SourceState) (w : Text)
    → HasDistinctWaypoints source
    → waypoint_at w (after_deaths targets source)
      ≡ and_then
          (waypoint_at w source)
          (λ value. if survives targets value.content then some value else none)
unfolding cancel_deaths
waypoint_at-after_deaths [] none w d = refl
waypoint_at-after_deaths [] (some source) w d = all_survive (lookup w source.waypoints)
  where
    all_survive :
        (found : Option (Timed WaypointData))
        → found ≡ and_then found (λ value. if survives [] value.content then some value else none)
    all_survive none = refl
    all_survive (some value) = rw (survives_nobody value.content)
waypoint_at-after_deaths (target ∷ targets) none w d = refl
waypoint_at-after_deaths (target ∷ targets) (some source) w d =
    lookup-retain (λ id waypoint. survives (target ∷ targets) waypoint.content) w source.waypoints d

filtered-Spared :
    (deaths : Option (List Text)) (found : Option (Timed WaypointData))
    → Spared deaths found (
        and_then found
          (λ value. if survives (death_targets deaths) value.content then some value else none))
filtered-Spared deaths none = refl
filtered-Spared deaths (some value) = elim (survives-cases deaths value.content) [
  | inl (killed, e) ↦ inl (killed, ground arith)
  | inr (spared, e) ↦ inr (spared, ground arith)
]

after_deaths-Spared :
    (deaths : Option (List Text)) (source : Option SourceState) (w : Text)
    → HasDistinctWaypoints source
    → Spared deaths
        (waypoint_at w source)
        (waypoint_at w (after_deaths (death_targets deaths) source))
after_deaths-Spared deaths source w d =
    subst (Spared deaths (waypoint_at w source))
      (sym (waypoint_at-after_deaths (death_targets deaths) source w d))
      (filtered-Spared deaths (waypoint_at w source))

-- What a report leaves of the source of another client, of another room's battle cache and of the rest
-- of the relay.
pub record IsIsolated (deaths : Option (List Text)) (other room : Text) (before after : Relay)
    : Type 0 where
  pub waypoints :
      (w : Text)
      → Spared deaths
          (waypoint_at w (lookup other before.sources))
          (waypoint_at w (lookup other after.sources))
  pub source :
      map_option without_waypoints (lookup other after.sources)
      ≡ map_option without_waypoints (lookup other before.sources)
  pub cache : lookup room after.battle_caches ≡ lookup room before.battle_caches
  pub rest :
      record after { sources = before.sources; battle_caches = before.battle_caches } ≡ before

-- A report changes its client's source and the battle cache of its client's room. Any other source keeps
-- its waypoints, except those of target type "entity" whose target is a text, not blank, that the report
-- names as dead, and keeps all else it has; the caches of other rooms stay, and so does everything
-- else of the relay, such as the connections, the marks, the frames of the rooms and the selections. The
-- waypoints of the other source have distinct ids.
pub apply_report-IsIsolated :
    (to_lowercase : Text → Text) (healthy : ℤ) (clock : Clock) (id : Text)
    (report : PlayerReportBundle) (relay : Relay) (other room : Text)
    → id ≢ other
    → room_of id relay ≢ room
    → HasDistinctWaypoints (lookup other relay.sources)
    → IsIsolated report.waypoints_entity_death_cancel other room relay
        (apply_report to_lowercase healthy clock id report relay)
unfolding apply_report
apply_report-IsIsolated to_lowercase healthy clock id report relay other room n m d =
    let deaths = report.waypoints_entity_death_cancel in
    let targets = death_targets deaths in
    let at_other =
      lookup-after_deaths targets other _
      ∙ ap (after_deaths targets) (lookup-insert_ne id other _ relay.sources n) in
    record {
      waypoints = λ w.
          subst
            (λ source.
              Spared deaths (waypoint_at w (lookup other relay.sources)) (waypoint_at w source))
            (sym at_other) (after_deaths-Spared deaths (lookup other relay.sources) w d);
      source =
          ap (map_option without_waypoints) at_other
          ∙ after_deaths-without_waypoints targets (lookup other relay.sources);
      cache =
          update_cache-other clock.now relay.config.battle_chunk_cache_max_entries
            (room_of id relay) room _ relay.battle_caches m;
      rest = refl;
    }
