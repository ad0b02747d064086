-- ===== src/Relay/Deletion.antt =====
-- Which waypoints the web map in src/relay.rs can delete.
use minecraft_team_viewer_ba.Relay.Permission.{IsDeletable, allowed-cases}
use minecraft_team_viewer_ba.Relay.WebMap.{tactical_source}
use minecraft_team_viewer_ba.Snapshot.Diff.{same_text}
use minecraft_team_viewer_ba.Objects.Waypoint.{WaypointData}
use minecraft_team_viewer_ba.Prelude.Map.{Map, lookup, lookup-remove_ne, lookup-remove_self, remove}
use minecraft_team_viewer_ba.Sources.Candidates.{Timed}
use minecraft_team_viewer_ba.Relay.Commands.{
  deletable_by, deletable_value, delete_all, delete_waypoint, may_delete,
}
use minecraft_team_viewer_ba.Relay.Types.{SourceState}
use minecraft_team_viewer_ba.Prelude.{
  Bool, Bool-cases, List, Member, Option, [], ap, arith, contains, false, if◌then◌else◌, inl, inr,
  none, refl, some, subst, sym, true, ◌&&◌, ◌||◌, ◌∙◌, ◌∷◌, ◌≡◌, ◌≢◌, ◌⊎◌,
}
use minecraft_team_viewer_ba.Prelude.Text.{Text, Text-discrete, codes, nat_key, text_key}

abbrev pub waypoint_at : Text → Option SourceState → Option (Timed WaypointData)
waypoint_at waypoint_id none = none
waypoint_at waypoint_id (some source) = lookup waypoint_id source.waypoints

-- Whether the source is there and the web map of the room may delete its waypoint.
abbrev is_open : Text → Text → Text → Option SourceState → Bool
is_open room waypoint_id source_id none = false
is_open room waypoint_id source_id (some source) = may_delete room waypoint_id source_id source

removed_at : (room waypoint_id source_id : Text) → Option SourceState → Option SourceState
removed_at room waypoint_id source_id none = none
removed_at room waypoint_id source_id (some source) = some (
    if may_delete room waypoint_id source_id source
    then record source { waypoints = remove waypoint_id source.waypoints }
    else source)

lookup-delete_waypoint :
    (room waypoint_id source_id : Text) (sources : Map Text SourceState)
    → lookup source_id (delete_waypoint room waypoint_id sources).0
      ≡ removed_at room waypoint_id source_id (lookup source_id sources)
unfolding delete_waypoint lookup removed_at
lookup-delete_waypoint room waypoint_id source_id [] = refl
lookup-delete_waypoint room waypoint_id source_id ((i, source) ∷ sources) =
    elim (Text-discrete i source_id) [
      | yes e ↦ ground (arith, ap (λ j. may_delete room waypoint_id j source) e)
      | no n ↦ ground (arith, lookup-delete_waypoint room waypoint_id source_id sources)
    ]

removed_all :
    (room : Text) → List Text → (source_id : Text) → Option SourceState → Option SourceState
unfolding removed_at
removed_all room [] source_id source = source
removed_all room (w ∷ ids) source_id source =
    removed_all room ids source_id (removed_at room w source_id source)

lookup-delete_all :
    (room source_id : Text) (ids : List Text) (sources : Map Text SourceState)
    → lookup source_id (delete_all room ids sources).0
      ≡ removed_all room ids source_id (lookup source_id sources)
unfolding delete_all removed_all
lookup-delete_all room source_id [] sources = refl
lookup-delete_all room source_id (w ∷ ids) sources =
    lookup-delete_all room source_id ids (delete_waypoint room w sources).0
    ∙ ap (removed_all room ids source_id) (lookup-delete_waypoint room w source_id sources)

deletable_by-other :
    (w waypoint_id : Text) (source : SourceState)
    → w ≢ waypoint_id
    → deletable_by waypoint_id (record source { waypoints = remove w source.waypoints })
      ≡ deletable_by waypoint_id source
unfolding deletable_by
deletable_by-other w waypoint_id source n =
    ap deletable_value (lookup-remove_ne w waypoint_id source.waypoints n)

may_delete-other :
    (room w waypoint_id source_id : Text) (source : SourceState)
    → w ≢ waypoint_id
    → may_delete room waypoint_id source_id
        (record source { waypoints = remove w source.waypoints })
      ≡ may_delete room waypoint_id source_id source
unfolding may_delete
may_delete-other room w waypoint_id source_id source n =
    ap
      (λ d.
        same_text source.room room
        && (same_text d (codes "everyone")
            || (same_text d (codes "owner") && same_text source_id (tactical_source room))))
      (deletable_by-other w waypoint_id source n)

-- The removal of one waypoint says nothing of another.
removed_at-other :
    (room w waypoint_id source_id : Text) (source : Option SourceState)
    → w ≢ waypoint_id
    → (waypoint_at waypoint_id (removed_at room w source_id source)
        ≡ waypoint_at waypoint_id source)
      × (is_open room waypoint_id source_id (removed_at room w source_id source)
          ≡ is_open room waypoint_id source_id source)
unfolding removed_at
removed_at-other room w waypoint_id source_id none n = (refl, refl)
removed_at-other room w waypoint_id source_id (some source) n =
    elim (Bool-cases (may_delete room w source_id source)) [
      | inl e ↦ rw e (
        lookup-remove_ne w waypoint_id source.waypoints n,
        may_delete-other room w waypoint_id source_id source n,
      )
      | inr e ↦ rw e (refl, refl)
    ]

-- A waypoint that was removed stays away, whatever is removed after it.
removed_at-again :
    (again : Bool) (room waypoint_id source_id : Text) (source : Option SourceState)
    → (if again && is_open room waypoint_id source_id (removed_at room waypoint_id source_id source)
        then none
        else waypoint_at waypoint_id (removed_at room waypoint_id source_id source))
      ≡ (if is_open room waypoint_id source_id source then none else waypoint_at waypoint_id source)
unfolding removed_at
removed_at-again again room waypoint_id source_id none = ground arith
removed_at-again again room waypoint_id source_id (some source) =
    ground (arith, lookup-remove_self waypoint_id source.waypoints)

removed_all-at :
    (room waypoint_id source_id : Text) (ids : List Text) (source : Option SourceState)
    → waypoint_at waypoint_id (removed_all room ids source_id source) ≡ (
        if contains Text-discrete waypoint_id ids && is_open room waypoint_id source_id source
        then none
        else waypoint_at waypoint_id source)
unfolding removed_all contains
removed_all-at room waypoint_id source_id [] source = refl
removed_all-at room waypoint_id source_id (w ∷ ids) source =
    removed_all-at room waypoint_id source_id ids (removed_at room w source_id source)
    ∙ elim (Text-discrete w waypoint_id) [
      | yes e ↦
          subst
            (λ v.
              (if contains Text-discrete waypoint_id ids
                  && is_open room waypoint_id source_id (removed_at room v source_id source)
                then none
                else waypoint_at waypoint_id (removed_at room v source_id source))
              ≡ (if is_open room waypoint_id source_id source
                  then none
                  else waypoint_at waypoint_id source))
            (sym e)
            (removed_at-again (contains Text-discrete waypoint_id ids) room waypoint_id source_id
              source)
          ∙ ground arith
      | no n ↦
          let (at, is_open') = removed_at-other room w waypoint_id source_id source n in
          ground arith
    ]

-- What a deletion of the ids leaves of the waypoint at one of a source, if there is one.
abbrev pub DeletedOf :
    Text
    → List Text
    → Text
    → Text
    → SourceState
    → Option (Timed WaypointData)
    → Option (Timed WaypointData)
    → Type 0
DeletedOf room ids waypoint_id source_id source none after = after ≡ none
DeletedOf room ids waypoint_id source_id source (some value) after =
    let gone = Member waypoint_id ids × IsDeletable room source_id source value.content in
    (gone × (after ≡ none)) ⊎ (¬ gone × (after ≡ some value))

abbrev pub Deleted :
    Text → List Text → Text → Text → Option SourceState → Option (Timed WaypointData) → Type 0
Deleted room ids waypoint_id source_id none after = after ≡ none
Deleted room ids waypoint_id source_id (some source) after =
    DeletedOf room ids waypoint_id source_id source (lookup waypoint_id source.waypoints) after

contains-Member :
    (id : Text) (ids : List Text)
    → (Member id ids × (contains Text-discrete id ids ≡ true))
      ⊎ (¬ (Member id ids) × (contains Text-discrete id ids ≡ false))
unfolding contains
contains-Member id [] = inr ((λ m. m), refl)
contains-Member id (i ∷ ids) = elim (Text-discrete i id) [
  | yes e ↦ inl (inl e, ground arith)
  | no n ↦ elim (contains-Member id ids) [
    | inl (m, e) ↦ inl (inr m, ground arith)
    | inr (m, e) ↦ inr ((λ h. ground (arith, h)), ground arith)
  ]
]

-- The test of the code and the description agree.
open-Deleted :
    (room waypoint_id source_id : Text) (ids : List Text) (source : Option SourceState)
    → Deleted room ids waypoint_id source_id source (
        if contains Text-discrete waypoint_id ids && is_open room waypoint_id source_id source
        then none
        else waypoint_at waypoint_id source)
open-Deleted room waypoint_id source_id ids none = ground arith
open-Deleted room waypoint_id source_id ids (some source) =
    held (lookup waypoint_id source.waypoints) refl
  where
    held :
        (found : Option (Timed WaypointData))
        → lookup waypoint_id source.waypoints ≡ found
        → DeletedOf room ids waypoint_id source_id source found (
            if contains Text-discrete waypoint_id ids
              && may_delete room waypoint_id source_id source
            then none
            else found)
    held none e = ground arith
    held (some value) e = elim (contains-Member waypoint_id ids) [
      | inr (apart, n) ↦ inr ((λ gone. apart gone.0), ground arith)
      | inl (named, y) ↦ elim (allowed-cases room waypoint_id source_id source value e) [
        | inl (allowed, t) ↦ inl ((named, allowed), ground arith)
        | inr (forbidden, t) ↦ inr ((λ gone. forbidden gone.1), ground arith)
      ]
    ]

-- The deletion of waypoints by a web map takes away a waypoint of a source exactly if the command names
-- its id, the source is of the web map's room, and the waypoint says that everyone may delete it, or
-- does not say who, or says that its owner may and the source is the one of the web maps of that room.
-- Any other waypoint stays as it was, and none appears.
pub delete_all-at :
    (room waypoint_id source_id : Text) (ids : List Text) (sources : Map Text SourceState)
    → Deleted room ids waypoint_id source_id
        (lookup source_id sources)
        (waypoint_at waypoint_id (lookup source_id (delete_all room ids sources).0))
delete_all-at room waypoint_id source_id ids sources =
    subst (Deleted room ids waypoint_id source_id (lookup source_id sources))
      (sym (
        ap (waypoint_at waypoint_id) (lookup-delete_all room source_id ids sources)
        ∙ removed_all-at room waypoint_id source_id ids (lookup source_id sources)))
      (open-Deleted room waypoint_id source_id ids (lookup source_id sources))
