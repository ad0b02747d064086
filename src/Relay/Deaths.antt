-- ===== src/Relay/Deaths.antt =====
-- Which waypoints the deaths of a report take away in src/relay.rs, in terms of the report's own list.
use minecraft_team_viewer_ba.Snapshot.Strip.{same_option}
use minecraft_team_viewer_ba.Objects.Waypoint.{WaypointData}
use minecraft_team_viewer_ba.Relay.Apply.{death_targets, survives}
use minecraft_team_viewer_ba.Sources.Candidates.{Timed}
use minecraft_team_viewer_ba.Prelude.{
  Bool-cases, List, Member, Option, [], ap, arith, contains, false, inl, inr, none, refl, some, sym,
  true, ◌∙◌, ◌∷◌, ◌≡◌, ◌⊎◌,
}
use minecraft_team_viewer_ba.Prelude.Text.{Text, Text-discrete, codes, nat_key, text_key, trim}
use minecraft_team_viewer_ba.Battle.Update.{is_empty}

-- Whether a report's deaths take a waypoint away: it is on an entity that the report names, by a text
-- that is not blank.
abbrev pub IsKilled : Option (List Text) → WaypointData → Type 0
IsKilled none waypoint = ⊥
IsKilled (some deaths) waypoint =
    (waypoint.target_type ≡ some (codes "entity"))
    × ((target : Text) × ((waypoint.target_entity_id ≡ some target)
          × (Member target deaths × (is_empty (trim target) ≡ false))))

contains-death_targets :
    (target : Text) (deaths : List Text)
    → Member target deaths
    → is_empty (trim target) ≡ false
    → contains Text-discrete target (death_targets (some deaths)) ≡ true
unfolding death_targets contains
contains-death_targets target [] m b = absurd m
contains-death_targets target (d ∷ deaths) m b = elim (Text-discrete d target) [
  | yes e ↦ ground (arith, ap (λ t. is_empty (trim t)) e)
  | no n ↦ ground (arith, contains-death_targets target deaths)
]

death_targets-Member :
    (target : Text) (deaths : List Text)
    → contains Text-discrete target (death_targets (some deaths)) ≡ true
    → Member target deaths × (is_empty (trim target) ≡ false)
unfolding death_targets contains
death_targets-Member target [] h = absurd (cc h)
death_targets-Member target (d ∷ deaths) h = elim (Text-discrete d target) [
  | yes e ↦ elim (Bool-cases (is_empty (trim d))) [
    | inl blank ↦ ground (arith, death_targets-Member target deaths)
    | inr full ↦ (inl e, ap (λ t. is_empty (trim t)) (sym e) ∙ full)
  ]
  | no n ↦ ground (arith, death_targets-Member target deaths)
]

-- The code's test says the same, for a waypoint with given targets.
decide_target :
    (deaths : List Text) (target : Text)
    → (Member target deaths × (is_empty (trim target) ≡ false))
      ⊎ (contains Text-discrete target (death_targets (some deaths)) ≡ false)
decide_target deaths target =
    elim (Bool-cases (contains Text-discrete target (death_targets (some deaths)))) [
      | inl e ↦ inl (death_targets-Member target deaths e)
      | inr e ↦ inr e
    ]

-- What a report's deaths leave of a waypoint.
abbrev pub Spared :
    Option (List Text) → Option (Timed WaypointData) → Option (Timed WaypointData) → Type 0
Spared deaths none after = after ≡ none
Spared deaths (some value) after =
    (IsKilled deaths value.content × (after ≡ none))
    ⊎ (¬ (IsKilled deaths value.content) × (after ≡ some value))

survives-none : (waypoint : WaypointData) → survives (death_targets none) waypoint ≡ true
unfolding survives contains death_targets
survives-none waypoint = ground arith

pub survives_nobody : (waypoint : WaypointData) → survives [] waypoint ≡ true
unfolding survives contains
survives_nobody waypoint = ground arith

pub survives-cases :
    (deaths : Option (List Text)) (waypoint : WaypointData)
    → (IsKilled deaths waypoint × (survives (death_targets deaths) waypoint ≡ false))
      ⊎ (¬ (IsKilled deaths waypoint) × (survives (death_targets deaths) waypoint ≡ true))
unfolding survives same_option
survives-cases none waypoint = inr ((λ killed. killed), survives-none waypoint)
survives-cases (some deaths) waypoint =
    either waypoint.target_type waypoint.target_entity_id refl refl
  where
    either :
        (kind target : Option Text)
        → waypoint.target_type ≡ kind
        → waypoint.target_entity_id ≡ target
        → (IsKilled (some deaths) waypoint
            × (survives (death_targets (some deaths)) waypoint ≡ false))
          ⊎ (¬ (IsKilled (some deaths) waypoint)
              × (survives (death_targets (some deaths)) waypoint ≡ true))
    either none target e f = inr ((λ killed. absurd (cc (e, killed.0))), ground arith)
    either (some kind) none e f = inr ((λ killed. absurd (cc (f, killed.1.1.0))), ground arith)
    either (some kind) (some target) e f = elim (Text-discrete kind (codes "entity")) [
      | yes same ↦ elim (decide_target deaths target) [
        | inl named ↦ inl (
          (e ∙ ap some same, (target, (f, named))),
          ground (arith, contains-death_targets target deaths named.0 named.1),
        )
        | inr kept ↦ inr (
          (λ killed. ground (
            arith,
            contains-death_targets killed.1.0 deaths killed.1.1.1.0 killed.1.1.1.1,
            kept,
            sym f ∙ killed.1.1.0,
          )),
          ground arith,
        )
      ]
      | no other ↦ inr ((λ killed. ground (arith, other, sym e ∙ killed.0)), ground arith)
    ]
