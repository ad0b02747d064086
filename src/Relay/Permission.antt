-- ===== src/Relay/Permission.antt =====
-- Who may delete a waypoint from a web map in src/relay.rs, in terms of the waypoint that is there.
use minecraft_team_viewer_ba.Prelude.Map.{lookup}
use minecraft_team_viewer_ba.Objects.Waypoint.{WaypointData}
use minecraft_team_viewer_ba.Sources.Candidates.{Timed}
use minecraft_team_viewer_ba.Relay.Commands.{deletable_by, may_delete}
use minecraft_team_viewer_ba.Relay.Types.{SourceState}
use minecraft_team_viewer_ba.Relay.WebMap.{tactical_source}
use minecraft_team_viewer_ba.Snapshot.Diff.{same_text}
use minecraft_team_viewer_ba.Prelude.{
  Bool, Option, arith, false, inl, inr, none, refl, some, true, unwrap_or, ℕ_discrete, ◌&&◌, ◌++◌,
  ◌||◌, ◌≡◌, ◌⊎◌,
}
use minecraft_team_viewer_ba.Prelude.Text.{Text, Text-discrete, codes, nat_key, text_key}

-- What `deletable_by` says: everyone, as it does where it is absent, or the owner, who is the source of
-- the room's web maps.
abbrev IsPermitted : Text → Text → Option Text → Type 0
IsPermitted room source_id none = Unit {0}
IsPermitted room source_id (some by) =
    (by ≡ codes "everyone")
    ⊎ ((by ≡ codes "owner") × (source_id ≡ codes "__web_map_tactical__:" ++ room))

-- Whether the web map of a room may delete a waypoint of a source.
abbrev pub IsDeletable : Text → Text → SourceState → WaypointData → Type 0
IsDeletable room source_id source waypoint =
    (source.room ≡ room) × IsPermitted room source_id waypoint.deletable_by

abbrev permits : Text → Text → Text → Bool
permits room source_id by =
    same_text by (codes "everyone")
    || (same_text by (codes "owner") && same_text source_id (tactical_source room))

permits-cases :
    (room source_id : Text) (by : Option Text)
    → (IsPermitted room source_id by
        × (permits room source_id (unwrap_or by (codes "everyone")) ≡ true))
      ⊎ (¬ (IsPermitted room source_id by)
          × (permits room source_id (unwrap_or by (codes "everyone")) ≡ false))
unfolding Text-discrete ℕ_discrete
permits-cases room source_id none = inl (tt, refl)
permits-cases room source_id (some by) = elim (Text-discrete by (codes "everyone")) [
  | yes e ↦ inl (inl e, ground arith)
  | no n ↦ elim (Text-discrete by (codes "owner")) [
    | yes o ↦ elim (Text-discrete source_id (tactical_source room)) [
      | yes t ↦ inl (inr (o, t), ground arith)
      | no t ↦ inr ((λ h. ground (arith, h)), ground arith)
    ]
    | no o ↦ inr ((λ h. ground (arith, h)), ground arith)
  ]
]

pub allowed-cases :
    (room waypoint_id source_id : Text) (source : SourceState) (value : Timed WaypointData)
    → lookup waypoint_id source.waypoints ≡ some value
    → (IsDeletable room source_id source value.content
        × (may_delete room waypoint_id source_id source ≡ true))
      ⊎ (¬ (IsDeletable room source_id source value.content)
          × (may_delete room waypoint_id source_id source ≡ false))
unfolding may_delete deletable_by
allowed-cases room waypoint_id source_id source value found =
    elim (Text-discrete source.room room) [
      | no other ↦ inr ((λ allowed. other allowed.0), ground arith)
      | yes same ↦ elim (permits-cases room source_id (value.content).deletable_by) [
        | inl (permitted, e) ↦ inl ((same, permitted), rw found (ground arith))
        | inr (forbidden, e) ↦ inr ((λ allowed. forbidden allowed.1), rw found (ground arith))
      ]
    ]
