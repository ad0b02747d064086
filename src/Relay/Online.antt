-- ===== src/Relay/Online.antt =====
-- The last-seen players of a room's snapshot in src/relay.rs are not online.
use minecraft_team_viewer_ba.Snapshot.Types.{LastSeenPlayerData}
use minecraft_team_viewer_ba.Relay.Types.{Relay, ScopeSelections}
use minecraft_team_viewer_ba.Objects.Player.{PlayerData}
use minecraft_team_viewer_ba.Relay.Room.{
  SourceKinds, is_offline, lower, online_ids, room_objects, scope_order, uuid_ids,
}
use minecraft_team_viewer_ba.Prelude.Map.{Map, lookup, retain}
use minecraft_team_viewer_ba.Prelude.{
  Bool, Bool-cases, List, Option, [], ap, arith, contains, false, inl, inr, none, some, true, ℕ,
  ◌++◌, ◌∙◌, ◌∷◌, ◌≡◌, ◌≢◌,
}
use minecraft_team_viewer_ba.Prelude.Text.{Text, Text-discrete, nat_key, text_key}

lookup-retain_keeps :
    {V : Type 0} (keep : Text → V → Bool) (id : Text) (value : V) (m : Map Text V)
    → lookup id (retain keep m) ≡ some value
    → keep id value ≡ true
unfolding lookup retain
lookup-retain_keeps keep id value [] h = ground arith
lookup-retain_keeps keep id value ((i, v) ∷ m) h = elim (Bool-cases (keep i v)) [
  | inl kept ↦ elim (Text-discrete i id) [
    | yes e ↦ ground (arith, kept, ap (λ j. keep j v) e)
    | no n ↦ ground (arith, lookup-retain_keeps keep id value m)
  ]
  | inr gone ↦ ground (arith, lookup-retain_keeps keep id value m)
]

some_inj : {A : Type 0} {a b : A} → some a ≡ some b → a ≡ b
some_inj h = cc

contains-behind :
    (t : Text) (uuid : Option Text) (ids : List Text)
    → contains Text-discrete t ids ≡ true
    → contains Text-discrete t (uuid_ids uuid ++ ids) ≡ true
unfolding contains
contains-behind t none ids h = h
contains-behind t (some uuid) ids h = ground arith

contains-uuid :
    (uuid : Text) (found : Option Text) (ids : List Text)
    → found ≡ some uuid
    → contains Text-discrete (lower uuid) (uuid_ids found ++ ids) ≡ true
unfolding contains
contains-uuid uuid none ids h = ground arith
contains-uuid uuid (some other) ids h = ground (arith, ap lower (some_inj h))

-- A player that is shown has its id among the online ones, and its uuid.
contains-online_ids :
    (id : Text) (value : PlayerData) (players : Map Text PlayerData)
    → lookup id players ≡ some value
    → (contains Text-discrete (lower id) (online_ids players) ≡ true)
      × ((uuid : Text)
          → value.player_uuid ≡ some uuid
          → contains Text-discrete (lower uuid) (online_ids players) ≡ true)
unfolding lookup online_ids contains
contains-online_ids id value [] h = absurd (ground arith)
contains-online_ids id value ((i, p) ∷ players) h = elim (Text-discrete i id) [
  | yes e ↦ (
    ground (arith, ap lower e),
    λ uuid u.
        let shown : p ≡ value = some_inj (ground (arith, h)) in
        let named : p.player_uuid ≡ some uuid = ap (λ v. v.player_uuid) shown ∙ u in
        ground (arith, contains-uuid uuid p.player_uuid (online_ids players) named),
  )
  | no n ↦
      let there : lookup id players ≡ some value = ground (arith, h) in
      let found = contains-online_ids id value players there in
      (
        ground (arith, contains-behind (lower id) p.player_uuid (online_ids players) found.0),
        λ uuid u. ground (
          arith,
          contains-behind (lower uuid) p.player_uuid (online_ids players) (found.1 uuid u),
        ),
      )
]

-- The two names are of different players.
abbrev pub IsOther : Text → Text → Type 0
IsOther a b = lower a ≢ lower b

other :
    (a b : Text) (ids : List Text)
    → contains Text-discrete (lower a) ids ≡ false
    → contains Text-discrete (lower b) ids ≡ true
    → IsOther a b
other a b ids absent there e = absurd (ground (arith, ap (λ t. contains Text-discrete t ids) e))

-- The snapshot of a room never shows a player as last seen who is online in it: neither the key nor the
-- uuid of a last-seen player is, up to the case of ASCII letters, the id or the uuid of a player shown.
pub room_objects-offline :
    (kinds : SourceKinds) (now : ℕ) (room : Text) (allowed : Option (List Text))
    (selections : ScopeSelections) (relay : Relay) (id player_id : Text) (seen : LastSeenPlayerData)
    (value : PlayerData)
    → let snapshot = (room_objects kinds now room allowed selections relay).0 in
      lookup id snapshot.last_seen_players ≡ some seen
      → lookup player_id snapshot.players ≡ some value
      → IsOther id player_id
        × IsOther seen.player_uuid player_id
        × ((uuid : Text)
            → value.player_uuid ≡ some uuid
            → IsOther id uuid × IsOther seen.player_uuid uuid)
unfolding room_objects is_offline
room_objects-offline kinds now room allowed selections relay id player_id seen value h k =
    let online = online_ids (room_objects kinds now room allowed selections relay).0.players in
    let kept : is_offline online id seen ≡ true =
      lookup-retain_keeps (is_offline online) id seen _ h in
    let found = contains-online_ids player_id value _ k in
    let no_id : contains Text-discrete (lower id) online ≡ false = ground (arith, kept) in
    let no_uuid : contains Text-discrete (lower seen.player_uuid) online ≡ false =
      ground (arith, kept) in
    (
      other id player_id online no_id found.0,
      other seen.player_uuid player_id online no_uuid found.0,
      λ uuid u. (
        other id uuid online no_id (found.1 uuid u),
        other seen.player_uuid uuid online no_uuid (found.1 uuid u),
      ),
    )
