-- ===== src/Relay/Grouping.antt =====
-- `same_server_grouping` and `allowed_sources_for_player` of src/relay.rs: the sources of a room that
-- are on one server, and whom a player sees.
use minecraft_team_viewer_ba.Snapshot.Diff.{same_text}
use minecraft_team_viewer_ba.Battle.Update.{is_empty}
use minecraft_team_viewer_ba.Groups.{find_group, linked}
use minecraft_team_viewer_ba.Prelude.Map.{Map, insert, lookup}
use minecraft_team_viewer_ba.Prelude.Sort.{sort}
use minecraft_team_viewer_ba.Relay.Types.{
  Connection, ConnectionKind, Relay, SourceState, external_source, player, web_map,
}
use minecraft_team_viewer_ba.Snapshot.Keys.{show_nat}
use minecraft_team_viewer_ba.Snapshot.Types.{SameServerGroup, TabPlayerEntry}
use minecraft_team_viewer_ba.Prelude.{
  Bool, List, Option, [], contains, false, get_elem?, if◌then◌else◌, length, map, none, not, some,
  suc, true, unwrap_or, ℕ, ◌&&◌, ◌++◌, ◌||◌, ◌∷◌,
}
use minecraft_team_viewer_ba.Prelude.Text.{
  Text, Text-discrete, codes, nat_key, text_key, text_ltb, trim,
}

pub record SameServerGrouping : Type 0 where
  pub active_sources : List Text
  pub source_to_group : Map Text Text
  pub groups : List SameServerGroup

-- `SameServerGrouping::default()`
abbrev pub no_grouping : SameServerGrouping
no_grouping = record { active_sources = []; source_to_group = []; groups = [] }

abbrev pub sort_texts : List Text → List Text
sort_texts texts = sort (λ a b. text_ltb a b) texts

abbrev pub is_reporter : ConnectionKind → Bool
is_reporter player = true
is_reporter external_source = true
is_reporter web_map = false

-- The ids of the connections of a room that pass a test.
unfoldable pub connected_ids : (ConnectionKind → Bool) → Text → Map Text Connection → List Text
connected_ids test room [] = []
connected_ids test room ((id, connection) ∷ connections) =
    let rest = connected_ids test room connections in
    if same_text connection.room room && test connection.kind then id ∷ rest else rest

-- `is_disjoint` of two sets.
unfoldable pub is_disjoint : List Text → List Text → Bool
unfolding contains
is_disjoint [] others = true
is_disjoint (t ∷ ts) others = not (contains Text-discrete t others) && is_disjoint ts others

-- The rest of `normalize_identity` after its trim, the normal form NFKC in lower case, is a parameter.
module _ (lowercase_nfkc : Text → Text) where
  unfoldable pub normalize_identity : Text → Text
  normalize_identity value = lowercase_nfkc (trim value)

  -- An identity of a tab entry, when its text is not blank.
  unfoldable pub identity : Text → Option Text → List Text
  unfolding normalize_identity
  identity kind none = []
  identity kind (some value) =
      if is_empty (trim value) then [] else (kind ++ normalize_identity (trim value)) ∷ []

  unfoldable pub tab_identities : List TabPlayerEntry → List Text
  unfolding identity
  tab_identities [] = []
  tab_identities (entry ∷ players) =
      identity (codes "uuid:") entry.uuid
      ++ (identity (codes "name:") entry.name ++ tab_identities players)

  unfoldable pub identities : Map Text SourceState → Text → List Text
  unfolding normalize_identity tab_identities
  identities sources source_id =
      (codes "uuid:" ++ normalize_identity source_id) ∷ (elim (lookup source_id sources) [
        | none ↦ []
        | some source ↦ tab_identities source.tab_players
      ])

-- Whether two of the identity sets share an identity.
unfoldable pub overlap : List (List Text) → ℕ → ℕ → Bool
unfolding is_disjoint
overlap sets left right =
    not (is_disjoint (unwrap_or (get_elem? sets left) []) (unwrap_or (get_elem? sets right) []))

unfoldable pub push_member : ℕ → Text → Map ℕ (List Text) → Map ℕ (List Text)
push_member root source_id members =
    insert root (unwrap_or (lookup root members) [] ++ source_id ∷ []) members

-- The loop that collects the members of each root; looking up a root changes the parents.
unfoldable pub members_by_root : List ℕ → ℕ → List Text → Map ℕ (List Text) → Map ℕ (List Text)
unfolding find_group push_member
members_by_root parents index [] members = members
members_by_root parents index (source_id ∷ ids) members =
    let found = find_group parents index in
    members_by_root found.0 (suc index) ids (push_member found.1 source_id members)

-- `left[0]`; no group is empty.
abbrev pub first_member : List Text → Text
first_member [] = []
first_member (member ∷ members) = member

unfoldable pub sorted_groups : Map ℕ (List Text) → List (List Text)
unfolding sort
sorted_groups members =
    sort (λ a b. text_ltb (first_member a) (first_member b)) (map (λ e. sort_texts e.1) members)

unfoldable pub assign_group : Text → List Text → Map Text Text → Map Text Text
assign_group group_id [] groups = groups
assign_group group_id (source_id ∷ members) groups =
    assign_group group_id members (insert source_id group_id groups)

-- The group at an index, and the groups of its members.
unfoldable pub number_groups :
    ℕ → List (List Text) → Map Text Text → List SameServerGroup × Map Text Text
unfolding assign_group show_nat
number_groups index [] assigned = ([], assigned)
number_groups index (members ∷ groups) assigned =
    let group_id = b'g' ∷ show_nat (suc index) in
    let rest = number_groups (suc index) groups (assign_group group_id members assigned) in
    (record { group_id = group_id; members = members } ∷ rest.0, rest.1)

module _ (lowercase_nfkc : Text → Text) where
  unfoldable pub group_sources : Map Text SourceState → List Text → SameServerGrouping
  unfolding identities overlap linked members_by_root sorted_groups number_groups
  group_sources sources active_sources =
      let sets = map (identities lowercase_nfkc sources) active_sources in
      let parents = linked (overlap sets) (length active_sources) in
      let numbered =
        number_groups 0 (sorted_groups (members_by_root parents 0 active_sources [])) [] in
      record { active_sources = active_sources; source_to_group = numbered.1; groups = numbered.0 }

  unfoldable pub same_server_grouping : Text → Relay → SameServerGrouping
  unfolding connected_ids group_sources
  same_server_grouping room relay =
      let active_sources = sort_texts (connected_ids is_reporter room relay.connections) in
      if is_empty active_sources then no_grouping else group_sources relay.sources active_sources

-- The ids whose group is the given one.
unfoldable pub group_members : Text → Map Text Text → List Text
group_members group_id [] = []
group_members group_id ((source_id, group) ∷ groups) =
    let rest = group_members group_id groups in
    if same_text group group_id then source_id ∷ rest else rest

unfoldable pub allowed_sources_for_player : Bool → Text → SameServerGrouping → List Text
unfolding group_members contains
allowed_sources_for_player filter_enabled player_id grouping =
    if not filter_enabled || not (contains Text-discrete player_id grouping.active_sources)
    then grouping.active_sources
    else elim (lookup player_id grouping.source_to_group) [
      | none ↦ grouping.active_sources
      | some group_id ↦
          let allowed = group_members group_id grouping.source_to_group in
          if is_empty allowed then grouping.active_sources else allowed
    ]
