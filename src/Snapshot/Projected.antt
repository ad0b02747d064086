-- ===== src/Snapshot/Projected.antt =====
-- What `project_snapshot` of src/protocol_compat.rs takes from a snapshot, and what it leaves.
use minecraft_team_viewer_ba.Battle.Types.{BattleChunkEntry, BattleChunkValue, battle_key_order}
use minecraft_team_viewer_ba.Compat.Profile.{
  ProtocolProfile, supports_battle_chunk_mode, supports_last_seen_players,
  supports_player_source_metadata, supports_tab_history,
}
use minecraft_team_viewer_ba.Compat.Version.{ProtocolVersion, version, version_leb}
use minecraft_team_viewer_ba.Objects.Player.{PlayerData}
use minecraft_team_viewer_ba.Snapshot.Project.{
  map_values, needs_projection, omit_mode, omit_scoreboard, omit_scoreboards, omit_source_metadata,
  omit_tab_history, project_last_seen, project_mode, project_snapshot, project_source_metadata,
  project_tab_history, without_mode,
}
use minecraft_team_viewer_ba.Snapshot.Types.{
  SnapshotFull, TabPlayerEntry, TabPlayerReport, WebMapTabState,
}
use minecraft_team_viewer_ba.Prelude.{
  Bool, Bool-cases, List, Option, [], false, if◌then◌else◌, inl, inr, map, map_option, none, not,
  refl, some, subst, sym, true, ◌||◌, ◌∷◌, ◌≡◌,
}
use minecraft_team_viewer_ba.Prelude.Text.{Text, nat_key, text_key}

-- Two lists whose elements are related in order.
abbrev pub Pairwise : {A : Type 0} → (A → A → Type 0) → List A → List A → Type 0
Pairwise R [] [] = Unit {0}
Pairwise R [] (y ∷ ys) = ⊥
Pairwise R (x ∷ xs) [] = ⊥
Pairwise R (x ∷ xs) (y ∷ ys) = R x y × Pairwise R xs ys

-- Of a chunk, the mode is gone and nothing else.
abbrev ModeTaken : Option BattleChunkValue → Option BattleChunkValue → Type 0
ModeTaken none after = after ≡ none
ModeTaken (some before) none = ⊥
ModeTaken (some before) (some after) =
    (after.mode ≡ none) × (record after { mode = before.mode } ≡ before)

abbrev pub ChunkModeTaken : BattleChunkEntry → BattleChunkEntry → Type 0
ChunkModeTaken before after =
    (after.reference ≡ before.reference) × ModeTaken before.payload after.payload

-- Of a player, the four fields on the source of the position are gone and nothing else.
abbrev pub SourceTaken : Text × PlayerData → Text × PlayerData → Type 0
SourceTaken (id, before) (id', after) =
    (id' ≡ id)
    × (after.position_source_id ≡ none)
    × (after.position_source_kind ≡ none)
    × (after.position_source_display_name ≡ none)
    × (after.position_resolution ≡ none)
    × (record after {
      position_source_id = before.position_source_id;
      position_source_kind = before.position_source_kind;
      position_source_display_name = before.position_source_display_name;
      position_resolution = before.position_resolution;
    }
        ≡ before)

-- Of an entry of the tab list, the seven fields on scoreboards and formats are gone and nothing else.
abbrev ScoreboardTaken : TabPlayerEntry → TabPlayerEntry → Type 0
ScoreboardTaken before after =
    (after.scoreboard_team_id ≡ none)
    × (after.scoreboard_prefix ≡ none)
    × (after.scoreboard_suffix ≡ none)
    × (after.scoreboard_color_rgb ≡ none)
    × (after.formatted_display_name ≡ none)
    × (after.formatted_scoreboard_prefix ≡ none)
    × (after.formatted_scoreboard_suffix ≡ none)
    × (record after {
      scoreboard_team_id = before.scoreboard_team_id;
      scoreboard_prefix = before.scoreboard_prefix;
      scoreboard_suffix = before.scoreboard_suffix;
      scoreboard_color_rgb = before.scoreboard_color_rgb;
      formatted_display_name = before.formatted_display_name;
      formatted_scoreboard_prefix = before.formatted_scoreboard_prefix;
      formatted_scoreboard_suffix = before.formatted_scoreboard_suffix;
    }
        ≡ before)

abbrev ReportTaken : Text × TabPlayerReport → Text × TabPlayerReport → Type 0
ReportTaken (id, before) (id', after) =
    (id' ≡ id)
    × Pairwise ScoreboardTaken before.players after.players
    × (record after { players = before.players } ≡ before)

abbrev pub ScoreboardsTaken : Option WebMapTabState → Option WebMapTabState → Type 0
ScoreboardsTaken none after = after ≡ none
ScoreboardsTaken (some before) none = ⊥
ScoreboardsTaken (some before) (some after) =
    Pairwise ReportTaken before.reports after.reports
    × (record after { reports = before.reports } ≡ before)

-- One thing or another, by a test.
abbrev pub Either : Bool → Type 0 → Type 0 → Type 0
Either true P Q = P
Either false P Q = Q

-- A snapshot and its projection to a version: each of the four groups of fields stays if the version has
-- it and is taken away if not, and nothing else changes.
pub record IsProjected (v : ProtocolVersion) (before after : SnapshotFull) : Type 0 where
  pub mode :
      Either
        (version_leb (version 0 6 2) v)
        (after.battle_chunks ≡ before.battle_chunks)
        (Pairwise ChunkModeTaken before.battle_chunks after.battle_chunks)
  pub last_seen :
      Either
        (version_leb (version 0 6 4) v)
        (after.last_seen_players ≡ before.last_seen_players)
        (after.last_seen_players ≡ [])
  pub source :
      Either
        (version_leb (version 0 6 5) v)
        (after.players ≡ before.players)
        (Pairwise SourceTaken before.players after.players)
  pub tab :
      Either
        (version_leb (version 0 7 0) v)
        (after.tab_state ≡ before.tab_state)
        (ScoreboardsTaken before.tab_state after.tab_state)
  pub rest :
      record after {
        battle_chunks = before.battle_chunks;
        last_seen_players = before.last_seen_players;
        players = before.players;
        tab_state = before.tab_state;
      }
      ≡ before

Pairwise-map :
    {A : Type 0} (R : A → A → Type 0) (f : A → A)
    → ((a : A) → R a (f a))
    → (xs : List A) → Pairwise R xs (map f xs)
Pairwise-map R f h [] = tt
Pairwise-map R f h (x ∷ xs) = (h x, Pairwise-map R f h xs)

omit_mode-taken : (entry : BattleChunkEntry) → ChunkModeTaken entry (omit_mode entry)
unfolding omit_mode without_mode
omit_mode-taken entry = (refl, either entry.payload)
  where
    either : (p : Option BattleChunkValue) → ModeTaken p (map_option without_mode p)
    either none = refl
    either (some value) = (refl, refl)

omit_tab_history-taken :
    (tab : Option WebMapTabState) → ScoreboardsTaken tab (map_option omit_tab_history tab)
unfolding omit_tab_history omit_scoreboards omit_scoreboard
omit_tab_history-taken none = refl
omit_tab_history-taken (some tab) = (
  Pairwise-map ReportTaken _
      (λ e. (
        refl,
        Pairwise-map ScoreboardTaken omit_scoreboard
            (λ player. (refl, refl, refl, refl, refl, refl, refl, refl)) (e.1).players,
        refl,
      ))
      tab.reports,
  refl,
)

-- The four groups of fields, each by a test of its own.
abbrev chosen : Bool → Bool → Bool → Bool → SnapshotFull → SnapshotFull
chosen mode last_seen source tab s = record s {
  battle_chunks = if mode then s.battle_chunks else map omit_mode s.battle_chunks;
  last_seen_players = if last_seen then s.last_seen_players else [];
  players = if source then s.players else map_values omit_source_metadata s.players;
  tab_state = if tab then s.tab_state else map_option omit_tab_history s.tab_state;
}

mode_step :
    (profile : ProtocolProfile) (s : SnapshotFull)
    → project_mode profile s ≡ chosen (supports_battle_chunk_mode profile) true true true s
unfolding project_mode
mode_step profile s = elim (Bool-cases (supports_battle_chunk_mode profile)) [
  | inl e ↦ rw e refl
  | inr e ↦ rw e refl
]

last_seen_step :
    (profile : ProtocolProfile) (s : SnapshotFull) (a : Bool)
    → project_last_seen profile (chosen a true true true s)
      ≡ chosen a (supports_last_seen_players profile) true true s
unfolding project_last_seen
last_seen_step profile s a = elim (Bool-cases (supports_last_seen_players profile)) [
  | inl e ↦ rw e refl
  | inr e ↦ rw e refl
]

source_step :
    (profile : ProtocolProfile) (s : SnapshotFull) (a b : Bool)
    → project_source_metadata profile (chosen a b true true s)
      ≡ chosen a b (supports_player_source_metadata profile) true s
unfolding project_source_metadata
source_step profile s a b = elim (Bool-cases (supports_player_source_metadata profile)) [
  | inl e ↦ rw e refl
  | inr e ↦ rw e refl
]

tab_step :
    (profile : ProtocolProfile) (s : SnapshotFull) (a b c : Bool)
    → project_tab_history profile (chosen a b c true s)
      ≡ chosen a b c (supports_tab_history profile) s
unfolding project_tab_history
tab_step profile s a b c = elim (Bool-cases (supports_tab_history profile)) [
  | inl e ↦ rw e refl
  | inr e ↦ rw e refl
]

chosen_by :
    {A : Type 0} (R : A → A → Type 0) (b : Bool) (kept taken : A)
    → R kept taken
    → Either b ((if b then kept else taken) ≡ kept) (R kept (if b then kept else taken))
chosen_by R true kept taken h = refl
chosen_by R false kept taken h = h

module _ (profile : ProtocolProfile) (s : SnapshotFull) where
  abbrev result : SnapshotFull
  result =
      chosen (supports_battle_chunk_mode profile) (supports_last_seen_players profile)
        (supports_player_source_metadata profile) (supports_tab_history profile) s

  steps-result :
      project_tab_history profile
        (project_source_metadata profile (project_last_seen profile (project_mode profile s)))
      ≡ result
  steps-result = rw (mode_step profile s) (
      rw (last_seen_step profile s (supports_battle_chunk_mode profile)) (
        rw
          (source_step profile s (supports_battle_chunk_mode profile)
            (supports_last_seen_players profile))
          (tab_step profile s (supports_battle_chunk_mode profile)
            (supports_last_seen_players profile) (supports_player_source_metadata profile))))

  -- A version that needs no projection has all four groups.
  unneeded : needs_projection profile ≡ false → s ≡ result
  unfolding needs_projection
  unneeded h =
      all (supports_battle_chunk_mode profile) (supports_last_seen_players profile)
        (supports_player_source_metadata profile) (supports_tab_history profile) h
    where
      all : (a b c d : Bool) → (not a || not b || not c || not d) ≡ false → s ≡ chosen a b c d s
      all true true true true e = refl
      all true true true false e = absurd (cc e)
      all true true false d e = absurd (cc e)
      all true false c d e = absurd (cc e)
      all false b c d e = absurd (cc e)

  project_snapshot-result : project_snapshot profile s ≡ result
  unfolding project_snapshot
  project_snapshot-result = elim (Bool-cases (needs_projection profile)) [
    | inl e ↦ rw e steps-result
    | inr e ↦ rw e (unneeded e)
  ]

  result-IsProjected : IsProjected profile.negotiated s result
  unfolding supports_battle_chunk_mode supports_last_seen_players supports_player_source_metadata
      supports_tab_history omit_source_metadata
  result-IsProjected = record {
    mode =
        chosen_by (Pairwise ChunkModeTaken) _ s.battle_chunks (map omit_mode s.battle_chunks)
          (Pairwise-map ChunkModeTaken omit_mode omit_mode-taken s.battle_chunks);
    last_seen = chosen_by (λ before after. after ≡ []) _ s.last_seen_players [] refl;
    source =
        chosen_by (Pairwise SourceTaken) _ s.players (map_values omit_source_metadata s.players) (
          Pairwise-map SourceTaken (λ e. (e.0, omit_source_metadata e.1))
            (λ e. (refl, refl, refl, refl, refl, refl)) s.players);
    tab =
        chosen_by ScoreboardsTaken _ s.tab_state (map_option omit_tab_history s.tab_state)
          (omit_tab_history-taken s.tab_state);
    rest = refl;
  }

  -- The projection to the negotiated version keeps the modes of battle chunks from 0.6.2 on, the
  -- last-seen players from 0.6.4 on, the source of a player's position from 0.6.5 on and the scoreboard
  -- and format fields of the tab list from 0.7.0 on. Before that it takes away all of them, and it
  -- never changes anything else of the snapshot.
  pub project_snapshot-IsProjected : IsProjected profile.negotiated s (project_snapshot profile s)
  project_snapshot-IsProjected =
      subst (IsProjected profile.negotiated s) (sym project_snapshot-result) result-IsProjected
