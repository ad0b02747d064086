-- ===== src/Compat/Rules.antt =====
-- The epochs and the compatibility rules of src/protocol_compat.rs against the versions they stand for.
use minecraft_team_viewer_ba.Compat.Order.{version_refl, version_trans}
use minecraft_team_viewer_ba.Compat.Epoch.{
  CompatibilityRuleId, ProtocolEpoch, active_for, all_epochs, all_rules, default_player_role,
  disable_tab_history, epoch_version, find_epoch, from_version, full_snapshot_for_clear_fields,
  introduced_in, legacy_battle_chunk_digest, omit_battle_chunk_mode, omit_last_seen_players,
  omit_player_source_metadata, v0_6_1,
}
use minecraft_team_viewer_ba.Compat.Profile.{
  ProtocolProfile, active_rules, compatibility_rule_count, filter_rules, supports_battle_chunk_mode,
  supports_clear_fields, supports_external_source_role, supports_last_seen_players,
  supports_player_source_metadata, supports_tab_history, uses_structured_battle_chunk_digest,
}
use minecraft_team_viewer_ba.Compat.Version.{
  ProtocolVersion, minimum_protocol_version, version_leb, version_ltb,
}
use mathlib.Core.List.{reverse}
use minecraft_team_viewer_ba.Prelude.{
  All, Bool, Bool-cases, List, Member, [], arith, false, inl, inr, length, not, subst, true, ◌↔◌,
  ◌∷◌, ◌≡◌, ◌≤◌,
}

-- From the newest to the oldest.
abbrev Descends : List ProtocolEpoch → Type 0
Descends [] = Unit {0}
Descends (e ∷ es) =
    All (λ f. version_leb (epoch_version f) (epoch_version e) ≡ true) es × Descends es

all_epochs-Descends : Descends (reverse all_epochs)
unfolding epoch_version version_ltb
all_epochs-Descends = ground arith

All-Member :
    (P : ProtocolEpoch → Type 0) (e : ProtocolEpoch) (es : List ProtocolEpoch)
    → All P es
    → Member e es
    → P e
All-Member P e [] h m = absurd m
All-Member P e (f ∷ es) h (inl same) = subst P same h.0
All-Member P e (f ∷ es) h (inr m) = All-Member P e es h.1 m

find_epoch-newest :
    (v : ProtocolVersion) (es : List ProtocolEpoch) (e : ProtocolEpoch)
    → Descends es
    → Member e es
    → version_leb (epoch_version e) v ≡ true
    → (version_leb (epoch_version (find_epoch v es)) v ≡ true)
      × (version_leb (epoch_version e) (epoch_version (find_epoch v es)) ≡ true)
unfolding find_epoch
find_epoch-newest v [] e d m h = absurd m
find_epoch-newest v (f ∷ es) e d m h = elim (Bool-cases (version_leb (epoch_version f) v)) [
  | inl first ↦ rw first (first, at_most m)
  | inr later ↦ rw later (find_epoch-newest v es e d.1 (among later m) h)
]
  where
    at_most : Member e (f ∷ es) → version_leb (epoch_version e) (epoch_version f) ≡ true
    at_most (inl same) = rw same (version_refl (epoch_version e))
    at_most (inr m) =
        All-Member (λ g. version_leb (epoch_version g) (epoch_version f) ≡ true) e es d.0 m

    among : version_leb (epoch_version f) v ≡ false → Member e (f ∷ es) → Member e es
    among later (inl same) = absurd (ground arith)
    among later (inr m) = m

all_epochs_total : (e : ProtocolEpoch) → Member e (reverse all_epochs)
all_epochs_total v0_6_1 = ground arith
all_epochs_total _ = ground arith

-- For a version that the server still supports, the epoch found is the newest one that is not newer
-- than the version.
pub from_version-newest :
    (v : ProtocolVersion)
    → version_leb minimum_protocol_version v ≡ true
    → (version_leb (epoch_version (from_version v)) v ≡ true)
      × ((e : ProtocolEpoch)
          → version_leb (epoch_version e) v ≡ true
          → version_leb (epoch_version e) (epoch_version (from_version v)) ≡ true)
unfolding from_version
from_version-newest v h = (
  (find_epoch-newest v (reverse all_epochs) v0_6_1 all_epochs-Descends (all_epochs_total v0_6_1)
      (unfold epoch_version in h)).0,
  λ e older.
      (find_epoch-newest v (reverse all_epochs) e all_epochs-Descends (all_epochs_total e) older).1,
)

-- The capability that each rule stands in for.
abbrev pub supports : CompatibilityRuleId → ProtocolProfile → Bool
supports omit_battle_chunk_mode p = supports_battle_chunk_mode p
supports default_player_role p = supports_external_source_role p
supports omit_last_seen_players p = supports_last_seen_players p
supports omit_player_source_metadata p = supports_player_source_metadata p
supports full_snapshot_for_clear_fields p = supports_clear_fields p
supports disable_tab_history p = supports_tab_history p
supports legacy_battle_chunk_digest p = uses_structured_battle_chunk_digest p

supports_iff :
    (p : ProtocolProfile) (rule : CompatibilityRuleId)
    → active_for rule p.negotiated ≡ not (supports rule p)
unfolding active_for introduced_in supports_battle_chunk_mode supports_external_source_role
    supports_last_seen_players supports_player_source_metadata supports_clear_fields
    supports_tab_history uses_structured_battle_chunk_digest
supports_iff p omit_battle_chunk_mode = ground arith
supports_iff p _ = ground arith

filter_rules-Member :
    (v : ProtocolVersion) (rule : CompatibilityRuleId) (rules : List CompatibilityRuleId)
    → Member rule (filter_rules v rules) ↔ (Member rule rules × (active_for rule v ≡ true))
unfolding filter_rules
filter_rules-Member v rule [] = ((λ m. absurd m), λ h. h.0)
filter_rules-Member v rule (r ∷ rest) =
    let (to, from) = filter_rules-Member v rule rest in
    elim (Bool-cases (active_for r v)) [
      | inl e ↦ (rw e (λ m. ground (arith, to)), rw e (λ h. ground (arith, from)))
      | inr e ↦ (rw e (λ m. ground (arith, to m)), rw e (λ h. ground (arith, from)))
    ]

all_rules_total : (rule : CompatibilityRuleId) → Member rule all_rules
all_rules_total omit_battle_chunk_mode = ground arith
all_rules_total _ = ground arith

-- A rule is among the active rules of a profile exactly when the profile lacks the capability that the
-- rule stands in for.
pub active_rules_iff :
    (p : ProtocolProfile) (rule : CompatibilityRuleId)
    → Member rule (active_rules p) ↔ (supports rule p ≡ false)
unfolding active_rules
active_rules_iff p rule = (
  (λ m. ground (arith, (filter_rules-Member p.negotiated rule all_rules).0 m, supports_iff p rule)),
  λ lacks.
      (filter_rules-Member p.negotiated rule all_rules).1
        (all_rules_total rule, ground (arith, supports_iff p rule)),
)

filter_rules-antitone :
    (v w : ProtocolVersion) (rules : List CompatibilityRuleId)
    → version_leb v w ≡ true
    → length (filter_rules w rules) ≤ length (filter_rules v rules)
unfolding filter_rules active_for
filter_rules-antitone v w [] h = omega arith
filter_rules-antitone v w (rule ∷ rest) h =
    ground (arith, filter_rules-antitone v w rest h, version_trans (introduced_in rule) v w)

-- A newer negotiated version never has more rules to apply.
pub compatibility_rule_count-antitone :
    (p q : ProtocolProfile)
    → version_leb p.negotiated q.negotiated ≡ true
    → compatibility_rule_count q ≤ compatibility_rule_count p
unfolding compatibility_rule_count active_rules
compatibility_rule_count-antitone p q h =
    filter_rules-antitone p.negotiated q.negotiated all_rules h
