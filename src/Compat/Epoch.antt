-- ===== src/Compat/Epoch.antt =====
-- `ProtocolEpoch` and `CompatibilityRuleId` of src/protocol_compat.rs.
use mathlib.Core.List.{reverse}
use minecraft_team_viewer_ba.Prelude.{Bool, List, [], if◌then◌else◌, ◌∷◌}
use minecraft_team_viewer_ba.Compat.Version.{ProtocolVersion, version, version_leb, version_ltb}

pub data ProtocolEpoch : Type 0 where
  v0_6_1 v0_6_2 v0_6_3 v0_6_4 v0_6_5 v0_7_0 v0_7_1 v0_8_0 v0_8_1 : ProtocolEpoch

abbrev pub all_epochs : List ProtocolEpoch
all_epochs = v0_6_1 ∷ v0_6_2 ∷ v0_6_3 ∷ v0_6_4 ∷ v0_6_5 ∷ v0_7_0 ∷ v0_7_1 ∷ v0_8_0 ∷ v0_8_1 ∷ []

unfoldable pub epoch_version : ProtocolEpoch → ProtocolVersion
epoch_version v0_6_1 = version 0 6 1
epoch_version v0_6_2 = version 0 6 2
epoch_version v0_6_3 = version 0 6 3
epoch_version v0_6_4 = version 0 6 4
epoch_version v0_6_5 = version 0 6 5
epoch_version v0_7_0 = version 0 7 0
epoch_version v0_7_1 = version 0 7 1
epoch_version v0_8_0 = version 0 8 0
epoch_version v0_8_1 = version 0 8 1

-- `find(|epoch| version >= epoch.version())`, or the oldest epoch.
unfoldable pub find_epoch : ProtocolVersion → List ProtocolEpoch → ProtocolEpoch
find_epoch v [] = v0_6_1
find_epoch v (epoch ∷ rest) =
    if version_leb (epoch_version epoch) v then epoch else find_epoch v rest

unfoldable pub from_version : ProtocolVersion → ProtocolEpoch
from_version v = find_epoch v (reverse all_epochs)

pub data CompatibilityRuleId : Type 0 where
  omit_battle_chunk_mode default_player_role omit_last_seen_players : CompatibilityRuleId
  omit_player_source_metadata full_snapshot_for_clear_fields : CompatibilityRuleId
  disable_tab_history legacy_battle_chunk_digest : CompatibilityRuleId

abbrev pub all_rules : List CompatibilityRuleId
all_rules =
    omit_battle_chunk_mode ∷ default_player_role ∷ omit_last_seen_players
    ∷ omit_player_source_metadata ∷ full_snapshot_for_clear_fields ∷ disable_tab_history
    ∷ legacy_battle_chunk_digest ∷ []

unfoldable pub introduced_in : CompatibilityRuleId → ProtocolVersion
introduced_in omit_battle_chunk_mode = version 0 6 2
introduced_in default_player_role = version 0 6 3
introduced_in omit_last_seen_players = version 0 6 4
introduced_in omit_player_source_metadata = version 0 6 5
introduced_in full_snapshot_for_clear_fields = version 0 6 5
introduced_in disable_tab_history = version 0 7 0
introduced_in legacy_battle_chunk_digest = version 0 7 1

unfoldable pub active_for : CompatibilityRuleId → ProtocolVersion → Bool
active_for rule v = version_ltb v (introduced_in rule)
