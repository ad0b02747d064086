-- ===== src/Compat/Profile.antt =====
-- `ProtocolProfile` of src/protocol_compat.rs: negotiation, and what a peer supports.
use minecraft_team_viewer_ba.Prelude.Text.{Text, nat_key, text_key}
use minecraft_team_viewer_ba.Compat.Epoch.{
  CompatibilityRuleId, ProtocolEpoch, active_for, all_rules, from_version,
}
use minecraft_team_viewer_ba.Compat.Version.{
  ProtocolVersion, current_protocol_version, from_str, minimum_protocol_version, version,
  version_leb, version_ltb, version_min,
}
use minecraft_team_viewer_ba.Prelude.{
  Bool, List, Option, [], if◌then◌else◌, length, none, some, ℕ, ◌∷◌,
}

pub record ProtocolProfile : Type 0 where
  pub peer_current : ProtocolVersion
  pub peer_minimum : ProtocolVersion
  pub negotiated : ProtocolVersion
  pub epoch : ProtocolEpoch

pub data NegotiationError : Type 0 where
  invalid_protocol_version client_protocol_too_old server_protocol_too_old : NegotiationError

pub data Negotiated : Type 0 where
  agreed : ProtocolProfile → Negotiated
  refused : NegotiationError → Negotiated

unfoldable pub agree : ProtocolVersion → ProtocolVersion → ProtocolProfile
agree current minimum =
    let negotiated = version_min current current_protocol_version in
    record {
      peer_current = current;
      peer_minimum = minimum;
      negotiated = negotiated;
      epoch = from_version negotiated;
    }

-- `negotiate` once both versions are parsed.
unfoldable pub negotiate_versions : ProtocolVersion → ProtocolVersion → Negotiated
negotiate_versions current minimum =
    if version_ltb current minimum
    then refused invalid_protocol_version
    else if version_ltb current minimum_protocol_version
    then refused client_protocol_too_old
    else if version_ltb current_protocol_version minimum
    then refused server_protocol_too_old
    else agreed (agree current minimum)

unfoldable pub negotiate : Text → Text → Negotiated
negotiate peer_current peer_minimum = elim (from_str peer_current) [
  | none ↦ refused invalid_protocol_version
  | some current ↦ elim (from_str peer_minimum) [
    | none ↦ refused invalid_protocol_version
    | some minimum ↦ negotiate_versions current minimum
  ]
]

unfoldable pub for_accepted_peer : Text → Option ProtocolProfile
for_accepted_peer peer_current = elim (from_str peer_current) [
  | none ↦ none
  | some current ↦
      if version_leb minimum_protocol_version (version_min current current_protocol_version)
      then some (agree current minimum_protocol_version)
      else none
]

unfoldable pub filter_rules : ProtocolVersion → List CompatibilityRuleId → List CompatibilityRuleId
filter_rules v [] = []
filter_rules v (rule ∷ rest) =
    if active_for rule v then rule ∷ filter_rules v rest else filter_rules v rest

unfoldable pub active_rules : ProtocolProfile → List CompatibilityRuleId
active_rules p = filter_rules p.negotiated all_rules

unfoldable pub compatibility_rule_count : ProtocolProfile → ℕ
compatibility_rule_count p = length (active_rules p)

unfoldable pub supports_battle_chunk_mode : ProtocolProfile → Bool
supports_battle_chunk_mode p = version_leb (version 0 6 2) p.negotiated

unfoldable pub supports_external_source_role : ProtocolProfile → Bool
supports_external_source_role p = version_leb (version 0 6 3) p.negotiated

unfoldable pub supports_last_seen_players : ProtocolProfile → Bool
supports_last_seen_players p = version_leb (version 0 6 4) p.negotiated

unfoldable pub supports_player_source_metadata : ProtocolProfile → Bool
supports_player_source_metadata p = version_leb (version 0 6 5) p.negotiated

unfoldable pub supports_clear_fields : ProtocolProfile → Bool
supports_clear_fields p = version_leb (version 0 6 5) p.negotiated

unfoldable pub supports_tab_history : ProtocolProfile → Bool
supports_tab_history p = version_leb (version 0 7 0) p.negotiated

unfoldable pub uses_structured_battle_chunk_digest : ProtocolProfile → Bool
uses_structured_battle_chunk_digest p = version_leb (version 0 7 1) p.negotiated

unfoldable pub supports_relationships : ProtocolProfile → Bool
supports_relationships p = version_leb (version 0 8 0) p.negotiated
