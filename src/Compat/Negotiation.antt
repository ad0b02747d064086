-- ===== src/Compat/Negotiation.antt =====
-- `ProtocolProfile::negotiate` of src/protocol_compat.rs finds the newest version that both sides
-- support, and refuses exactly when there is none.
use minecraft_team_viewer_ba.Compat.Epoch.{from_version}
use minecraft_team_viewer_ba.Compat.Order.{version_min-glb, version_trans}
use minecraft_team_viewer_ba.Prelude.Text.{Text, nat_key, text_key}
use minecraft_team_viewer_ba.Compat.Profile.{
  Negotiated, agree, agreed, negotiate, negotiate_versions, refused,
}
use minecraft_team_viewer_ba.Compat.Version.{
  ProtocolVersion, current_protocol_version, from_str, minimum_protocol_version, version_leb,
  version_ltb, version_min,
}
use minecraft_team_viewer_ba.Prelude.{
  Bool-cases, arith, inl, inr, refl, some, subst, sym, true, ◌≡◌,
}

-- A version that the peer and this server both support.
pub record IsCommon (current minimum v : ProtocolVersion) : Type 0 where
  pub peer_low : version_leb minimum v ≡ true
  pub peer_high : version_leb v current ≡ true
  pub server_low : version_leb minimum_protocol_version v ≡ true
  pub server_high : version_leb v current_protocol_version ≡ true

pub record IsNewestCommon (current minimum v : ProtocolVersion) : Type 0 where
  pub common : IsCommon current minimum v
  pub newest : (w : ProtocolVersion) → IsCommon current minimum w → version_leb w v ≡ true

-- What `negotiate_versions` answers, against the versions that both sides support.
abbrev pub Decides : ProtocolVersion → ProtocolVersion → Negotiated → Type 0
Decides current minimum (agreed p) =
    (p.peer_current ≡ current)
    × (p.peer_minimum ≡ minimum)
    × IsNewestCommon current minimum p.negotiated
    × (p.epoch ≡ from_version p.negotiated)
Decides current minimum (refused e) = (v : ProtocolVersion) → ¬ IsCommon current minimum v

-- The tests of the negotiation, as orders.
agree_newest :
    (current minimum : ProtocolVersion)
    → version_leb minimum current ≡ true
    → version_leb minimum_protocol_version current ≡ true
    → version_leb minimum current_protocol_version ≡ true
    → IsNewestCommon current minimum (version_min current current_protocol_version)
agree_newest current minimum ordered new_enough old_enough =
    let (below, below_server, greatest) = version_min-glb current current_protocol_version in
    record {
      common = record {
        peer_low = greatest minimum ordered old_enough;
        peer_high = below;
        server_low = greatest minimum_protocol_version new_enough server_ordered;
        server_high = below_server;
      };
      newest = λ w c. greatest w c.peer_high c.server_high;
    }
  where
    server_ordered : version_leb minimum_protocol_version current_protocol_version ≡ true
    server_ordered = unfold version_ltb in refl

no_common :
    (current minimum low high v : ProtocolVersion)
    → version_ltb high low ≡ true
    → version_leb low v ≡ true
    → version_leb v high ≡ true
    → ⊥
no_common current minimum low high v gap above below =
    ground (arith, version_trans low v high above below)

negotiate_versions-Decides :
    (current minimum : ProtocolVersion)
    → Decides current minimum (negotiate_versions current minimum)
unfolding negotiate_versions agree
negotiate_versions-Decides current minimum = elim (Bool-cases (version_ltb current minimum)) [
  | inl inverted ↦
      rw inverted
        (λ v c. no_common current minimum minimum current v inverted c.peer_low c.peer_high)
  | inr ordered ↦ rw ordered (elim (Bool-cases (version_ltb current minimum_protocol_version)) [
    | inl old ↦ rw old (λ v c.
        no_common current minimum minimum_protocol_version current v old c.server_low c.peer_high)
    | inr new_enough ↦
        rw new_enough (elim (Bool-cases (version_ltb current_protocol_version minimum)) [
          | inl new ↦ rw new (λ v c.
              no_common current minimum minimum current_protocol_version v new c.peer_low
                c.server_high)
          | inr old_enough ↦ rw old_enough (
            refl,
            refl,
            agree_newest current minimum (rw ordered) (rw new_enough) (rw old_enough),
            refl,
          )
        ])
  ])
]

-- For two version texts that parse: the profile agreed on has the newest version that lies both in the
-- peer's range and in the server's, with the epoch of that version, and a refusal means that no version
-- lies in both.
pub negotiate-Decides :
    (peer_current peer_minimum : Text) (current minimum : ProtocolVersion)
    → from_str peer_current ≡ some current
    → from_str peer_minimum ≡ some minimum
    → Decides current minimum (negotiate peer_current peer_minimum)
unfolding negotiate
negotiate-Decides peer_current peer_minimum current minimum e f =
    subst (λ r. Decides current minimum r) (sym (parsed e f))
      (negotiate_versions-Decides current minimum)
  where
    parsed :
        from_str peer_current ≡ some current
        → from_str peer_minimum ≡ some minimum
        → negotiate peer_current peer_minimum ≡ negotiate_versions current minimum
    parsed h k = rw (h, negotiate) (rw k)
