-- ===== src/Compat/Order.antt =====
-- The derived order of `ProtocolVersion` in src/protocol_compat.rs is a total order.
use minecraft_team_viewer_ba.Compat.Version.{ProtocolVersion, version_leb, version_ltb, version_min}
use minecraft_team_viewer_ba.Prelude.{Bool-cases, arith, inl, inr, true, ◌≡◌}

pub version_refl : (a : ProtocolVersion) → version_leb a a ≡ true
unfolding version_ltb
version_refl a = ground arith

pub version_trans :
    (a b c : ProtocolVersion)
    → version_leb a b ≡ true
    → version_leb b c ≡ true
    → version_leb a c ≡ true
unfolding version_ltb
version_trans a b c h k = ground arith

pub version_asym : (a b : ProtocolVersion) → version_ltb a b ≡ true → version_leb a b ≡ true
unfolding version_ltb
version_asym a b h = ground arith

-- The smaller of two versions is below both, and above whatever is below both.
pub version_min-glb :
    (a b : ProtocolVersion)
    → (version_leb (version_min a b) a ≡ true)
      × (version_leb (version_min a b) b ≡ true)
      × ((v : ProtocolVersion)
          → version_leb v a ≡ true
          → version_leb v b ≡ true
          → version_leb v (version_min a b) ≡ true)
unfolding version_min
version_min-glb a b = elim (Bool-cases (version_ltb b a)) [
  | inl less ↦ rw less (version_asym b a less, version_refl b, λ v h k. k)
  | inr not_less ↦ rw not_less (version_refl a, ground arith, λ v h k. h)
]
