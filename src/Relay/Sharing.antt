-- ===== src/Relay/Sharing.antt =====
-- The broadcast of src/relay.rs keeps the projected snapshot and the payload of one recipient for the
-- others with the same protocol epoch (`ProjectionKey`, `PayloadKey`): they would be sent the same.
use minecraft_team_viewer_ba.Compat.Order.{version_trans}
use minecraft_team_viewer_ba.Snapshot.Strip.{strip_player_positions}
use minecraft_team_viewer_ba.Battle.Types.{BattleChunkPatchScope, BattleRoomCache, battle_key_order}
use minecraft_team_viewer_ba.Compat.Rules.{from_version-newest}
use minecraft_team_viewer_ba.Snapshot.Payload.{
  battle_patch_for, finish_patch, full_chunks, full_payload, payload_from, state_payload,
  with_battle,
}
use minecraft_team_viewer_ba.Compat.Version.{minimum_protocol_version, version_leb}
use minecraft_team_viewer_ba.Objects.Fields.{F64}
use minecraft_team_viewer_ba.Snapshot.Types.{Patch, SnapshotFull}
use minecraft_team_viewer_ba.Compat.Epoch.{
  ProtocolEpoch, epoch_version, from_version, v0_6_2, v0_6_4, v0_6_5, v0_7_0,
}
use minecraft_team_viewer_ba.Snapshot.Adapt.{adapt_outbound_patch}
use minecraft_team_viewer_ba.Snapshot.Diff.{Same, build_patch}
use minecraft_team_viewer_ba.Snapshot.Project.{
  needs_projection, project_last_seen, project_mode, project_snapshot, project_source_metadata,
  project_tab_history,
}
use minecraft_team_viewer_ba.Compat.Profile.{
  ProtocolProfile, supports_battle_chunk_mode, supports_clear_fields, supports_last_seen_players,
  supports_player_source_metadata, supports_tab_history,
}
use minecraft_team_viewer_ba.Prelude.{
  Bool, Bool-cases, Option, ap, arith, inl, inr, none, refl, some, sym, true, ℕ, ◌∙◌, ◌≡◌,
}
use minecraft_team_viewer_ba.Prelude.Text.{nat_key, text_key}

-- What `negotiate` ensures of a profile.
pub record IsNegotiated (p : ProtocolProfile) : Type 0 where
  pub epoch : p.epoch ≡ from_version p.negotiated
  pub supported : version_leb minimum_protocol_version p.negotiated ≡ true

same_Bool : (a b : Bool) → (a ≡ true → b ≡ true) → (b ≡ true → a ≡ true) → a ≡ b
same_Bool a b f g = elim (Bool-cases a) [
  | inl e ↦ e ∙ sym (f e)
  | inr e ↦ elim (Bool-cases b) [ inl e' ↦ g e' ∙ sym e' | inr e' ↦ e ∙ sym e' ]
]

-- An epoch is reached by a version exactly when it is by the version's own epoch.
reaches :
    (p : ProtocolProfile) (e : ProtocolEpoch)
    → IsNegotiated p
    → version_leb (epoch_version e) p.negotiated
      ≡ version_leb (epoch_version e) (epoch_version p.epoch)
reaches p e h =
    let (below, newest) = from_version-newest p.negotiated h.supported in
    rw h.epoch (
      same_Bool _ _ (newest e) (λ le.
        version_trans (epoch_version e) (epoch_version (from_version p.negotiated)) p.negotiated le
          below))

module _ (p q : ProtocolProfile) (hp : IsNegotiated p) (hq : IsNegotiated q)
    (same_epoch : p.epoch ≡ q.epoch) where
  both_reach :
      (e : ProtocolEpoch)
      → version_leb (epoch_version e) p.negotiated ≡ version_leb (epoch_version e) q.negotiated
  both_reach e =
      reaches p e hp
      ∙ ap (λ epoch. version_leb (epoch_version e) (epoch_version epoch)) same_epoch
      ∙ sym (reaches q e hq)

  same_mode : supports_battle_chunk_mode p ≡ supports_battle_chunk_mode q
  unfolding supports_battle_chunk_mode epoch_version
  same_mode = both_reach v0_6_2

  same_last_seen : supports_last_seen_players p ≡ supports_last_seen_players q
  unfolding supports_last_seen_players epoch_version
  same_last_seen = both_reach v0_6_4

  same_metadata : supports_player_source_metadata p ≡ supports_player_source_metadata q
  unfolding supports_player_source_metadata epoch_version
  same_metadata = both_reach v0_6_5

  same_clear_fields : supports_clear_fields p ≡ supports_clear_fields q
  unfolding supports_clear_fields epoch_version
  same_clear_fields = both_reach v0_6_5

  same_tab_history : supports_tab_history p ≡ supports_tab_history q
  unfolding supports_tab_history epoch_version
  same_tab_history = both_reach v0_7_0

  same_projection : (s : SnapshotFull) → project_snapshot p s ≡ project_snapshot q s
  unfolding project_snapshot needs_projection project_mode project_last_seen project_source_metadata
      project_tab_history
  same_projection s = rw (same_mode, same_last_seen, same_metadata, same_tab_history) refl

  same_adapted : (patch : Patch) → adapt_outbound_patch p patch ≡ adapt_outbound_patch q patch
  unfolding adapt_outbound_patch
  same_adapted patch = rw same_clear_fields refl

  module _ (same : Same) (same_f64 : F64 → F64 → Bool) where
    same_finish :
        (strip : Bool) (delivered : SnapshotFull) (patch : Option Patch)
        → finish_patch same same_f64 p strip delivered patch
          ≡ finish_patch same same_f64 q strip delivered patch
    unfolding finish_patch
    same_finish strip delivered none = refl
    same_finish strip delivered (some patch) =
        ground (
          arith,
          same_adapted patch,
          same_adapted (strip_player_positions same_f64 delivered patch),
        )

    same_full :
        (target : SnapshotFull) (cache : Option BattleRoomCache)
        → full_payload p target cache ≡ full_payload q target cache
    unfolding full_payload full_chunks
    same_full target none = refl
    same_full target (some cache) = rw same_mode refl

    same_patch_for :
        (r : ℕ) (cache : Option BattleRoomCache)
        → battle_patch_for p r cache ≡ battle_patch_for q r cache
    unfolding battle_patch_for
    same_patch_for r none = refl
    same_patch_for r (some cache) = rw same_mode refl

    same_payload_from :
        (force_full strip : Bool) (delivered target : SnapshotFull) (cache : Option BattleRoomCache)
        (answer : Option (Option BattleChunkPatchScope))
        → payload_from same same_f64 p force_full delivered strip target cache answer
          ≡ payload_from same same_f64 q force_full delivered strip target cache answer
    unfolding payload_from
    same_payload_from force_full strip delivered target cache none =
        ap some (same_full target cache)
    same_payload_from force_full strip delivered target cache (some chunks) = ground (
      arith,
      same_full target cache,
      same_finish strip delivered (with_battle chunks (build_patch same delivered target)),
    )

    -- Two peers with the same protocol epoch are sent the same: the same projection of any snapshot, and
    -- for the same delivered state and flags the same payload. Their profiles come from a negotiation.
    pub state_payload-same_epoch :
        (force_full strip : Bool) (delivered : Option SnapshotFull) (revision : ℕ)
        (target : SnapshotFull) (cache : Option BattleRoomCache)
        → (project_snapshot p target ≡ project_snapshot q target)
          × (state_payload same same_f64 p force_full delivered revision strip target cache
              ≡ state_payload same same_f64 q force_full delivered revision strip target cache)
    unfolding state_payload
    state_payload-same_epoch force_full strip none revision target cache =
        (same_projection target, ap some (same_full target cache))
    state_payload-same_epoch force_full strip (some delivered) revision target cache = (
      same_projection target,
      same_payload_from force_full strip delivered target cache (battle_patch_for p revision cache)
          ∙ ap
              (λ answer.
                payload_from same same_f64 q force_full delivered strip target cache answer)
              (same_patch_for revision cache),
    )
