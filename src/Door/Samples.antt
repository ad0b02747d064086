-- ===== src/Door/Samples.antt =====
-- The bound of the sample buffer of `DatagramDictEncoder` in src/door_control.rs.
use minecraft_team_viewer_ba.Prelude.Text.{Text, nat_key, text_key}
use minecraft_team_viewer_ba.Door.Dictionary.{
  Bytes, DatagramDictEncoder, collected, dict_enabled, dict_size, drop_older_half, is_deferred,
  observe, trained,
}
use minecraft_team_viewer_ba.Prelude.{
  Bool-cases, List, Option, arith, inl, inr, length, length-append, length-drop, ltb, none, not,
  some, ℕ, ◌*◌, ◌++◌, ◌-◌, ◌/◌, ◌≡◌, ◌≤◌,
}

length-drop_older_half :
    (samples : List Bytes) → length (drop_older_half samples) ≡ length samples - length samples / 2
unfolding drop_older_half
length-drop_older_half samples = length-drop (length samples / 2) samples

length-collected :
    (threshold : ℕ) (samples chunks : List Bytes)
    → length samples ≤ threshold * 4
    → length chunks ≤ threshold * 4
    → length (collected threshold samples chunks) ≤ threshold * 4
unfolding collected
length-collected threshold samples chunks h h' =
    elim (Bool-cases (ltb (threshold * 4) (length (samples ++ chunks)))) [
      | inl e ↦ rw e (
          omega
            (arith, length-drop_older_half (samples ++ chunks), length-append {0} samples chunks))
      | inr e ↦ rw e (ground (arith, length-append {0} samples chunks))
    ]

module _ (train : List Bytes → ℕ → Option Bytes) (dict_id : Bytes → Text) where
  length-trained :
      (e : DatagramDictEncoder) (samples : List Bytes) (now n : ℕ) (result : Option Bytes)
      → length samples ≤ n
      → length ((trained train dict_id e samples now result).0.samples) ≤ n
  unfolding trained
  length-trained e samples now n none h = omega (arith, length-drop_older_half samples)
  length-trained e samples now n (some content) h = omega arith

  -- A sample buffer that holds at most four times the threshold of a training still does so after a
  -- batch is observed, unless that batch alone has more chunks than that.
  pub observe-le_samples :
      (e : DatagramDictEncoder) (chunks : List Bytes) (now : ℕ)
      → length e.samples ≤ e.policy.chunks_threshold * 4
      → length chunks ≤ e.policy.chunks_threshold * 4
      → length ((observe train dict_id e chunks now).0.samples) ≤ e.policy.chunks_threshold * 4
  unfolding observe
  observe-le_samples e chunks now h h' =
      let samples = collected e.policy.chunks_threshold e.samples chunks in
      let bound = length-collected e.policy.chunks_threshold e.samples chunks h h' in
      elim (Bool-cases (not (dict_enabled e.suite))) [
        | inl off ↦ rw off h
        | inr on ↦ rw on (elim (Bool-cases (is_deferred e samples now)) [
          | inl later ↦ rw later bound
          | inr ready_now ↦ rw ready_now (
              length-trained e samples now (e.policy.chunks_threshold * 4) (train samples dict_size)
                bound)
        ])
      ]
