-- ===== src/Door/Tests.antt =====
-- Runs of the dictionary encoder of src/door_control.rs, and the theorems at them.
use minecraft_team_viewer_ba.Door.Samples.{observe-le_samples}
use minecraft_team_viewer_ba.Door.Dictionary.{
  ActiveDict, Bytes, TrainingPolicy, activate, collected, dict_enabled, drop_older_half,
  is_deferred, observe, sample_bytes, too_soon, trained, with_policy,
}
use minecraft_team_viewer_ba.Door.Lifecycle.{
  Event, Session, batch, encode-IsKnown, happen, happen_all, offer_of, opened, ready,
}
use minecraft_team_viewer_ba.Door.Suite.{
  alpn_zstd_dict, from_alpn, from_query_value, from_subprotocol, select_ws_subprotocol,
  select_ws_subprotocol-Member, subprotocol_plain, subprotocol_zstd, to_ascii_lowercase,
  ws_subprotocol, zstd, zstd_dict,
}
use minecraft_team_viewer_ba.Prelude.{
  List, Member, Option, [], arith, length, none, refl, some, ℕ, ℕ_discrete, ◌∷◌, ◌≡◌, ◌≤◌,
}
use minecraft_team_viewer_ba.Prelude.Text.{
  Text, Text-discrete, codes, nat_key, text_key, trim, trim_start,
}

-- A policy that trains on two samples, and a training that takes the first of them.
abbrev small : TrainingPolicy
small = record { chunks_threshold = 2; min_sample_bytes = 2; min_interval = 0 }

abbrev first_sample : List Bytes → ℕ → Option Bytes
first_sample [] size = none
first_sample (sample ∷ samples) size = some sample

abbrev name_of : Bytes → Text
name_of content = content

abbrev events : List Event
events =
    batch ((1 ∷ []) ∷ (2 ∷ []) ∷ []) 5 ∷ ready (1 ∷ []) ∷ batch ((3 ∷ []) ∷ (4 ∷ []) ∷ []) 6 ∷ []

abbrev first_dict : ActiveDict
first_dict = record { id = 1 ∷ []; cdict = 1 ∷ [] }

abbrev session : Session
session = happen_all first_sample name_of (opened first_sample name_of zstd_dict small) events

program : Unit {0}
unfolding happen_all happen observe activate opened with_policy trained collected is_deferred
    sample_bytes too_soon dict_enabled drop_older_half Text-discrete ℕ_discrete
program = tt

session_current : session.encoder.current ≡ some first_dict
unfolding program
session_current = refl

session_offered : length session.offered ≡ 2
unfolding program
session_offered = refl

encode-IsKnown_example :
    Member (offer_of first_dict) session.offered × Member first_dict.id session.confirmed
encode-IsKnown_example =
    encode-IsKnown first_sample name_of zstd_dict small events first_dict session_current

observe-le_samples_example :
    length
      ((observe first_sample name_of (with_policy zstd_dict small) ((1 ∷ []) ∷ []) 5).0.samples)
    ≤ 8
unfolding with_policy
observe-le_samples_example =
    observe-le_samples first_sample name_of (with_policy zstd_dict small) ((1 ∷ []) ∷ []) 5 fits
      (omega arith)
  where
    fits : length ((with_policy zstd_dict small).samples) ≤ 8
    fits = unfold with_policy in omega arith

abbrev offered_names : List Text
offered_names = codes "chat" ∷ subprotocol_zstd ∷ subprotocol_plain ∷ []

select_zstd : select_ws_subprotocol offered_names ≡ some zstd
unfolding select_ws_subprotocol from_subprotocol Text-discrete ℕ_discrete
select_zstd = refl

select_ws_subprotocol-Member_example : Member (ws_subprotocol zstd) offered_names
select_ws_subprotocol-Member_example = select_ws_subprotocol-Member offered_names zstd select_zstd

query_zstd : from_query_value (codes " ZSTD ") ≡ zstd
unfolding from_query_value trim trim_start to_ascii_lowercase Text-discrete ℕ_discrete
query_zstd = refl

query_default : from_query_value [] ≡ zstd_dict
unfolding from_query_value trim trim_start to_ascii_lowercase Text-discrete ℕ_discrete
query_default = refl

alpn_zstd_dict-name : from_alpn alpn_zstd_dict ≡ some zstd_dict
unfolding from_alpn Text-discrete ℕ_discrete
alpn_zstd_dict-name = refl
