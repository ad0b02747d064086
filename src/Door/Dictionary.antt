-- ===== src/Door/Dictionary.antt =====
-- `DatagramDictEncoder` of src/door_control.rs. The training and the compression of the zstd library
-- and the hash behind a dictionary's id are parameters, and a compiled dictionary is its content.
use minecraft_team_viewer_ba.Door.Suite.{Suite, datagram_zstd, plain, zstd, zstd_dict}
use minecraft_team_viewer_ba.Prelude.{
  Bool, List, Option, [], drop, false, if◌then◌else◌, is_some, ite, length, ltb, none, not, some,
  true, ℕ, ◌*◌, ◌++◌, ◌+◌, ◌-◌, ◌/◌, ◌||◌, ◌∷◌,
}
use minecraft_team_viewer_ba.Prelude.Text.{Text, Text-discrete, nat_key, text_key}

abbrev pub Bytes : Type 0
Bytes = List ℕ

abbrev pub dict_size : ℕ
dict_size = 4096

pub record TrainingPolicy : Type 0 where
  pub chunks_threshold : ℕ
  pub min_sample_bytes : ℕ
  pub min_interval : ℕ

abbrev pub production : TrainingPolicy
production = record {
  chunks_threshold = 64;
  min_sample_bytes = dict_size * 4;
  min_interval = 60000000000;
}

pub record TrainedOffer : Type 0 where
  pub id : Text
  pub content : Bytes

pub record ActiveDict : Type 0 where
  pub id : Text
  pub cdict : Bytes

pub record DatagramDictEncoder : Type 0 where
  pub suite : Suite
  pub current : Option ActiveDict
  pub previous : Option ActiveDict
  pub pending : Option ActiveDict
  pub samples : List Bytes
  pub policy : TrainingPolicy
  pub last_training : Option ℕ

unfoldable pub with_policy : Suite → TrainingPolicy → DatagramDictEncoder
with_policy suite policy = record {
  suite = suite;
  current = none;
  previous = none;
  pending = none;
  samples = [];
  policy = policy;
  last_training = none;
}

unfoldable pub dict_enabled : Suite → Bool
dict_enabled plain = false
dict_enabled zstd = false
dict_enabled zstd_dict = true

-- `samples.drain(..samples.len() / 2)`
unfoldable pub drop_older_half : List Bytes → List Bytes
drop_older_half samples = drop (length samples / 2) samples

-- The samples once the chunks of a batch are pushed and the buffer is bounded.
unfoldable pub collected : ℕ → List Bytes → List Bytes → List Bytes
unfolding drop_older_half
collected threshold samples chunks =
    let all = samples ++ chunks in
    if ltb (threshold * 4) (length all) then drop_older_half all else all

unfoldable pub sample_bytes : List Bytes → ℕ
sample_bytes [] = 0
sample_bytes (sample ∷ samples) = length sample + sample_bytes samples

unfoldable pub too_soon : ℕ → ℕ → Option ℕ → Bool
too_soon min_interval now none = false
too_soon min_interval now (some at) = ltb (now - at) min_interval

-- The test before a training; `samples` is the new buffer.
unfoldable pub is_deferred : DatagramDictEncoder → List Bytes → ℕ → Bool
unfolding sample_bytes too_soon
is_deferred e samples now =
    is_some e.pending
    || ltb (length samples) e.policy.chunks_threshold
    || ltb (sample_bytes samples) e.policy.min_sample_bytes
    || too_soon e.policy.min_interval now e.last_training

module _ (train : List Bytes → ℕ → Option Bytes) (dict_id : Bytes → Text) where
  -- The result of a training.
  unfoldable pub trained :
      DatagramDictEncoder
      → List Bytes
      → ℕ
      → Option Bytes
      → DatagramDictEncoder × Option TrainedOffer
  unfolding drop_older_half
  trained e samples now none =
      (record e { samples = drop_older_half samples; last_training = some now }, none)
  trained e samples now (some content) = (
    record e {
      samples = [];
      last_training = some now;
      pending = some (record { id = dict_id content; cdict = content });
    },
    some (record { id = dict_id content; content = content }),
  )

  unfoldable pub observe :
      DatagramDictEncoder → List Bytes → ℕ → DatagramDictEncoder × Option TrainedOffer
  unfolding dict_enabled collected is_deferred trained
  observe e chunks now =
      let samples = collected e.policy.chunks_threshold e.samples chunks in
      if not (dict_enabled e.suite)
      then (e, none)
      else if is_deferred e samples now
      then (record e { samples = samples }, none)
      else trained e samples now (train samples dict_size)

-- The pending dictionary becomes the current one when the client says that it is ready.
unfoldable pub activate : DatagramDictEncoder → Text → DatagramDictEncoder
unfolding Text-discrete
activate e id = elim e.pending [
  | none ↦ e
  | some dict ↦
      ite (Text-discrete dict.id id)
        (record e { pending = none; previous = e.current; current = some dict }) e
]

-- `none` on an error of the library. The compressor takes the dictionary, if there is one.
unfoldable pub encode :
    (Option Bytes → Bytes → Option Bytes) → DatagramDictEncoder → Bytes → Option Bytes
unfolding datagram_zstd
encode compress e chunk =
    if datagram_zstd e.suite
    then compress (elim e.current [ none ↦ none | some dict ↦ some (dict.cdict) ]) chunk
    else some chunk
