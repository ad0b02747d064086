-- ===== src/Frame.antt =====
-- The stream framing of src/frame.rs: a LEB128 length of at most four bytes, then the payload. A byte
-- is a number below 256; `|` joins groups of bits that do not overlap, so it is written `+`.
pub mod Scan
pub mod Varint
pub mod Chunks
pub mod Messages
pub mod Tests
use minecraft_team_viewer_ba.Prelude.{
  Bool, List, Option, [], drop, if◌then◌else◌, leb, length, ltb, none, some, suc, take, zero, ℕ,
  ◌%◌, ◌*◌, ◌++◌, ◌+◌, ◌/◌, ◌==◌, ◌^◌, ◌∷◌,
}

abbrev pub max_frame_len : ℕ
max_frame_len = 8388608

abbrev pub max_frame_header_len : ℕ
max_frame_header_len = 4

pub data FrameScan : Type 0 where
  complete : (header_len payload_len : ℕ) → FrameScan
  incomplete : FrameScan
  malformed : FrameScan

-- A length header ends at `byte`: the scan of a buffer of `total` bytes.
unfoldable pub scan_length : ℕ → ℕ → ℕ → FrameScan
scan_length total index value =
    if ltb max_frame_len value
    then malformed
    else if leb (index + 1 + value) total
    then complete (index + 1) value
    else incomplete

-- The `for` loop of `split_frame_header`; `byte & 0x7f` is `byte % 128`, and `byte & 0x80 == 0` says
-- that the byte is below 128.
unfoldable pub scan_from : ℕ → ℕ → ℕ → List ℕ → FrameScan
unfolding scan_length
scan_from total index value [] = incomplete
scan_from total index value (byte ∷ rest) =
    let value' = value + byte % 128 * 2 ^ (7 * index) in
    let more = scan_from total (index + 1) value' rest in
    if leb max_frame_header_len index
    then malformed
    else if byte / 128 % 2 == 0
    then scan_length total index value'
    else more

unfoldable pub split_frame_header : List ℕ → FrameScan
unfolding scan_from
split_frame_header buffer = scan_from (length buffer) 0 0 buffer

-- The `for` loop of `encode_varint` over the slots left; `none` is the `unreachable!` after it.
unfoldable pub encode_groups : ℕ → ℕ → Option (List ℕ)
encode_groups zero rest = none
encode_groups (suc slots) rest =
    let more = encode_groups slots (rest / 128) in
    if rest / 128 == 0
    then some (rest % 128 ∷ [])
    else elim more [ none ↦ none | some bytes ↦ some ((rest % 128 + 128) ∷ bytes) ]

unfoldable pub encode_varint : ℕ → Option (List ℕ)
unfolding encode_groups
encode_varint value = encode_groups max_frame_header_len value

pub data Written : Type 0 where
  written : List ℕ → Written
  too_long : Written
  panics : Written

-- `write_frame`, with the bytes that it puts on a stream that takes them.
unfoldable pub write_frame : List ℕ → Written
unfolding encode_varint
write_frame payload =
    if ltb max_frame_len (length payload) then too_long else elim (encode_varint (length payload)) [
      | none ↦ panics
      | some header ↦ written (header ++ payload)
    ]

-- What one `read` of the stream gives: bytes (none at the end of the stream), or an error.
pub data Read : Type 0 where
  chunk : List ℕ → Read
  io_error : Read

pub data Outcome : Type 0 where
  finished failed : Outcome

-- The buffer once no complete frame is left at its front, or an end of the loop before that.
pub data Drained (S : Type 0) : Type 0 where
  halts : S → Drained S
  breaks : S → Drained S
  waits : S → List ℕ → Drained S

-- The callback takes the caller's state and says whether to go on.
module _ {S : Type 0} (on_frame : S → List ℕ → S × Bool) where
  -- The rounds of `read_frames` up to the next `read`. A frame has a header, so the length of the
  -- buffer bounds the rounds.
  unfoldable pub drain : ℕ → S → List ℕ → Drained S
  drain zero s buffer = waits s buffer
  drain (suc fuel) s buffer = elim (split_frame_header buffer) [
    | complete header_len payload_len ↦
        let (s', go_on) = on_frame s (take payload_len (drop header_len buffer)) in
        let rest = drain fuel s' (drop (header_len + payload_len) buffer) in
        if go_on then rest else halts s'
    | incomplete ↦ waits s buffer
    | malformed ↦ breaks s
  ]

  unfoldable pub drain_all : S → List ℕ → Drained S
  drain_all s buffer = drain (suc (length buffer)) s buffer

  -- `read_frames` on a buffer and the results of the reads to come; after the last, the stream is at
  -- its end.
  unfoldable pub read_from : S → List ℕ → List Read → S × Outcome
  read_from s buffer [] = elim (drain_all s buffer) [
    | halts s' ↦ (s', finished)
    | breaks s' ↦ (s', failed)
    | waits s' rest ↦ (s', finished)
  ]
  read_from s buffer (read ∷ reads) = elim (drain_all s buffer) [
    | halts s' ↦ (s', finished)
    | breaks s' ↦ (s', failed)
    | waits s' rest ↦ elim read [
      | chunk [] ↦ (s', finished)
      | chunk (byte ∷ bytes) ↦ read_from s' (rest ++ byte ∷ bytes) reads
      | io_error ↦ (s', failed)
    ]
  ]

  unfoldable pub read_frames : S → List Read → S × Outcome
  read_frames s reads = read_from s [] reads
