-- ===== src/Frame/Messages.antt =====
-- A round trip over src/frame.rs: what `write_frame` puts on a stream, `read_frames` hands to its
-- callback, however the bytes are cut into reads.
use minecraft_team_viewer_ba.Frame.Chunks.{
  cut, drain-complete, drain_fuel, joined, read_frames-joined,
}
use mathlib.Core.List.{append_assoc, append-nil}
use mathlib.Core.Path.{ap₂}
use minecraft_team_viewer_ba.Frame.Varint.{encode_varint-length, encode_varint_total, split-encode}
use minecraft_team_viewer_ba.Frame.{
  Written, complete, drain, drain_all, encode_varint, finished, max_frame_len, panics, read_frames,
  read_from, split_frame_header, too_long, waits, write_frame, written,
}
use minecraft_team_viewer_ba.Prelude.{
  All, Bool, List, [], ap, arith, drop, drop_all, false, length, length-append, ltb, refl, some,
  suc, sym, take, take_all, true, ℕ, ◌++◌, ◌+◌, ◌∙◌, ◌∷◌, ◌≡◌, ◌≤◌,
}

-- The frames of several payloads, one after the other.
unfoldable pub write_frames : List (List ℕ) → Written
write_frames [] = written []
write_frames (payload ∷ rest) = elim (write_frame payload) [
  | written bytes ↦ elim (write_frames rest) [
    | written more ↦ written (bytes ++ more)
    | too_long ↦ too_long
    | panics ↦ panics
  ]
  | too_long ↦ too_long
  | panics ↦ panics
]

-- A callback that keeps every frame and goes on.
abbrev pub keep : List (List ℕ) → List ℕ → List (List ℕ) × Bool
keep got frame = (got ++ frame ∷ [], true)

abbrev pub IsShort : List ℕ → Type 0
IsShort payload = length payload ≤ max_frame_len

-- A payload within the limit is written, behind its header.
write_frame-written :
    (payload : List ℕ)
    → IsShort payload
    → (header : List ℕ) × (encode_varint (length payload) ≡ some header)
      × (write_frame payload ≡ written (header ++ payload))
unfolding write_frame
write_frame-written payload h =
    let (header, e) = encode_varint_total (length payload) h in
    (header, e, rw (within (length payload) h, e))
  where
    within : (n : ℕ) → n ≤ max_frame_len → ltb max_frame_len n ≡ false
    within n h = ground arith

-- A frame with its payload behind the header is complete.
split-frame :
    (header payload tail : List ℕ)
    → IsShort payload
    → encode_varint (length payload) ≡ some header
    → split_frame_header ((header ++ payload) ++ tail) ≡ complete (length header) (length payload)
split-frame header payload tail short e =
    rw
      (
        append_assoc header payload tail,
        split-encode (length payload) header (payload ++ tail) short e,
      )
      (ground (arith, length-append {0} payload tail))

-- Draining takes the first frame off the buffer and hands it over.
drain_all-frame :
    (got : List (List ℕ)) (header payload tail : List ℕ)
    → IsShort payload
    → encode_varint (length payload) ≡ some header
    → drain_all keep got ((header ++ payload) ++ tail) ≡ drain_all keep (got ++ payload ∷ []) tail
unfolding drain_all
drain_all-frame got header payload tail short e =
    let buffer = (header ++ payload) ++ tail in
    drain-complete keep (length buffer) got buffer (length header) (length payload)
      (split-frame header payload tail short e)
    ∙ ap₂ (λ frame rest. drain keep (length buffer) (got ++ frame ∷ []) rest) frame_is rest_is
    ∙ drain_fuel keep (length buffer) (suc (length tail)) (got ++ payload ∷ []) tail
        (omega (
          arith,
          length-append {0} (header ++ payload) tail,
          length-append {0} header payload,
          encode_varint-length (length payload) header e,
        ))
        (omega arith)
  where
    frame_is : take (length payload) (drop (length header) ((header ++ payload) ++ tail)) ≡ payload
    frame_is =
        ap (λ b. take (length payload) (drop (length header) b)) (append_assoc header payload tail)
        ∙ ap (take (length payload)) (drop_all header (payload ++ tail))
        ∙ take_all payload tail

    rest_is : drop (length header + length payload) ((header ++ payload) ++ tail) ≡ tail
    rest_is =
        ap (λ n. drop n ((header ++ payload) ++ tail)) (sym (length-append header payload))
        ∙ drop_all (header ++ payload) tail

drain_all-nil : (got : List (List ℕ)) → drain_all keep got [] ≡ waits got []
unfolding drain_all drain split_frame_header
drain_all-nil got = refl

-- All frames are written, and draining their bytes hands over all payloads in order.
frames_drained :
    (payloads : List (List ℕ))
    → All IsShort payloads
    → (bytes : List ℕ) × (write_frames payloads ≡ written bytes)
      × ((got : List (List ℕ)) → drain_all keep got bytes ≡ waits (got ++ payloads) [])
unfolding write_frames
frames_drained [] h =
    ([], refl, λ got. drain_all-nil got ∙ ap (λ g. waits g []) (sym (append-nil got)))
frames_drained (payload ∷ rest) (short, shorts) =
    let (header, e, first) = write_frame-written payload short in
    let (more, es, drained) = frames_drained rest shorts in
    (
      (header ++ payload) ++ more,
      rw (first, write_frames) (rw es),
      λ got.
          drain_all-frame got header payload more short e
          ∙ drained (got ++ payload ∷ [])
          ∙ ap (λ g. waits g []) (append_assoc got (payload ∷ []) rest),
    )

read_from-drained :
    (got : List (List ℕ)) (bytes : List ℕ)
    → drain_all keep [] bytes ≡ waits got []
    → read_from keep [] bytes [] ≡ (got, finished)
unfolding read_from
read_from-drained got bytes e = rw (e, read_from)

-- Payloads within the limit are all written, and a reader that keeps each frame has exactly them, in
-- order, when the stream ends, for every way to cut the bytes into reads that are not empty.
pub read_frames-write_frames :
    (payloads : List (List ℕ))
    → All IsShort payloads
    → (bytes : List ℕ) × (write_frames payloads ≡ written bytes)
      × ((pieces : List (ℕ × List ℕ))
          → joined pieces ≡ bytes
          → read_frames keep [] (cut pieces) ≡ (payloads, finished))
read_frames-write_frames payloads h =
    let (bytes, e, drained) = frames_drained payloads h in
    (
      bytes,
      e,
      λ pieces same.
          read_frames-joined keep [] pieces
          ∙ ap (λ b. read_from keep [] b []) same
          ∙ read_from-drained payloads bytes (drained []),
    )
