-- ===== src/Frame/Scan.antt =====
-- `split_frame_header` of src/frame.rs only looks at the front of the buffer: more bytes behind it do
-- not change an answer.
use minecraft_team_viewer_ba.Frame.{
  FrameScan, complete, incomplete, max_frame_header_len, max_frame_len, scan_from, scan_length,
  split_frame_header,
}
use minecraft_team_viewer_ba.Prelude.{
  List, [], arith, length, length-append, ℕ, ◌%◌, ◌*◌, ◌++◌, ◌+◌, ◌<◌, ◌^◌, ◌∷◌, ◌≡◌, ◌≤◌,
}

-- An answer that has been given, other than to wait.
abbrev pub IsDecided : FrameScan → Type 0
IsDecided incomplete = ⊥
IsDecided _ = Unit {0}

scan_length-stable :
    (total more index value : ℕ)
    → IsDecided (scan_length total index value)
    → scan_length (total + more) index value ≡ scan_length total index value
unfolding scan_length
scan_length-stable total more index value h = ground arith

scan_from-stable :
    (total more index value : ℕ) (bytes tail : List ℕ)
    → IsDecided (scan_from total index value bytes)
    → scan_from (total + more) index value (bytes ++ tail) ≡ scan_from total index value bytes
unfolding scan_from
scan_from-stable total more index value [] tail h = absurd h
scan_from-stable total more index value (byte ∷ rest) tail h =
    let value' = value + byte % 128 * 2 ^ (7 * index) in
    ground (
      arith,
      scan_length-stable total more index value',
      scan_from-stable total more (index + 1) value' rest tail,
    )

pub split-stable :
    (buffer tail : List ℕ)
    → IsDecided (split_frame_header buffer)
    → split_frame_header (buffer ++ tail) ≡ split_frame_header buffer
unfolding split_frame_header
split-stable buffer tail h =
    rw (length-append buffer tail)
      (scan_from-stable (length buffer) (length tail) 0 0 buffer tail h)

-- A complete frame has a header and lies within the buffer.
scan_from-complete :
    (total index value : ℕ) (bytes : List ℕ) (header_len payload_len : ℕ)
    → scan_from total index value bytes ≡ complete header_len payload_len
    → (0 < header_len)
      × (header_len + payload_len ≤ total)
      × (payload_len ≤ max_frame_len)
      × (header_len ≤ max_frame_header_len)
unfolding scan_from
scan_from-complete total index value [] h p e = cc
scan_from-complete total index value (byte ∷ rest) h p e =
    ground
      (arith, scan_from-complete total (index + 1) (value + byte % 128 * 2 ^ (7 * index)) rest h p)

-- A frame that is reported complete lies within the buffer, has a header of one to four bytes and a
-- payload within the limit.
pub split-complete :
    (buffer : List ℕ) (header_len payload_len : ℕ)
    → split_frame_header buffer ≡ complete header_len payload_len
    → (0 < header_len)
      × (header_len + payload_len ≤ length buffer)
      × (payload_len ≤ max_frame_len)
      × (header_len ≤ max_frame_header_len)
unfolding split_frame_header
split-complete buffer h p e = scan_from-complete (length buffer) 0 0 buffer h p e
