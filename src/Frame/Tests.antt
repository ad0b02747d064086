-- ===== src/Frame/Tests.antt =====
-- Runs of the framing of src/frame.rs, and its theorems at them.
use minecraft_team_viewer_ba.Frame.Chunks.{cut, joined, read_frames-cut}
use minecraft_team_viewer_ba.Frame.Scan.{split-complete}
use minecraft_team_viewer_ba.Frame.{
  drain, drain_all, encode_groups, encode_varint, finished, malformed, max_frame_header_len,
  max_frame_len, read_frames, read_from, scan_from, scan_length, split_frame_header, write_frame,
  written,
}
use minecraft_team_viewer_ba.Frame.Messages.{keep, read_frames-write_frames, write_frames}
use minecraft_team_viewer_ba.Prelude.{List, [], arith, refl, some, ℕ, ◌+◌, ◌<◌, ◌∷◌, ◌≡◌, ◌≤◌}

program : Unit {0}
unfolding split_frame_header scan_from scan_length encode_varint encode_groups write_frame
    write_frames drain drain_all read_from read_frames
program = tt

encode_varint-boundary : encode_varint 16384 ≡ some (128 ∷ 128 ∷ 1 ∷ [])
unfolding program
encode_varint-boundary = refl

split-overlong : split_frame_header (128 ∷ 128 ∷ 128 ∷ 128 ∷ 0 ∷ []) ≡ malformed
unfolding program
split-overlong = refl

two_frames : write_frames ((7 ∷ 8 ∷ []) ∷ (9 ∷ []) ∷ []) ≡ written (2 ∷ 7 ∷ 8 ∷ 1 ∷ 9 ∷ [])
unfolding program
two_frames = refl

abbrev pieces : List (ℕ × List ℕ)
pieces = (2, 7 ∷ []) ∷ (8, 1 ∷ []) ∷ (9, []) ∷ []

abbrev whole : List (ℕ × List ℕ)
whole = (2, 7 ∷ 8 ∷ 1 ∷ 9 ∷ []) ∷ []

read_frames-cut_example : read_frames keep [] (cut pieces) ≡ read_frames keep [] (cut whole)
read_frames-cut_example = read_frames-cut keep [] pieces whole refl

read_frames-write_frames_example :
    (bytes : List ℕ) × (write_frames ((7 ∷ 8 ∷ []) ∷ (9 ∷ []) ∷ []) ≡ written bytes)
    × ((parts : List (ℕ × List ℕ))
        → joined parts ≡ bytes
        → read_frames keep [] (cut parts) ≡ ((7 ∷ 8 ∷ []) ∷ (9 ∷ []) ∷ [], finished))
read_frames-write_frames_example =
    read_frames-write_frames ((7 ∷ 8 ∷ []) ∷ (9 ∷ []) ∷ []) (omega arith)

split-complete_example : (0 < 1) × (1 + 2 ≤ 5) × (2 ≤ max_frame_len) × (1 ≤ max_frame_header_len)
unfolding program
split-complete_example = split-complete (2 ∷ 7 ∷ 8 ∷ 1 ∷ 9 ∷ []) 1 2 refl
