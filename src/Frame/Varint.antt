-- ===== src/Frame/Varint.antt =====
-- `encode_varint` of src/frame.rs and the reading of what it writes by `split_frame_header`.
use mathlib.Core.Path.{ap₂}
use minecraft_team_viewer_ba.Frame.{
  complete, encode_groups, encode_varint, incomplete, max_frame_header_len, max_frame_len,
  scan_from, scan_length, split_frame_header,
}
use native.Mathlib.Numerals.{towards_suc}
use minecraft_team_viewer_ba.Prelude.{
  Bool-cases, List, Option-cases, [], ap, arith, false, if◌then◌else◌, inl, inr, leb, length,
  length-append, some, suc, true, zero, ℕ, ◌%◌, ◌*◌, ◌++◌, ◌+◌, ◌-◌, ◌/◌, ◌<◌, ◌==◌, ◌^◌, ◌∙◌, ◌∷◌,
  ◌≡◌, ◌≤◌, ◌⊎◌,
}

pow-next : (i : ℕ) → 2 ^ (7 * (i + 1)) ≡ 128 * 2 ^ (7 * i)
pow-next i = rw (seven i) (simp towards_suc (omega arith))
  where
    seven : (n : ℕ) → 7 * (n + 1) ≡ 7 * n + 7
    seven n = omega arith

pow-next_suc : (i : ℕ) → 2 ^ (7 * (suc i + 1)) ≡ 128 * 2 ^ (7 * (i + 1))
pow-next_suc i = ap (λ n. 2 ^ (7 * n)) same ∙ pow-next (i + 1)
  where
    same : suc i + 1 ≡ i + 1 + 1
    same = omega arith

-- The slots are enough for a value below `2 ^ (7 * slots)`.
encode_groups_total :
    (slots value : ℕ)
    → value < 2 ^ (7 * (slots + 1))
    → (bytes : List ℕ) × (encode_groups (suc slots) value ≡ some bytes)
unfolding encode_groups
encode_groups_total zero value h = elim (Bool-cases (value / 128 == 0)) [
  | inl e ↦ (value % 128 ∷ [], rw e)
  | inr e ↦ absurd (ground arith)
]
encode_groups_total (suc slots) value h = elim (Bool-cases (value / 128 == 0)) [
  | inl e ↦ (value % 128 ∷ [], rw e)
  | inr e ↦
      let (bytes, more) =
        encode_groups_total slots (value / 128) (omega (arith, pow-next_suc slots)) in
      ((value % 128 + 128) ∷ bytes, rw e (rw more))
]

module _ (index total acc value : ℕ) where
  abbrev scale : ℕ
  scale = 2 ^ (7 * index)

  split_value : acc + value % 128 * scale + value / 128 * (128 * scale) ≡ acc + value * scale
  split_value = omega (arith, ap (λ (t : ℕ). t * scale) parts)
    where
      parts : value ≡ value % 128 + 128 * (value / 128)
      parts = omega arith

  -- A last group: its high bit is clear.
  scan_last :
      (tail : List ℕ)
      → index < max_frame_header_len
      → value < 128
      → scan_from total index acc (value % 128 ∷ tail)
        ≡ scan_length total (index + 1 - 1) (acc + value * scale)
  unfolding scan_from
  scan_last tail room small = rw (leb_false room, top_clear, whole, one_back)
    where
      leb_false : index < 4 → leb 4 index ≡ false
      leb_false h = ground arith

      top_clear : (value % 128 / 128 % 2 == 0) ≡ true
      top_clear = ground arith

      whole : value % 128 % 128 ≡ value
      whole = omega arith

      one_back : index + 1 - 1 ≡ index
      one_back = omega arith

  -- Another group follows: its high bit is set.
  scan_more :
      (tail : List ℕ)
      → index < max_frame_header_len
      → scan_from total index acc ((value % 128 + 128) ∷ tail)
        ≡ scan_from total (index + 1) (acc + value % 128 * scale) tail
  unfolding scan_from
  scan_more tail room = rw (leb_false room, top_set, low)
    where
      leb_false : index < 4 → leb 4 index ≡ false
      leb_false h = ground arith

      top_set : ((value % 128 + 128) / 128 % 2 == 0) ≡ false
      top_set = ground arith

      low : (value % 128 + 128) % 128 ≡ value % 128
      low = omega arith

-- What one round of the loop wrote.
encode_groups_inv :
    (slots value : ℕ) (bytes : List ℕ)
    → encode_groups (suc slots) value ≡ some bytes
    → ((value < 128) × (bytes ≡ value % 128 ∷ []))
      ⊎ ((more : List ℕ) × (encode_groups slots (value / 128) ≡ some more)
          × (bytes ≡ (value % 128 + 128) ∷ more))
unfolding encode_groups
encode_groups_inv slots value bytes e = elim (Option-cases (encode_groups slots (value / 128))) [
  | inl stuck ↦ ground arith
  | inr (more, rest) ↦ elim (Bool-cases (value / 128 == 0)) [
    | inl last ↦ ground arith
    | inr further ↦ inr (more, rest, ground arith)
  ]
]

-- Scanning what the loop wrote adds the value at the loop's position.
pub scan_groups :
    (slots index total acc value : ℕ) (bytes tail : List ℕ)
    → index + slots ≤ max_frame_header_len
    → encode_groups slots value ≡ some bytes
    → (scan_from total index acc (bytes ++ tail)
        ≡ scan_length total (index + length bytes - 1) (acc + value * 2 ^ (7 * index)))
      × (0 < length bytes)
      × (length bytes ≤ slots)
scan_groups zero index total acc value bytes tail room e = unfold encode_groups in cc
scan_groups (suc slots) index total acc value bytes tail room e =
    elim (encode_groups_inv slots value bytes e) [
      | inl (small, same) ↦
          rw same
            (scan_last index total acc value tail (omega arith) small, omega arith, omega arith)
      | inr (more, rest, same) ↦
          let acc' = acc + value % 128 * 2 ^ (7 * index) in
          let (scanned, nonempty, short) =
            scan_groups slots (index + 1) total acc' (value / 128) more tail (omega arith) rest in
          rw same (
            scan_more index total acc value (more ++ tail) (omega arith)
                ∙ scanned
                ∙ ap₂ (scan_length total) (positions index (length more)) (
                    ap (λ p. acc' + value / 128 * p) (pow-next index)
                    ∙ split_value index total acc value),
            omega arith,
            omega (arith, short),
          )
    ]
  where
    positions : (i n : ℕ) → i + 1 + n - 1 ≡ i + suc n - 1
    positions i n = omega arith

-- A length within the limit has a header, of one to four bytes.
pub encode_varint_total :
    (value : ℕ) → value ≤ max_frame_len → (header : List ℕ) × (encode_varint value ≡ some header)
unfolding encode_varint
encode_varint_total value h = encode_groups_total 3 value (omega arith)

pub encode_varint-length :
    (value : ℕ) (header : List ℕ)
    → encode_varint value ≡ some header
    → (0 < length header) × (length header ≤ max_frame_header_len)
unfolding encode_varint
encode_varint-length value header e =
    let (scanned, nonempty, short) =
      scan_groups max_frame_header_len 0 0 0 value header [] (omega arith) e in
    (nonempty, short)

scan_length-answer :
    (n m value : ℕ)
    → 0 < n
    → value ≤ max_frame_len
    → scan_length (n + m) (0 + n - 1) (0 + value * 1)
      ≡ (if leb value m then complete n value else incomplete)
unfolding scan_length
scan_length-answer n m value nonempty small = rw (last, plain) (ground arith)
  where
    last : 0 + n - 1 + 1 ≡ n
    last = omega arith

    plain : 0 + value * 1 ≡ value
    plain = omega arith

-- The scan of a header and what follows it: the frame is complete once its payload is there.
pub split-encode :
    (value : ℕ) (header tail : List ℕ)
    → value ≤ max_frame_len
    → encode_varint value ≡ some header
    → split_frame_header (header ++ tail)
      ≡ (if leb value (length tail) then complete (length header) value else incomplete)
unfolding split_frame_header encode_varint
split-encode value header tail small e =
    let (scanned, nonempty, short) =
      scan_groups max_frame_header_len 0 (length (header ++ tail)) 0 value header tail (omega arith)
        e in
    scanned
    ∙ ap (λ t. scan_length t (0 + length header - 1) (0 + value * 1)) (length-append header tail)
    ∙ scan_length-answer (length header) (length tail) value nonempty small
