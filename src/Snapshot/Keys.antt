-- ===== src/Snapshot/Keys.antt =====
-- The text keys of battle chunks in src/relay.rs: `battle_key`, `battle_ref_key`, `battle_entry_key` and
-- `parse_battle_key`, with the decimal text of an `i32` and its parser.
use minecraft_team_viewer_ba.Battle.Update.{is_empty}
use minecraft_team_viewer_ba.Compat.Version.{all_digits, decimal}
use minecraft_team_viewer_ba.Battle.Types.{BattleChunkEntry, BattleChunkRef, battle_key_order}
use minecraft_team_viewer_ba.Prelude.Text.{Text, nat_key, text_key, trim}
use minecraft_team_viewer_ba.Prelude.{
  Option, [], if◌then◌else◌, leb, ltb, map_option, none, some, suc, zero, ℕ, ◌%◌, ◌&&◌, ◌++◌, ◌+◌,
  ◌/◌, ◌==◌, ◌∷◌,
}
use minecraft_team_viewer_ba.Prelude.Int.{negsuc, pos, ℤ}

-- The fuel bounds the digits, of which a number has no more than its value and one.
unfoldable pub show_digits : ℕ → ℕ → Text
show_digits zero n = []
show_digits (suc fuel) n =
    let front = show_digits fuel (n / 10) in
    if ltb n 10 then (b'0' + n) ∷ [] else front ++ (b'0' + n % 10) ∷ []

unfoldable pub show_nat : ℕ → Text
unfolding show_digits
show_nat n = show_digits (suc n) n

unfoldable pub show_int : ℤ → Text
unfolding show_nat
show_int (pos n) = show_nat n
show_int (negsuc n) = b'-' ∷ show_nat (suc n)

-- Digits with a value up to a bound.
unfoldable pub parse_digits : ℕ → Text → Option ℕ
parse_digits bound [] = none
parse_digits bound (c ∷ cs) =
    if all_digits (c ∷ cs) && leb (decimal 0 (c ∷ cs)) bound
    then some (decimal 0 (c ∷ cs))
    else none

abbrev pub negated : ℕ → ℤ
negated zero = pos 0
negated (suc n) = negsuc n

-- `parse::<i32>()`
unfoldable pub parse_i32 : Text → Option ℤ
unfolding parse_digits
parse_i32 [] = none
parse_i32 (c ∷ cs) =
    if c == b'-'
    then map_option negated (parse_digits 2147483648 cs)
    else if c == b'+'
    then map_option pos (parse_digits 2147483647 cs)
    else map_option pos (parse_digits 2147483647 (c ∷ cs))

unfoldable pub battle_key : Text → ℤ → ℤ → Text
unfolding show_int
battle_key dimension chunk_x chunk_z =
    dimension ++ (b'|' ∷ (show_int chunk_x ++ (b'|' ∷ show_int chunk_z)))

unfoldable pub battle_ref_key : BattleChunkRef → Option Text
unfolding battle_key
battle_ref_key reference = elim reference.coord [
  | none ↦ none
  | some coord ↦
      if is_empty (trim reference.dimension)
      then none
      else some (battle_key (trim reference.dimension) coord.chunk_x coord.chunk_z)
]

unfoldable pub battle_entry_key : BattleChunkEntry → Option Text
unfolding battle_ref_key
battle_entry_key entry = elim entry.reference [
  | none ↦ none
  | some reference ↦ battle_ref_key reference
]

-- The text before the last `|` and the text behind it.
unfoldable pub split_last : Text → Option (Text × Text)
split_last [] = none
split_last (c ∷ cs) = elim (split_last cs) [
  | some (before, behind) ↦ some (c ∷ before, behind)
  | none ↦ if c == b'|' then some ([], cs) else none
]

-- `rsplitn(3, '|')` and the parsers of its parts.
unfoldable pub parse_battle_key : Text → Option BattleChunkRef
unfolding split_last parse_i32
parse_battle_key key = elim (split_last key) [
  | none ↦ none
  | some (front, z) ↦ elim (parse_i32 z) [
    | none ↦ none
    | some chunk_z ↦ elim (split_last front) [
      | none ↦ none
      | some (dimension, x) ↦ elim (parse_i32 x) [
        | none ↦ none
        | some chunk_x ↦ some (record {
          dimension = dimension;
          coord = some (record { chunk_x = chunk_x; chunk_z = chunk_z });
        })
      ]
    ]
  ]
]
