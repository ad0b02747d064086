-- ===== src/Compat/Version.antt =====
-- `ProtocolVersion` of src/protocol_compat.rs with its derived order and its parser.
use minecraft_team_viewer_ba.Prelude.Text.{Text, nat_key, text_key, trim}
use minecraft_team_viewer_ba.Prelude.{
  Bool, List, Option, [], false, if◌then◌else◌, leb, ltb, none, not, some, true, ℕ, ◌&&◌, ◌*◌, ◌+◌,
  ◌-◌, ◌==◌, ◌∷◌,
}

pub record ProtocolVersion : Type 0 where
  pub major : ℕ
  pub minor : ℕ
  pub patch : ℕ

abbrev pub version : ℕ → ℕ → ℕ → ProtocolVersion
version major minor patch = record { major = major; minor = minor; patch = patch }

abbrev pub current_protocol_version : ProtocolVersion
current_protocol_version = version 0 9 0

abbrev pub minimum_protocol_version : ProtocolVersion
minimum_protocol_version = version 0 6 1

-- The derived order: field by field.
unfoldable pub version_ltb : ProtocolVersion → ProtocolVersion → Bool
version_ltb a b =
    if ltb a.major b.major
    then true
    else if ltb b.major a.major
    then false
    else if ltb a.minor b.minor
    then true
    else if ltb b.minor a.minor
    then false
    else ltb a.patch b.patch

abbrev pub version_leb : ProtocolVersion → ProtocolVersion → Bool
version_leb a b = not (version_ltb b a)

-- `a.min(b)`
unfoldable pub version_min : ProtocolVersion → ProtocolVersion → ProtocolVersion
version_min a b = if version_ltb b a then b else a

abbrev pub u32_max : ℕ
u32_max = 0xffffffff

unfoldable pub is_ascii_digit : ℕ → Bool
is_ascii_digit c = leb b'0' c && leb c b'9'

unfoldable pub all_digits : Text → Bool
unfolding is_ascii_digit
all_digits [] = true
all_digits (c ∷ cs) = is_ascii_digit c && all_digits cs

-- The value of decimal digits, on top of what was read before them.
unfoldable pub decimal : ℕ → Text → ℕ
decimal acc [] = acc
decimal acc (c ∷ cs) = decimal (acc * 10 + (c - b'0')) cs

-- `part.parse::<u32>()` on digits: it fails when the value does not fit.
unfoldable pub parse_u32 : Text → Option ℕ
unfolding decimal
parse_u32 digits = if leb (decimal 0 digits) u32_max then some (decimal 0 digits) else none

unfoldable pub parse_part : Text → Option ℕ
unfolding all_digits parse_u32
parse_part [] = none
parse_part (c ∷ cs) = if all_digits (c ∷ cs) then parse_u32 (c ∷ cs) else none

unfoldable pub onto_first : ℕ → List Text → List Text
onto_first c [] = (c ∷ []) ∷ []
onto_first c (part ∷ parts) = (c ∷ part) ∷ parts

-- `split('.')`: there is always a first part.
unfoldable pub split_dots : Text → List Text
unfolding onto_first
split_dots [] = [] ∷ []
split_dots (c ∷ cs) = if c == b'.' then [] ∷ split_dots cs else onto_first c (split_dots cs)

infixl 5 ◌>>=◌
abbrev ◌>>=◌ : {A B : Type 0} → Option A → (A → Option B) → Option B
none >>= f = none
some a >>= f = f a

-- The parts in order; a missing part and a fourth one are errors.
unfoldable pub from_parts : List Text → Option ProtocolVersion
unfolding parse_part
from_parts (first ∷ second ∷ third ∷ []) = do
  major ← parse_part first
  minor ← parse_part second
  patch ← parse_part third
  some (version major minor patch)
from_parts _ = none

unfoldable pub from_str : Text → Option ProtocolVersion
unfolding from_parts split_dots trim
from_str value = from_parts (split_dots (trim value))
