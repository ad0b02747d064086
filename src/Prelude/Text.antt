-- ===== src/Prelude/Text.antt =====
-- Text as the list of its code points, which compare as their UTF-8 bytes do, and the whitespace
-- trim of Rust's standard library (the code points with the Unicode property White_Space).
use Prim.Native.Char.{code}
use Prim.Native.String.{String}
use mathlib.Core.List.{reverse}
use minecraft_team_viewer_ba.Prelude.{
  Bool, List, [], false, if◌then◌else◌, leb, ltb, refl, true, ℕ, ℕ_discrete, ◌&&◌, ◌==◌, ◌||◌, ◌∷◌,
  ◌≡◌,
}
use minecraft_team_viewer_ba.Prelude.Map.{Key}

abbrev pub Text : Type 0
Text = List ℕ

-- The code points of a literal.
abbrev pub codes : String → Text
codes String.[] = []
codes (String.◌∷◌ c s) = code c ∷ codes s

unfoldable pub Text-discrete : Discrete Text
unfolding ℕ_discrete
Text-discrete = hlevel ℕ_discrete

unfoldable pub text_ltb : Text → Text → Bool
text_ltb [] [] = false
text_ltb [] (y ∷ ys) = true
text_ltb (x ∷ xs) [] = false
text_ltb (x ∷ xs) (y ∷ ys) =
    let rest = text_ltb xs ys in if ltb x y then true else if ltb y x then false else rest

instance abbrev pub text_key : Key Text
text_key = record { eq = Text-discrete; ltb = text_ltb }

instance abbrev pub nat_key : Key ℕ
nat_key = record { eq = ℕ_discrete; ltb = λ a b. ltb a b }

unfoldable pub is_whitespace : ℕ → Bool
is_whitespace c =
    (leb 9 c && leb c 13)
    || c == 32
    || c == 0x85
    || c == 0xa0
    || c == 0x1680
    || (leb 0x2000 c && leb c 0x200a)
    || c == 0x2028
    || c == 0x2029
    || c == 0x202f
    || c == 0x205f
    || c == 0x3000

unfoldable pub trim_start : Text → Text
unfolding is_whitespace
trim_start [] = []
trim_start (c ∷ cs) = if is_whitespace c then trim_start cs else c ∷ cs

unfoldable pub trim : Text → Text
unfolding trim_start
trim t = reverse (trim_start (reverse (trim_start t)))

trim_blanks : trim (codes "  a b ") ≡ codes "a b"
unfolding trim
trim_blanks = refl

-- The names of the fields whose test holds.
unfoldable pub missing_names : List (Text × Bool) → List Text
missing_names [] = []
missing_names ((field, missing) ∷ rest) =
    if missing then field ∷ missing_names rest else missing_names rest
