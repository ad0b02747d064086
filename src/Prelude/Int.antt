-- ===== src/Prelude/Int.antt =====
-- Signed integers over the native numbers; `negsuc n` is -(n + 1).
use minecraft_team_viewer_ba.Prelude.{
  Bool, if◌then◌else◌, leb, ltb, suc, ℕ, ℕ_discrete, ◌%◌, ◌+◌, ◌-◌, ◌/◌,
}

pub data ℤ : Type 0 where
  pos : ℕ → ℤ
  negsuc : ℕ → ℤ

abbrev pub pos_part : ℤ → ℕ
pos_part (pos n) = n
pos_part (negsuc n) = 0

abbrev pub neg_part : ℤ → ℕ
neg_part (pos n) = 0
neg_part (negsuc n) = suc n

abbrev pub ltb_ℤ : ℤ → ℤ → Bool
ltb_ℤ a b = ltb (pos_part a + neg_part b) (pos_part b + neg_part a)

unfoldable pub ℤ-discrete : Discrete ℤ
ℤ-discrete = hlevel ℕ_discrete

-- The integer `a - b`.
abbrev pub difference : ℕ → ℕ → ℤ
difference a b = if leb b a then pos (a - b) else negsuc (b - a - 1)

infixl 65 ◌+ℤ◌
abbrev pub ◌+ℤ◌ : ℤ → ℤ → ℤ
a +ℤ b = difference (pos_part a + pos_part b) (neg_part a + neg_part b)

abbrev pub opposite : ℤ → ℤ
opposite a = difference (neg_part a) (pos_part a)

-- The residue of an integer in two's complement, where `modulus` is the number of values.
unfoldable pub wrap_signed : ℕ → ℤ → ℤ
wrap_signed modulus a =
    let residue = (pos_part a % modulus + modulus - neg_part a % modulus) % modulus in
    if ltb residue (modulus / 2) then pos residue else difference residue modulus

-- The subtraction of a signed type in a release build, which wraps around.
abbrev pub wrapping_sub : ℕ → ℤ → ℤ → ℤ
wrapping_sub modulus a b = wrap_signed modulus (a +ℤ opposite b)

-- `abs`, which leaves the least value as it is.
abbrev pub wrapping_abs : ℕ → ℤ → ℤ
wrapping_abs modulus a = if ltb_ℤ a (pos 0) then wrap_signed modulus (opposite a) else a
