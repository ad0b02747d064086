-- ===== src/Prelude/Loop.antt =====
-- A `while` loop on fuel, and its rule: with a measure below the fuel the loop ends by its test.
use minecraft_team_viewer_ba.Prelude.{
  Bool, Bool-cases, arith, false, inl, inr, suc, true, zero, ℕ, ◌<◌, ◌≡◌,
}

unfoldable pub while : {S : Type 0} (fuel : ℕ) (go_on : S → Bool) (turn : S → S) → S → S
while zero go_on turn start = start
while (suc left) go_on turn start = elim (go_on start) [
  | false ↦ start
  | true ↦ while left go_on turn (turn start)
]

module _ {S : Type 0} (P : S → Type 0) (measure : S → ℕ) (go_on : S → Bool) (turn : S → S)
    (keep : (s : S) → P s → go_on s ≡ true → P (turn s) × (measure (turn s) < measure s)) where
  pub while_rule :
      (left : ℕ) (s : S)
      → measure s < left
      → P s
      → P (while left go_on turn s) × (go_on (while left go_on turn s) ≡ false)
  unfolding while
  while_rule zero s m h = absurd (omega arith)
  while_rule (suc left) s m h = elim (Bool-cases (go_on s)) [
    | inl e ↦ let next = keep s h e in rw (e, while) (while_rule left (turn s) (omega arith) next.0)
    | inr e ↦ rw (e, while) (h, e)
  ]

-- What the turn keeps, the loop keeps.
pub while_keeps :
    {S : Type 0} (P : S → Type 0) (go_on : S → Bool) (turn : S → S)
    → ((s : S) → P s → P (turn s))
    → (left : ℕ) (s : S) → P s
    → P (while left go_on turn s)
unfolding while
while_keeps P go_on turn keep zero s h = h
while_keeps P go_on turn keep (suc left) s h = elim (Bool-cases (go_on s)) [
  | inl e ↦ rw (e, while) (while_keeps P go_on turn keep left (turn s) (keep s h))
  | inr e ↦ rw (e, while) h
]
