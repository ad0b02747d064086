-- ===== src/Objects/Fields.antt =====
-- The assignments to single fields that the functions on objects in src/relay.rs repeat. A field that
-- holds an `f64` holds its 64 bits.
use minecraft_team_viewer_ba.Prelude.Text.{Text, Text-discrete, missing_names, nat_key, text_key}
use minecraft_team_viewer_ba.Prelude.{
  Bool, List, Option, Option-cases, [], arith, false, inl, inr, is_some, ite, none, not, refl, some,
  subst, sym, true, ℕ, ◌&&◌, ◌||◌, ◌∷◌, ◌≡◌,
}

abbrev pub F64 : Type 0
F64 = ℕ

abbrev pub f64_zero : F64
f64_zero = 0

abbrev pub f64_20 : F64
f64_20 = 0x4034000000000000

abbrev pub f64_0_6 : F64
f64_0_6 = 0x3fe3333333333333

abbrev pub f64_1_8 : F64
f64_1_8 = 0x3ffccccccccccccd

-- `if let Some(v) = delta { field = v; }` for a field that is always there.
unfoldable pub assigned : {A : Type 0} → Option A → A → A
assigned none field = field
assigned (some v) field = v

-- `if let Some(v) = delta { field = Some(v); }`
unfoldable pub assigned_some : {A : Type 0} → Option A → Option A → Option A
assigned_some none field = field
assigned_some (some v) field = some v

-- `field.get_or_insert(default)`
unfoldable pub or_default : {A : Type 0} → Option A → A → Option A
or_default none default = some default
or_default (some v) default = some v

-- The arm of a `match` on a field's name that sets the field to `None`; each arm sets another field.
unfoldable pub cleared_by : {A : Type 0} → Text → Text → Option A → Option A
unfolding Text-discrete
cleared_by name field value = ite (Text-discrete name field) none value

-- `for field in fields { match field { .. } }`
unfoldable pub clear_each : {V : Type 0} → (Text → V → V) → List Text → V → V
clear_each clear [] value = value
clear_each clear (field ∷ fields) value = clear_each clear fields (clear field value)

-- The macro `cleared!`: a field that was there and is gone.
unfoldable pub is_cleared : {A : Type 0} → Option A → Option A → Bool
is_cleared old new = is_some old && not (is_some new)

-- The test that stands beside a name.
unfoldable pub flagged : Text → List (Text × Bool) → Bool
unfolding Text-discrete
flagged name [] = false
flagged name ((field, flag) ∷ rest) =
    ite (Text-discrete field name) (flag || flagged name rest) (flagged name rest)

module _ {V A : Type 0} (clear : Text → V → V) (get : V → Option A) (name : Text)
    (hits : (v : V) → get (clear name v) ≡ none)
    (stays : (field : Text) (v : V) → get v ≡ none → get (clear field v) ≡ none) where
  clear_each-none :
      (fields : List Text) (v : V) → get v ≡ none → get (clear_each clear fields v) ≡ none
  unfolding clear_each
  clear_each-none [] v h = h
  clear_each-none (field ∷ fields) v h = clear_each-none fields (clear field v) (stays field v h)

  clear_each-flagged :
      (pairs : List (Text × Bool)) (v : V)
      → flagged name pairs ≡ true
      → get (clear_each clear (missing_names pairs) v) ≡ none
  unfolding flagged missing_names clear_each
  clear_each-flagged [] v h = absurd (cc h)
  clear_each-flagged ((field, false) ∷ rest) v h =
      clear_each-flagged rest v (without (Text-discrete field name) h)
    where
      without :
          (d : Dec (field ≡ name))
          → ite d (false || flagged name rest) (flagged name rest) ≡ true
          → flagged name rest ≡ true
      without (yes same) e = e
      without (no other) e = e
  clear_each-flagged ((field, true) ∷ rest) v h = elim (Text-discrete field name) [
    | yes same ↦
        clear_each-none (missing_names rest) (clear field v)
          (subst (λ f. get (clear f v) ≡ none) (sym same) (hits v))
    | no other ↦ clear_each-flagged rest (clear field v) (ground arith)
  ]

  -- A cleared field that takes what the new object has is the new object's field.
  pub optional_restored :
      (pairs : List (Text × Bool)) (old : V) (new : Option A)
      → flagged name pairs ≡ is_cleared (get old) new || false
      → assigned_some new (get (clear_each clear (missing_names pairs) old)) ≡ new
  unfolding assigned_some is_cleared
  optional_restored pairs old (some v) h = refl
  optional_restored pairs old none h = elim (Option-cases (get old)) [
    | inl e ↦ clear_each-none (missing_names pairs) old e
    | inr (v, e) ↦ clear_each-flagged pairs old (ground arith)
  ]

pub cleared_by-none :
    {A : Type 0} (name field : Text) (value : Option A)
    → value ≡ none
    → cleared_by name field value ≡ none
unfolding cleared_by
cleared_by-none {A} name field value h = either (Text-discrete name field)
  where
    either : (d : Dec (name ≡ field)) → ite d none value ≡ none
    either (yes same) = refl
    either (no other) = h
