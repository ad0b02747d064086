-- ===== src/Prelude/Map.antt =====
-- Maps and sets in key order. A `BTreeMap` iterates in this order; for a `HashMap`, whose order is
-- unspecified, it is one of the orders that an iteration may take.
use minecraft_team_viewer_ba.Prelude.{
  Bool, List, Option, [], arith, if◌then◌else◌, inl, inr, is_some, ite, length, none, refl, some,
  ◌<◌, ◌∷◌, ◌≡◌, ◌≢◌, ◌≤◌, ◌⊎◌,
}

-- A type of keys: equality and the derived order.
pub record Key (K : Type 0) : Type 0 where
  pub eq : Discrete K
  pub ltb : K → K → Bool

abbrev pub Map : Type 0 → Type 0 → Type 0
Map K V = List (K × V)

abbrev pub Set : Type 0 → Type 0
Set K = Map K (Unit {0})

module _ {K V : Type 0} ⦃key : Key K⦄ where
  unfoldable pub lookup : K → Map K V → Option V
  lookup j [] = none
  lookup j ((i, w) ∷ m) = ite (key.eq i j) (some w) (lookup j m)

  unfoldable pub insert : K → V → Map K V → Map K V
  insert k v [] = (k, v) ∷ []
  insert k v ((i, w) ∷ m) =
      ite (key.eq i k) ((k, v) ∷ m)
        (if key.ltb k i then (k, v) ∷ (i, w) ∷ m else (i, w) ∷ insert k v m)

  unfoldable pub remove : K → Map K V → Map K V
  remove k [] = []
  remove k ((i, w) ∷ m) = ite (key.eq i k) (remove k m) ((i, w) ∷ remove k m)

  pub lookup-insert :
      (k j : K) (v : V) (m : Map K V)
      → lookup j (insert k v m) ≡ ite (key.eq k j) (some v) (lookup j m)
  unfolding lookup insert
  lookup-insert k j v [] = refl
  lookup-insert k j v ((i, w) ∷ m) = ground (arith, lookup-insert k j v m)

  pub lookup-remove :
      (k j : K) (m : Map K V) → lookup j (remove k m) ≡ ite (key.eq k j) none (lookup j m)
  unfolding lookup remove
  lookup-remove k j [] = ground arith
  lookup-remove k j ((i, w) ∷ m) = ground (arith, lookup-remove k j m)

  pub length-remove-le : (k : K) (m : Map K V) → length (remove k m) ≤ length m
  unfolding remove
  length-remove-le k [] = omega arith
  length-remove-le k ((i, w) ∷ m) = ground (arith, length-remove-le k m)

  pub length-remove-lt :
      (k : K) (v : V) (m : Map K V) → lookup k m ≡ some v → length (remove k m) < length m
  unfolding remove lookup
  length-remove-lt k v [] h = ground arith
  length-remove-lt k v ((i, w) ∷ m) h = ground (arith, length-remove-le k m, length-remove-lt k v m)

  abbrev pub contains_key : K → Map K V → Bool
  contains_key k m = is_some (lookup k m)

  pub lookup-remove_inv :
      (k j : K) (v : V) (m : Map K V)
      → lookup j (remove k m) ≡ some v
      → (k ≢ j) × (lookup j m ≡ some v)
  lookup-remove_inv k j v m h = elim (key.eq k j) [
    | yes p ↦ ground (arith, lookup-remove k j m)
    | no n ↦ (n, ground (arith, lookup-remove k j m))
  ]

  pub lookup-insert_inv :
      (k j : K) (v w : V) (m : Map K V)
      → lookup j (insert k v m) ≡ some w
      → ((k ≡ j) × (v ≡ w)) ⊎ ((k ≢ j) × (lookup j m ≡ some w))
  lookup-insert_inv k j v w m h = elim (key.eq k j) [
    | yes p ↦ inl (p, ground (arith, lookup-insert k j v m))
    | no n ↦ inr (n, ground (arith, lookup-insert k j v m))
  ]

  pub lookup-insert_self : (k : K) (v : V) (m : Map K V) → lookup k (insert k v m) ≡ some v
  lookup-insert_self k v m = ground (arith, lookup-insert k k v m)

  pub lookup-insert_ne :
      (k j : K) (v : V) (m : Map K V) → k ≢ j → lookup j (insert k v m) ≡ lookup j m
  lookup-insert_ne k j v m n = ground (arith, lookup-insert k j v m)

  pub lookup-remove_ne : (k j : K) (m : Map K V) → k ≢ j → lookup j (remove k m) ≡ lookup j m
  lookup-remove_ne k j m n = ground (arith, lookup-remove k j m)

  pub lookup-remove_self : (k : K) (m : Map K V) → lookup k (remove k m) ≡ none
  lookup-remove_self k m = ground (arith, lookup-remove k k m)

  pub lookup-insert_head : (k : K) (v : V) (m : Map K V) → lookup k ((k, v) ∷ m) ≡ some v
  unfolding lookup
  lookup-insert_head k v m = ground arith

  -- `HashMap::retain`
  unfoldable pub retain : (K → V → Bool) → Map K V → Map K V
  retain keep [] = []
  retain keep ((k, v) ∷ m) = if keep k v then (k, v) ∷ retain keep m else retain keep m

  pub length-retain-le : (keep : K → V → Bool) (m : Map K V) → length (retain keep m) ≤ length m
  unfolding retain
  length-retain-le keep [] = omega arith
  length-retain-le keep ((k, v) ∷ m) = ground (arith, length-retain-le keep m)

  -- `get_mut` and a change of the value, when it is there.
  unfoldable pub modify : K → (V → V) → Map K V → Map K V
  modify k f [] = []
  modify k f ((i, v) ∷ m) = ite (key.eq i k) ((i, f v) ∷ modify k f m) ((i, v) ∷ modify k f m)

  pub lookup-modify_ne :
      (k j : K) (f : V → V) (m : Map K V) → k ≢ j → lookup j (modify k f m) ≡ lookup j m
  unfolding lookup modify
  lookup-modify_ne k j f [] n = refl
  lookup-modify_ne k j f ((i, v) ∷ m) n = ground (arith, lookup-modify_ne k j f m n)
