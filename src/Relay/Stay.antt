-- ===== src/Relay/Stay.antt =====
-- How long `cleanup_timeouts` of src/relay.rs leaves an object in a table.
use minecraft_team_viewer_ba.Objects.Sync.{IsDistinctTable}
use minecraft_team_viewer_ba.Objects.Waypoint.{WaypointData}
use minecraft_team_viewer_ba.Prelude.Map.{Map, lookup, retain}
use minecraft_team_viewer_ba.Relay.Timeouts.{clamp_ttl, is_fresh, waypoint_timeout, without_stale}
use minecraft_team_viewer_ba.Relay.Types.{RelayConfig}
use minecraft_team_viewer_ba.Sources.Candidates.{Timed}
use minecraft_team_viewer_ba.Prelude.{
  Bool, Bool-cases, Option, [], arith, false, if◌then◌else◌, inl, inr, ltb, ltb→ge, ltb→lt, none,
  refl, some, subst, sym, true, unwrap_or, ℕ, ◌*◌, ◌-◌, ◌<◌, ◌∷◌, ◌≡◌, ◌≤◌, ◌⊎◌,
}
use minecraft_team_viewer_ba.Prelude.Text.{Text, Text-discrete, nat_key, text_key}
use minecraft_team_viewer_ba.Prelude.Int.{negsuc, pos, ℤ}

abbrev pub and_then : {A B : Type 0} → Option A → (A → Option B) → Option B
and_then none f = none
and_then (some a) f = f a

pub lookup-retain :
    {V : Type 0} (keep : Text → V → Bool) (id : Text) (m : Map Text V)
    → IsDistinctTable m
    → lookup id (retain keep m)
      ≡ and_then (lookup id m) (λ value. if keep id value then some value else none)
unfolding lookup retain
lookup-retain keep id [] d = refl
lookup-retain keep id ((i, value) ∷ m) (absent, d) = elim (Text-discrete i id) [
  | yes e ↦ ground (arith, lookup-retain keep id m d, subst (λ j. lookup j m ≡ none) e absent)
  | no n ↦ ground (arith, lookup-retain keep id m d)
]

-- The seconds that a waypoint may stay: ten years if it is permanent, otherwise what it says, but
-- between five seconds and a day, or what the configuration says if it says nothing.
abbrev IsClamped : ℤ → ℕ → Type 0
IsClamped (negsuc n) limit = limit ≡ 5
IsClamped (pos n) limit =
    ((n < 5) × (limit ≡ 5))
    ⊎ (((5 ≤ n) × (n ≤ 86_400) × (limit ≡ n)) ⊎ ((86_400 < n) × (limit ≡ 86_400)))

abbrev IsStay : RelayConfig → Option Bool → Option ℤ → ℕ → Type 0
IsStay config (some true) ttl limit = limit ≡ 315_360_000
IsStay config (some false) none limit = limit ≡ config.waypoint_timeout_sec
IsStay config (some false) (some ttl) limit = IsClamped ttl limit
IsStay config none none limit = limit ≡ config.waypoint_timeout_sec
IsStay config none (some ttl) limit = IsClamped ttl limit

abbrev pub IsWaypointStay : RelayConfig → WaypointData → ℕ → Type 0
IsWaypointStay config waypoint = IsStay config waypoint.permanent waypoint.ttl_seconds

-- What is left of an object: all of it for as many seconds as it may stay, and nothing after.
abbrev pub Aged : {V : Type 0} → ℕ → (V → ℕ → Type 0) → Option (Timed V) → Option (Timed V) → Type 0
Aged now stays none after = after ≡ none
Aged now stays (some value) after =
    (limit : ℕ) × (stays value.content limit
      × (((now - value.received_at ≤ limit * 1_000_000_000) × (after ≡ some value))
          ⊎ ((limit * 1_000_000_000 < now - value.received_at) × (after ≡ none))))

-- What is left of a table, at every id.
abbrev pub IsFreshTable :
    {V : Type 0} → ℕ → (V → ℕ → Type 0) → Map Text (Timed V) → Map Text (Timed V) → Type 0
IsFreshTable now stays before after =
    (id : Text) → Aged now stays (lookup id before) (lookup id after)

pub without_stale-IsFreshTable :
    {T : Type 0} (now : ℕ) (timeout : T → ℕ) (stays : T → ℕ → Type 0) (table : Map Text (Timed T))
    → ((value : T) → stays value (timeout value))
    → IsDistinctTable table
    → IsFreshTable now stays table (without_stale now timeout table)
unfolding without_stale
without_stale-IsFreshTable {T} now timeout stays table right d id =
    subst (Aged now stays (lookup id table))
      (sym (
        lookup-retain (λ id value. is_fresh now (timeout value.content) value.received_at) id table
          d))
      (aged (lookup id table))
  where
    aged :
        (found : Option (Timed T))
        → Aged now stays found (
            and_then found (λ value.
              if is_fresh now (timeout value.content) value.received_at then some value else none))
    aged none = refl
    aged (some value) = (timeout value.content, (right value.content, (ground arith)))

clamp_ttl-IsClamped : (ttl : ℤ) → IsClamped ttl (clamp_ttl ttl)
unfolding clamp_ttl
clamp_ttl-IsClamped (negsuc n) = refl
clamp_ttl-IsClamped (pos n) = elim (Bool-cases (ltb n 5)) [
  | inl e ↦ inl (ground arith, omega (arith, ltb→lt n 5 e))
  | inr e ↦ elim (Bool-cases (ltb 86_400 n)) [
    | inl h ↦ inr (inr (ground arith, omega (arith, ltb→lt 86_400 n h)))
    | inr h ↦ inr (inl (ground arith, ground arith, omega (arith, ltb→ge n 5 e, ltb→ge 86_400 n h)))
  ]
]

pub waypoint_timeout-IsWaypointStay :
    (config : RelayConfig) (waypoint : WaypointData)
    → IsWaypointStay config waypoint (waypoint_timeout config waypoint)
unfolding waypoint_timeout
waypoint_timeout-IsWaypointStay config waypoint = stay waypoint.permanent waypoint.ttl_seconds
  where
    stay :
        (permanent : Option Bool) (ttl : Option ℤ)
        → IsStay config permanent ttl (
            if unwrap_or permanent false
            then 315_360_000
            else (elim ttl [ none ↦ config.waypoint_timeout_sec | some n ↦ clamp_ttl n ]))
    stay (some true) ttl = refl
    stay (some false) none = refl
    stay (some false) (some n) = clamp_ttl-IsClamped n
    stay none none = refl
    stay none (some n) = clamp_ttl-IsClamped n
