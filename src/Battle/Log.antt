-- ===== src/Battle/Log.antt =====
-- The change log of src/relay.rs's `BattleRoomCache`: `record_changes` numbers its batches one after
-- the other, and drops only the oldest.
use minecraft_team_viewer_ba.Battle.Types.{
  BattleCacheKey, BattleCacheKey-discrete, BattleChangeBatch, battle_key_order,
}
use minecraft_team_viewer_ba.Battle.Update.{over_changes, set_keys, trim_changes}
use minecraft_team_viewer_ba.Prelude.Map.{Set, contains_key, lookup}
use minecraft_team_viewer_ba.Prelude.{
  Bool-cases, List, Member, [], arith, inl, inr, length, refl, suc, true, ℕ, ◌++◌, ◌+◌, ◌-◌, ◌<◌,
  ◌∷◌, ◌≡◌, ◌≤◌, ◌⊎◌,
}

-- Batches are numbered `suc start`, `suc (suc start)` and so on.
abbrev pub Chain : ℕ → List BattleChangeBatch → Type 0
Chain start [] = Unit {0}
Chain start (b ∷ bs) = (b.revision ≡ suc start) × Chain (suc start) bs

-- A batch after the revision names the key.
abbrev pub LoggedSince : ℕ → BattleCacheKey → List BattleChangeBatch → Type 0
LoggedSince r k [] = ⊥
LoggedSince r k (b ∷ bs) = ((r < b.revision) × Member k b.keys) ⊎ LoggedSince r k bs

-- What is left of a log after its oldest batches are dropped.
pub record IsSuffix (start : ℕ) (old new : List BattleChangeBatch) : Type 0 where
  pub start' : ℕ
  pub later : start ≤ start'
  pub chain : Chain start' new
  pub ends : start' + length new ≡ start + length old
  pub keeps : (r : ℕ) (k : BattleCacheKey) → start' ≤ r → LoggedSince r k old → LoggedSince r k new

IsSuffix-refl :
    (start : ℕ) (log : List BattleChangeBatch) → Chain start log → IsSuffix start log log
IsSuffix-refl start log h = record {
  start' = start;
  later = omega arith;
  chain = h;
  ends = refl;
  keeps = λ r k le logged. logged;
}

pub trim_changes-IsSuffix :
    (start : ℕ) (log : List BattleChangeBatch) (operations : ℕ)
    → Chain start log
    → IsSuffix start log (trim_changes log operations).0
unfolding trim_changes
trim_changes-IsSuffix start [] operations h = IsSuffix-refl start [] h
trim_changes-IsSuffix start (b ∷ bs) operations h =
    elim (Bool-cases (over_changes (b ∷ bs) operations)) [
      | inl over ↦
          let tail = trim_changes-IsSuffix (suc start) bs (operations - length b.keys) h.1 in
          rw over (record {
            start' = tail.start';
            later = omega (arith, tail.later);
            chain = tail.chain;
            ends = omega (arith, tail.ends);
            keeps = λ r k le logged.
                tail.keeps r k le (after_first r k tail.start' tail.later le logged);
          })
      | inr fits ↦ rw fits (IsSuffix-refl start (b ∷ bs) h)
    ]
  where
    after_first :
        (r : ℕ) (k : BattleCacheKey) (s : ℕ)
        → suc start ≤ s
        → s ≤ r
        → LoggedSince r k (b ∷ bs)
        → LoggedSince r k bs
    after_first r k s later le (inl (newer, m)) = absurd (omega (arith, h.0))
    after_first r k s later le (inr logged) = logged

pub Chain-append :
    (start : ℕ) (log : List BattleChangeBatch) (b : BattleChangeBatch)
    → Chain start log
    → b.revision ≡ suc (start + length log)
    → Chain start (log ++ b ∷ [])
Chain-append start [] b h e = (omega arith, tt)
Chain-append start (x ∷ xs) b h e = (h.0, Chain-append (suc start) xs b h.1 (omega arith))

pub LoggedSince-append :
    (r : ℕ) (k : BattleCacheKey) (log more : List BattleChangeBatch)
    → LoggedSince r k log
    → LoggedSince r k (log ++ more)
LoggedSince-append r k [] more h = absurd h
LoggedSince-append r k (x ∷ xs) more (inl h) = inl h
LoggedSince-append r k (x ∷ xs) more (inr h) = inr (LoggedSince-append r k xs more h)

pub LoggedSince-last :
    (r : ℕ) (k : BattleCacheKey) (log : List BattleChangeBatch) (b : BattleChangeBatch)
    → r < b.revision
    → Member k b.keys
    → LoggedSince r k (log ++ b ∷ [])
LoggedSince-last r k [] b lt m = inl (lt, m)
LoggedSince-last r k (x ∷ xs) b lt m = inr (LoggedSince-last r k xs b lt m)

-- No batch is newer than the end of the log.
pub LoggedSince-lt :
    (r : ℕ) (k : BattleCacheKey) (start : ℕ) (log : List BattleChangeBatch)
    → Chain start log
    → LoggedSince r k log
    → r < start + length log
LoggedSince-lt r k start [] h logged = absurd logged
LoggedSince-lt r k start (b ∷ bs) h (inl (newer, m)) = omega (arith, h.0)
LoggedSince-lt r k start (b ∷ bs) h (inr logged) =
    omega (arith, LoggedSince-lt r k (suc start) bs h.1 logged)

pub set_keys-Member :
    (k : BattleCacheKey) (s : Set BattleCacheKey) → contains_key k s ≡ true → Member k (set_keys s)
unfolding lookup
set_keys-Member k [] h = cc
set_keys-Member k ((j, u) ∷ s) h = elim (BattleCacheKey-discrete j k) [
  | yes same ↦ inl same
  | no other ↦ inr (set_keys-Member k s (ground arith))
]
