-- ===== src/Objects/Patch.antt =====
-- The whole patch: upserts, then deletions, for every id of two tables of src/relay.rs.
use minecraft_team_viewer_ba.Prelude.Map.{Map}
use minecraft_team_viewer_ba.Prelude.Text.{Text, nat_key, text_key}
use minecraft_team_viewer_ba.Objects.Table.{ObjectKind, is_changed}
use minecraft_team_viewer_ba.Prelude.{Bool, Option, if◌then◌else◌, none, some, ◌≡◌, ◌⊎◌}

-- What a source shows of an object after the patch, from what it showed before and the new table: the
-- new value as a report leaves it, or the value it had, where the code finds it equal.
abbrev delivered : {V D : Type 0} → ObjectKind V D → (V → V → Bool) → Option V → Option V → Option V
delivered kind same before none = none
delivered kind same before (some value) =
    if is_changed same before value then some (kind.normalize value) else before

-- What a patch leaves at an id, from what was there and the new table's object: nothing if there is
-- none, and otherwise that object, as it was there or normalized as in any report.
abbrev pub Arrived : {V D : Type 0} → ObjectKind V D → Option V → Option V → Option V → Type 0
Arrived kind before none after = after ≡ none
Arrived kind before (some value) after =
    ((before ≡ some value) × (after ≡ some value)) ⊎ (after ≡ some (kind.normalize value))
