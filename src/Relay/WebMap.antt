-- ===== src/Relay/WebMap.antt =====
-- The commands of the web map in src/relay.rs: `apply_web_map_command` with the texts it reads.
use minecraft_team_viewer_ba.Objects.Waypoint.{WaypointData, default_waypoint}
use minecraft_team_viewer_ba.Battle.Update.{is_empty}
use minecraft_team_viewer_ba.Objects.Fields.{F64}
use minecraft_team_viewer_ba.Relay.Types.{Clock}
use minecraft_team_viewer_ba.Snapshot.Keys.{negated, show_int}
use minecraft_team_viewer_ba.Snapshot.Types.{PlayerMark}
use minecraft_team_viewer_ba.Prelude.{
  Bool, List, Option, [], false, if◌then◌else◌, leb, map_option, max, min, none, not, some, take,
  true, unwrap_or, ℕ, ◌%◌, ◌&&◌, ◌*◌, ◌++◌, ◌+◌, ◌-◌, ◌/◌, ◌==◌, ◌^◌, ◌∷◌,
}
use minecraft_team_viewer_ba.Prelude.Text.{Text, codes, nat_key, text_key, trim}
use minecraft_team_viewer_ba.Prelude.Int.{negsuc, pos, ℤ}

pub record TacticalWaypoint : Type 0 where
  pub waypoint_id : Option Text
  pub x : Option F64
  pub z : Option F64
  pub dimension : Option Text
  pub label : Option Text
  pub color : Option Text
  pub ttl_seconds : Option ℤ
  pub permanent : Option Bool
  pub tactical_type : Option Text

pub data Command : Type 0 where
  resync_request : Command
  set_player_mark : (player_id : Text) → PlayerMark → Command
  clear_player_mark : (player_id : Text) → Command
  clear_all_player_marks : Command
  set_same_server_filter : (enabled : Bool) → Command
  set_tactical_waypoint : TacticalWaypoint → Command
  delete_waypoints : (waypoint_ids : List Text) → Command

pub data AckDetail : Type 0 where
  player_mark : (player_id : Text) → (mark : Option PlayerMark) → AckDetail
  all_player_marks : (removed_count : ℕ) → AckDetail
  same_server_filter : (enabled : Bool) → AckDetail
  tactical_waypoint : (waypoint_id : Text) → WaypointData → AckDetail
  waypoints_delete : (waypoint_ids : List Text) → AckDetail

pub record WebMapAck : Type 0 where
  pub ok : Bool
  pub action : Option Text
  pub error : Option Text
  pub detail : Option AckDetail

-- `WebMapAck { ok: false, error, ..Default::default() }`
abbrev pub failed : Text → WebMapAck
failed error = record { ok = false; action = none; error = some error; detail = none }

abbrev pub done : Text → AckDetail → WebMapAck
done action detail = record { ok = true; action = some action; error = none; detail = some detail }

-- `filter(|value| !value.trim().is_empty())`
unfoldable pub filled : Option Text → Option Text
filled none = none
filled (some value) = if is_empty (trim value) then none else some value

-- `f64::is_finite`, on the bits of the number.
unfoldable pub is_finite : F64 → Bool
is_finite x = not (x / 2 ^ 52 % 2048 == 2047)

unfoldable pub hex_digit : ℕ → Option ℕ
hex_digit c =
    if leb b'0' c && leb c b'9'
    then some (c - b'0')
    else if leb b'a' c && leb c b'f'
    then some (c - b'a' + 10)
    else if leb b'A' c && leb c b'F'
    then some (c - b'A' + 10)
    else none

unfoldable pub hex_value : ℕ → Text → Option ℕ
unfolding hex_digit
hex_value acc [] = some acc
hex_value acc (c ∷ cs) = elim (hex_digit c) [
  | none ↦ none
  | some digit ↦ hex_value (acc * 16 + digit) cs
]

-- At least one digit, and a value up to a bound.
unfoldable pub hex_bounded : ℕ → Text → Option ℕ
unfolding hex_value
hex_bounded bound [] = none
hex_bounded bound (c ∷ cs) = elim (hex_value 0 (c ∷ cs)) [
  | none ↦ none
  | some n ↦ if leb n bound then some n else none
]

-- `i32::from_str_radix(_, 16)`
unfoldable pub hex_i32 : Text → Option ℤ
unfolding hex_bounded
hex_i32 [] = none
hex_i32 (c ∷ cs) =
    if c == b'-'
    then map_option negated (hex_bounded 2147483648 cs)
    else if c == b'+'
    then map_option pos (hex_bounded 2147483647 cs)
    else map_option pos (hex_bounded 2147483647 (c ∷ cs))

-- `trim_start_matches('#')`
unfoldable pub trim_hashes : Text → Text
trim_hashes [] = []
trim_hashes (c ∷ cs) = if c == b'#' then trim_hashes cs else c ∷ cs

-- `trim_start_matches("0x")`
unfoldable pub trim_prefixes : Text → Text
trim_prefixes [] = []
trim_prefixes (c ∷ []) = c ∷ []
trim_prefixes (c ∷ d ∷ cs) =
    let rest = trim_prefixes cs in if c == b'0' && d == b'x' then rest else c ∷ d ∷ cs

unfoldable pub parse_waypoint_color : Option Text → ℤ
unfolding hex_i32 trim_hashes trim_prefixes
parse_waypoint_color value =
    unwrap_or (hex_i32 (trim_prefixes (trim_hashes (trim (unwrap_or value []))))) (pos 0xEF4444)

-- `ttl_seconds.clamp(10, 86_400)`
unfoldable pub clamp_tactical : ℤ → ℤ
clamp_tactical (pos n) = pos (max 10 (min n 86_400))
clamp_tactical (negsuc n) = pos 10

-- `64.0`
abbrev pub f64_64 : F64
f64_64 = 0x4050000000000000

unfoldable pub tactical : Clock → Text → TacticalWaypoint → F64 → F64 → WaypointData
unfolding filled parse_waypoint_color clamp_tactical
tactical clock room command x z =
    let permanent = unwrap_or command.permanent false in
    record default_waypoint {
      x = x;
      y = f64_64;
      z = z;
      dimension = unwrap_or (filled command.dimension) (codes "minecraft:overworld");
      name = take 64 (trim (unwrap_or command.label (codes "战术标记")));
      symbol = some (codes "T");
      color = some (parse_waypoint_color command.color);
      owner_name = some (codes "Web Map Tactical");
      created_at = some clock.unix_millis;
      ttl_seconds =
          if permanent
          then none
          else some (clamp_tactical (unwrap_or command.ttl_seconds (pos 60)));
      waypoint_kind = some (codes "web_map_tactical");
      replace_old_quick = some false;
      target_type = some (codes "block");
      room_code = some room;
      permanent = some permanent;
      tactical_type = some (unwrap_or (filled command.tactical_type) (codes "attack"));
      source_type = some (codes "web_map_tactical");
      deletable_by = some (codes "owner");
    }

abbrev pub tactical_source : Text → Text
tactical_source room = codes "__web_map_tactical__:" ++ room

-- The first eight digits of the random identifier are a parameter.
unfoldable pub tactical_id : Clock → Text → Option Text → Text
unfolding filled show_int
tactical_id clock random waypoint_id =
    unwrap_or (filled waypoint_id)
      (codes "web_map_tactical:" ++ (show_int clock.unix_millis ++ (b':' ∷ random)))
