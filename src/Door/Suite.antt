-- ===== src/Door/Suite.antt =====
-- `Suite` of src/compress.rs and the names that clients and the server give to it.
use minecraft_team_viewer_ba.Prelude.{
  Bool, List, Member, Option, Option-cases, [], arith, false, if◌then◌else◌, inl, inr, ite, leb,
  map, none, some, true, ℕ, ◌&&◌, ◌+◌, ◌∷◌, ◌≡◌,
}
use minecraft_team_viewer_ba.Prelude.Text.{Text, Text-discrete, codes, nat_key, text_key, trim}

pub data Suite : Type 0 where
  plain : Suite
  zstd : Suite
  zstd_dict : Suite

abbrev pub subprotocol_plain : Text
subprotocol_plain = codes "teamviewrelay.plain.v1"

abbrev pub subprotocol_zstd : Text
subprotocol_zstd = codes "teamviewrelay.zstd.v1"

abbrev pub subprotocol_zstd_dict : Text
subprotocol_zstd_dict = codes "teamviewrelay.zstd-dict.v1"

unfoldable pub stream_zstd : Suite → Bool
stream_zstd plain = false
stream_zstd zstd = true
stream_zstd zstd_dict = true

unfoldable pub datagram_zstd : Suite → Bool
datagram_zstd plain = false
datagram_zstd zstd = true
datagram_zstd zstd_dict = true

abbrev pub alpn_plain : Text
alpn_plain = codes "teamviewrelay/v1"

abbrev pub alpn_zstd : Text
alpn_zstd = codes "teamviewrelay/v1+zstd"

abbrev pub alpn_zstd_dict : Text
alpn_zstd_dict = codes "teamviewrelay/v1+zstd-dict"

unfoldable pub from_alpn : Text → Option Suite
unfolding Text-discrete
from_alpn alpn = ite (Text-discrete alpn alpn_plain) (some plain) (
    ite (Text-discrete alpn alpn_zstd) (some zstd)
      (ite (Text-discrete alpn alpn_zstd_dict) (some zstd_dict) none))

-- `to_ascii_lowercase` of one character.
unfoldable pub to_ascii_lowercase : ℕ → ℕ
to_ascii_lowercase c = if leb b'A' c && leb c b'Z' then c + 32 else c

-- The `suite=` parameter of a query; anything else is the default.
unfoldable pub from_query_value : Text → Suite
unfolding trim to_ascii_lowercase Text-discrete
from_query_value value =
    let name = map to_ascii_lowercase (trim value) in
    ite (Text-discrete name (codes "plain")) plain
      (ite (Text-discrete name (codes "zstd")) zstd zstd_dict)

unfoldable pub from_subprotocol : Text → Option Suite
unfolding Text-discrete
from_subprotocol value = ite (Text-discrete value subprotocol_plain) (some plain) (
    ite (Text-discrete value subprotocol_zstd) (some zstd)
      (ite (Text-discrete value subprotocol_zstd_dict) (some zstd_dict) none))

-- The first name in the client's order that is a suite's.
unfoldable pub select_ws_subprotocol : List Text → Option Suite
select_ws_subprotocol [] = none
select_ws_subprotocol (value ∷ offered) = elim (from_subprotocol value) [
  | none ↦ select_ws_subprotocol offered
  | some suite ↦ some suite
]

unfoldable pub protocol_name : Suite → Text
protocol_name plain = subprotocol_plain
protocol_name zstd = subprotocol_zstd
protocol_name zstd_dict = subprotocol_zstd_dict

unfoldable pub ws_subprotocol : Suite → Text
unfolding protocol_name
ws_subprotocol suite = protocol_name suite

unfoldable pub wt_protocol_value : Suite → Text
unfolding protocol_name
wt_protocol_value suite = protocol_name suite

from_subprotocol_inv :
    (value : Text) (suite : Suite)
    → from_subprotocol value ≡ some suite
    → value ≡ ws_subprotocol suite
unfolding from_subprotocol ws_subprotocol protocol_name
from_subprotocol_inv value suite h =
    chosen (Text-discrete value subprotocol_plain) (Text-discrete value subprotocol_zstd)
      (Text-discrete value subprotocol_zstd_dict) h
  where
    chosen :
        (a : Dec (value ≡ subprotocol_plain)) (b : Dec (value ≡ subprotocol_zstd))
        (c : Dec (value ≡ subprotocol_zstd_dict))
        → ite a (some plain) (ite b (some zstd) (ite c (some zstd_dict) none)) ≡ some suite
        → value ≡ protocol_name suite
    chosen (yes e) b c h' = ground arith
    chosen (no n) (yes e) c h' = ground arith
    chosen (no n) (no n') (yes e) h' = ground arith
    chosen (no n) (no n') (no n'') h' = absurd (cc h')

-- The name that is sent back to a client is one that it offered, as RFC 6455 demands.
pub select_ws_subprotocol-Member :
    (offered : List Text) (suite : Suite)
    → select_ws_subprotocol offered ≡ some suite
    → Member (ws_subprotocol suite) offered
unfolding select_ws_subprotocol
select_ws_subprotocol-Member [] suite h = absurd (cc h)
select_ws_subprotocol-Member (value ∷ offered) suite h =
    elim (Option-cases (from_subprotocol value)) [
      | inl e ↦ inr (select_ws_subprotocol-Member offered suite (ground arith))
      | inr (found, e) ↦ inl (from_subprotocol_inv value suite (ground arith))
    ]
