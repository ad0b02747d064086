-- ===== src/Lib.antt =====
-- The relay server of TeamViewRelay for Minecraft: players report what they see, the relay keeps one
-- state for a room, chooses one source for each object, and sends each client the difference to what
-- it was sent before. The parts modelled here are used by the relay's event loop in src/relay.rs and
-- by the transports.
--
-- Battle: `BattleRoomCache` of src/relay.rs, the cache of battle chunks of a room. Battle/Types has
--   the records, Battle/Cache the entries and the expiry queue (`upsert` up to its eviction,
--   `pop_oldest_key`, `pop_expiry_batch`), Battle/Update the operations `upsert`, `cleanup`,
--   `evict_to_limit`, `record_changes` and `prune_stale_indexes`, Battle/Patch `patch_since`,
--   `proto_entry`, `full_entries` and `battle_missing_fields`. Battle/History is a history of calls of
--   the cache, Battle/Merge and Client what a client does with a patch. Covered, Bounds, Tracking, Log
--   and Sync hold the invariants; Limit and Delivery the results.
-- Frame: src/frame.rs, a length of one to four LEB128 bytes and a payload. Frame has
--   `split_frame_header`, `encode_varint`, `write_frame` and `read_frames`.
-- Compat: src/protocol_compat.rs. Compat/Version has `ProtocolVersion` with `from_str`, Compat/Epoch
--   the epochs and the rules, Compat/Profile `ProtocolProfile::negotiate` and the capabilities.
-- Sources: `resolve_candidates` (Sources/Candidates) and `resolve_player_candidates`
--   (Sources/Players) of src/relay.rs.
-- Objects: the tables of players, entities and waypoints in src/relay.rs. Objects/Player, Entity and
--   Waypoint have the `*_delta`, `apply_*_delta`, `clear_*_fields`, `*_cleared_fields` and
--   `normalize_*` functions, Objects/Table `map_patch`, the `*_upsert` functions and the part of
--   `apply_report` that replaces, patches and deletes objects; last-seen players are one more kind.
--   Sync and Patch follow a patch from the one to the other.
-- Movement: `movement_batch` of src/relay.rs, which packs player upserts into datagrams.
-- Door: src/compress.rs and src/door_control.rs. Door/Suite has `Suite` and its names, Door/Dictionary
--   `DatagramDictEncoder`, Door/Lifecycle a session of it with its client, Door/Samples its buffer.
-- Snapshot: what a client is sent. Snapshot/Types has the snapshot and the patch, Snapshot/Project and
--   Adapt `project_snapshot` and `adapt_outbound_patch` of src/protocol_compat.rs; of src/relay.rs,
--   Snapshot/Keys has the keys of chunks, Diff `build_patch`, Strip `strip_player_positions`, and
--   Payload `state_payload_for_profile_with_battle`. Snapshot/Receiving is what a client makes of a
--   payload, and Snapshot/Delivery follows the chunks of the battle cache through all of these.
--   Projected, Rebuilt and Rebuilding hold what a projection and an adapted patch leave.
-- Groups: `find_group`, `union_groups` and the loops of `same_server_grouping` of src/relay.rs.
-- Relay: the state `Relay` of src/relay.rs (Relay/Types) and its event loop's operations.
--   Relay/Observation has `apply_battle_observation`, Relay/Report and Apply `apply_report`,
--   Relay/Events the connections that come and go, Relay/WebMap and Commands `apply_web_map_command`,
--   Relay/Admin the requests of the administration, Relay/Handler `handle_event`, and Relay/Timeouts
--   `cleanup_timeouts`. Relay/Grouping has `same_server_grouping` and `allowed_sources_for_player`,
--   Relay/Candidates `collect_candidates`, Relay/Room `build_room_snapshot`, Relay/Broadcast
--   `broadcast`, Relay/Refresh `send_preexpiry_refresh_requests`, and Relay/Sanitize
--   `sanitize_player_report` of src/protocol_compat.rs. Keeps and Spread follow the connections through
--   the operations, Stay, Deaths and Permission say which objects a clean-up, a report or a web map may
--   take; Invariant, Fresh, Purge, Isolation, Deletion, Online and Sharing hold the results.
-- Tab: `sanitize_player`, `sanitize_formatted` and `truncate` of src/tab_history.rs, which clean a tab
--   list entry before it is stored.
-- Prelude: lists, integers, sorted maps, texts and the loop rule that the parts share.
--
-- How the code is represented. An `Instant` is the number of nanoseconds since some start, so
-- `saturating_duration_since` is the subtraction of natural numbers. A text is the list of its code
-- points, with the order of the code. A `BTreeMap` or a `HashMap` is an association list in key order;
-- the order in which a `HashMap` yields its entries is any list of them. A set is a map to the unit
-- type. A `&mut` argument is passed in and returned. `u64` counters keep their wrap-around or
-- saturation. `i32` and `i64` values are integers; where the code computes with
-- them, it saturates or wraps around as a release build does. An `Arc` stands for the value that it
-- shares. What goes into the control channel of a connection is returned by the handler, and a full
-- channel, which drops it, is not told apart. A `watch` channel is the last value put into it.
--
-- Clients are not in the repository. Where a result speaks of a client's battle chunks, the client is
-- the one that the server's code presupposes (`battle_missing_fields` of src/relay.rs and
-- `adapt_outbound_patch` of src/protocol_compat.rs): it handles the deletions of a patch before its
-- upserts, merges an upsert onto the chunk it has, so that an absent field stays, and empties the fields
-- that `clear_fields` names if its version supports that, and ignores `clear_fields` if not.
--
-- An `f64` is its 64 bits, which are stored, sent and tested for being finite, and never computed
-- with. The equality of objects in `map_patch`, which goes by the equality of floats, is a parameter
-- that need not be exact. The arms of the `match` in a `clear_*_fields` function set one field each,
-- so they are written field by field.
--
-- Loops. `evict_to_limit` runs on fuel, one step for each key or batch in the expiry queue, and
-- `expire` on one step for each batch; each turn pops one, so that this is enough. `drain_all` of
-- `read_frames` has one step for each buffered byte, since each frame takes at least its header. All
-- others go through a list.
--
-- The source priorities and the external role of a source are parameters, as they are in the code. So
-- are the training and the compression of zstd, the hash of a dictionary and the encoded length of a
-- protobuf message, the lower case and the normal form of Unicode, the numbers of the generated
-- enumerations, and the random part of a waypoint's id, and the parser of a uuid. Nothing is assumed
-- of any of them. The records of the messages that the protocol compiler generates have the fields
-- that the code reads. The reads of a stream are a list of results: an error, or bytes; a read of no
-- bytes is the end of the stream.
--
-- Not modelled: the interners of the battle cache, which only share storage, and its two diagnostic
-- counters; the digests; the JSON of the administration's snapshot; the pace of the event loop; the
-- caches inside one broadcast, which keep what would be made anew; the transports, the web server, the
-- stores in SQLite, the zstd streams, configuration, certificates and metrics.
pub mod Prelude
pub mod Battle
pub mod Compat
pub mod Door
pub mod Frame
pub mod Groups
pub mod Movement
pub mod Objects
pub mod Relay
pub mod Snapshot
pub mod Sources
pub mod Tab
