-- ===== src/Snapshot.antt =====
-- The state of a room as clients see it in src/relay.rs and src/protocol_compat.rs: the snapshot, the
-- patch between two snapshots, and what of them a peer's protocol version can take. The types are
-- those of the protocol, with the fields that the code reads.
pub mod Tests
pub mod Types
pub mod Project
pub mod Projected
pub mod Adapt
pub mod Rebuilt
pub mod Keys
pub mod Diff
pub mod Strip
pub mod Payload
pub mod Carried
pub mod Rebuilding
pub mod Receiving
pub mod Delivery
