-- ===== src/Battle.antt =====
-- src/relay.rs, the battle chunk cache of a room.
pub mod Types
pub mod Cache
pub mod Update
pub mod Patch
pub mod Covered
pub mod Bounds
pub mod History
pub mod Limit
pub mod Tracking
pub mod Log
pub mod Sync
pub mod Merge
pub mod Client
pub mod Delivery
pub mod Tests
