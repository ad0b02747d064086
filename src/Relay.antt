-- ===== src/Relay.antt =====
-- The state of the relay in src/relay.rs and its events.
pub mod Types
pub mod Observation
pub mod Report
pub mod Apply
pub mod Timeouts
pub mod Stay
pub mod Fresh
pub mod Events
pub mod WebMap
pub mod Commands
pub mod Admin
pub mod Handler
pub mod Keeps
pub mod Spread
pub mod Invariant
pub mod Tests
pub mod PeerTests
pub mod Grouping
pub mod Candidates
pub mod Room
pub mod Broadcast
pub mod Online
pub mod Refresh
pub mod Sanitize
pub mod Sharing
pub mod Purge
pub mod Deaths
pub mod Isolation
pub mod Permission
pub mod Deletion
