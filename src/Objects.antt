-- ===== src/Objects.antt =====
-- The objects of a room (players, entities, waypoints) in src/relay.rs: how a report changes the table
-- of a source, and how the difference of two tables is sent.
pub mod Fields
pub mod Player
pub mod Entity
pub mod Waypoint
pub mod Table
pub mod Sync
pub mod Patch
pub mod Tests
