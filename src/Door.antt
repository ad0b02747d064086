-- ===== src/Door.antt =====
-- The compressed transports: the suites of src/compress.rs and the datagram dictionaries of
-- src/door_control.rs.
pub mod Suite
pub mod Dictionary
pub mod Lifecycle
pub mod Samples
pub mod Tests
