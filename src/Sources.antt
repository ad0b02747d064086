-- ===== src/Sources.antt =====
-- src/relay.rs, the arbitration between the sources that report one object.
pub mod Candidates
pub mod Players
pub mod Best
pub mod Choice
pub mod Order
pub mod Takeover
pub mod Delay
pub mod Tests
