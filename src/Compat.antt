-- ===== src/Compat.antt =====
-- src/protocol_compat.rs: protocol versions, epochs, the compatibility rules and the negotiation.
pub mod Version
pub mod Epoch
pub mod Profile
pub mod Order
pub mod Negotiation
pub mod Rules
pub mod Tests
