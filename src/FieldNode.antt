-- ===== src/FieldNode.antt =====
-- field_node/: the node that owns fields and field bookings and coordinates the two-phase commit.
pub mod FieldRepository
pub mod FieldBookingRepository
pub mod Coordinator
pub mod Bookings
pub mod TwoPhase
pub mod Recovery
pub mod Holds
pub mod Socket
