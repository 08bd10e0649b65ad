-- ===== src/UtilityNode.antt =====
-- utility_node/: the node that owns utilities and their bookings, the participant of the commit.
pub mod UtilityRepository
pub mod UtilityBookingRepository
pub mod Endpoints
