-- ===== src/Tests.antt =====
-- Runs over the services in memory, and the theorems at concrete data.
mod Worlds
mod TwoPhase
mod Parts
mod Recovery
mod Holds
mod Refinement
mod Managers
mod Clients
mod Slots
mod Fields
mod Run
mod Listing
mod Sockets
