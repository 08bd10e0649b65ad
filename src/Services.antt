-- ===== src/Services.antt =====
-- What the program calls and does not implement: the database behind SQLAlchemy, Redis behind its
-- client, the HTTP connection between the nodes, the clock and the UUIDs. `Services` is a parameter
-- of every component; `IsLawful` states the documented behaviour that the theorems rely on.
mod Defs
mod Laws
mod Up
pub mod Facts
pub mod Memory
pub mod Steady
pub use Defs.*
pub use Laws.*
pub use Up.*
