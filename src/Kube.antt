-- ===== src/Kube.antt =====
-- The edge of the program: what it calls outside the repository, as records that its functions take
-- as an argument, and the state that one reconciler process holds.
mod Writes
mod Failures
mod Clients
pub mod Session
pub use Writes.*
pub use Failures.*
pub use Clients.*
