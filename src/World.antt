-- ===== src/World.antt =====
-- What the reconciler does to the world: its calls of the API server, of the database and of the
-- clock, each answered by an environment that is a parameter, and the monad of its methods.
pub mod Errors
pub mod Calls
pub mod Exec
pub mod Follows
pub mod Outcomes
pub mod Guarded
pub mod Makes
pub mod Cases
pub mod Posts
pub mod Endings
