-- ===== src/Tests.antt =====
-- A sample cluster in a small world, runs of the model on it, and the theorems at work on it.
pub mod Sample
mod Examples
mod Runs
mod Process
mod Controller
mod Copies
mod Texts
mod Settled
mod Plugins
