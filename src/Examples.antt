-- ===== src/Examples.antt =====
-- Small parts that meet the contracts, and the theorems at work on them.
pub mod Code
pub mod Crates
pub mod Repetition
mod Runs
mod Streams
mod Blobs
pub mod Vaults
mod Noises
mod Releases
mod Endings
pub mod Sessions
mod Lives
