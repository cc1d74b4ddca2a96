-- ===== src/Examples.antt =====
-- The theorems at concrete inputs, and tests of the definitions.
pub mod Fixture
pub mod References
pub mod Polls
mod Requests
mod Catalogs
mod Times
pub mod Releases
pub mod Plans
mod Admissions
mod Deltas
pub mod Policies
