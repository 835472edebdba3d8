-- ===== src/UnitTests.antt =====
-- The repository's own unit tests (`mod tests` in core/src), translated assertion by assertion and
-- run on the model. Where a test asks a clock, makes a key or calls a crate, its translation takes
-- the instants, the key or the crate as an argument, and its run assumes of them what the test
-- relies on.
pub mod Circuit
pub mod Config
pub mod Tokens
pub mod Keys
pub mod Gate
pub mod Registry
pub mod Router
pub mod Limits
pub mod RequestIds
pub mod Logins
