-- ===== src/ServerSetup.antt =====
-- server-setup-base (internal/serversetup): the plugin that changes a server.
pub mod Profile
pub mod Plan
pub mod Transaction
pub mod Accounts
pub mod Confinement
pub mod Atomic
pub mod Checks
pub mod Commands
pub mod Apply
