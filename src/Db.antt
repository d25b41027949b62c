-- ===== src/Db.antt =====
-- internal/db: the metadata store.
pub mod Tables
pub mod Rows
pub mod Users
pub mod Grants
pub mod Repositories
pub mod Tags
pub mod Counted
pub mod Keyed
pub mod Fitting
pub mod Consistent
pub mod Keeping
pub mod Atomic
pub mod History
pub mod Policies
pub mod Usage
pub mod Settings
pub mod Audit
