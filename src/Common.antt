-- ===== src/Common.antt =====
-- pkg/common: the state of the VM, the dirty manager, the migration to another host, and packages.
pub mod VmState
pub mod DirtyManager
pub mod Package
pub mod MigrateTo
pub mod MigrateFrom
