-- ===== src/Installer.antt =====
-- apps/enterprise-installer/src/lib/config.ts: the configuration of an installation, its validation
-- and the environment file that it becomes.
pub mod Given
pub mod Config
pub mod EnvFile
pub mod Validate
pub mod EnvRead
pub mod Complete
pub mod Tests
