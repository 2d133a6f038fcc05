-- ===== src/Policy.antt =====
-- crates/factory-policy: the local policy engine.
pub mod Platform
pub mod Path
pub mod Glob
pub mod Model
pub mod Filesystem
pub mod Commands
pub mod Network
pub mod Environment
pub mod Secrets
pub mod Redactor
pub mod Git
pub mod Tools
pub mod Effective
