-- ===== src/Permissions.antt =====
-- packages/openterms-py/openterms/permissions: what a domain's openterms.json permits.
pub mod Models
pub mod Cache
pub mod Headers
pub mod Network
pub mod Client
pub mod Shared
mod Examples
