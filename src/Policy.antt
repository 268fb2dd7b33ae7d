-- ===== src/Policy.antt =====
-- packages/openterms-py/openterms/policy: the deterministic policy engine.
pub mod Types
pub mod Pattern
pub mod Clock
pub mod Rules
pub mod Engine
mod Examples
