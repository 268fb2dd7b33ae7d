-- ===== src/Crewai.antt =====
-- packages/crewai-openterms/openterms_crewai/wrapper.py: receipts around a callable.
pub mod Wrapper
pub mod Calls
mod Examples
