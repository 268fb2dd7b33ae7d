-- ===== src/Ingest.antt =====
-- packages/openterms-py/openterms/client.py: building, signing and sending receipts.
pub mod Outcome
pub mod Service
pub mod Transport
pub mod Emit
pub mod Keys
mod Examples
