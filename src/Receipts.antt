-- ===== src/Receipts.antt =====
-- packages/openterms-py/openterms/receipts: canonical form, signing and verification of receipts.
pub mod Canonical
pub mod Base64
pub mod Crypto
pub mod Signing
pub mod Verification
pub mod RoundTrip
mod Examples
