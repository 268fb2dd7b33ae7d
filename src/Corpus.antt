-- ===== src/Corpus.antt =====
-- packages/openterms-py/scripts/generate_corpus.py: the corpus of receipts and decisions.
pub mod Scenario
pub mod Buckets
pub mod Times
pub mod Payload
pub mod Keys
pub mod Schedule
pub mod Uuids
pub mod Generate
pub mod RuleIds
pub mod Decisions
pub mod Simulation
pub mod Links
pub mod Chains
pub mod Checks
pub mod Validation
pub mod Main
pub mod Files
pub mod Daily
mod Examples
