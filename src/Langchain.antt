-- ===== src/Langchain.antt =====
-- packages/langchain-openterms/openterms_langchain/handler.py: receipts for the tool calls of an agent.
pub mod Handler
pub mod Runs
pub mod Ended
pub mod Pending
pub mod Failures
mod Examples
