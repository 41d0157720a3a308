-- ===== src/Citations.antt =====
-- The verification of citations: src/tw_legal_rag_mcp/verification.
pub mod Policy
pub mod Resolver
pub mod Validator
pub mod Answer
pub mod Batch
pub mod Finality
pub mod Batches
pub mod Gate
