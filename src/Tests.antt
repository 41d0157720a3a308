-- ===== src/Tests.antt =====
-- Runs at concrete inputs, and the theorems applied to them.
pub mod Samples
pub mod ResearchExamples
pub mod BudgetExamples
pub mod ServiceExamples
pub mod SnapshotExamples
pub mod FinalizationExamples
pub mod CitationExamples
pub mod ReceiptExamples
pub mod StorageExamples
