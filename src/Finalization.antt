-- ===== src/Finalization.antt =====
-- Finalization and structured refusal: src/alr_tw/contracts/finalization.py.
pub mod Gates
pub mod Contract
pub mod Build
pub mod FromRun
pub mod Validate
pub mod Modes
pub mod RunModes
pub mod Totality
pub mod Binding
pub mod Conclusion
pub mod Summary
pub mod Drafting
pub mod NoRun
pub mod Refusal
