-- ===== src/Service.antt =====
-- The research service: src/alr_tw/research/service.py.
pub mod Outcomes
pub mod Advance
pub mod Progress
pub mod Codes
pub mod Execution
pub mod Completion
pub mod Loop
pub mod Projection
pub mod Decision
pub mod Eligibility
pub mod Remaining
pub mod Steps
pub mod Totality
