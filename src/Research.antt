-- ===== src/Research.antt =====
-- contracts/research.py, research/state_machine.py and contracts/budget.py.
pub mod Kinds
pub mod Coverage
pub mod Run
pub mod Sufficiency
pub mod Obligations
pub mod Posture
pub mod Reasons
pub mod Transitions
pub mod Paths
pub mod Routes
