-- ===== src/Scheduling.antt =====
-- Inputs of a scheduled task: src/pwshpy/domain/scheduling.py.
pub mod Identity
pub mod Principal
pub mod Settings
mod Tests
