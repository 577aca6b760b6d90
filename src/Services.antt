-- ===== src/Services.antt =====
-- Control of Windows services: src/pwshpy/adapters/native/service_control.py.
pub mod Monad
pub mod Control
