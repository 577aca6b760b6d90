-- ===== src/Packing.antt =====
-- src/pwshpy/domain/packing.py, one module for each family of its functions.
pub mod PowerShell
pub mod PosixShell
pub mod Relative
pub mod Imports
pub mod Substitute
pub mod Runner
pub mod Metadata
pub mod Toml
pub mod Chunks
pub mod RequiresPython
pub mod GitSource
pub mod Shim
pub mod Tests
