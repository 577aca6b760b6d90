-- ===== src/Packing/Tests.antt =====
-- Runs of the models of src/pwshpy/domain/packing.py, and the theorems at concrete inputs.
mod Quoting
mod Imports
mod Runner
mod Metadata
mod Toml
mod Shim
