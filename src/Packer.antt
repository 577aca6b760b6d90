-- ===== src/Packer.antt =====
-- Packing a script: src/pwshpy/adapters/native/packer.py.
pub mod Disk
pub mod Collect
pub mod Unpack
pub mod Destination
mod Tests
