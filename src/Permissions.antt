-- ===== src/Permissions.antt =====
-- src/elke27_lib/permissions.py: levels, and the level of each generator.
pub mod Level
pub mod Areas
pub mod Panel
pub mod Devices
pub mod Table
pub mod Lookup
mod Tests
