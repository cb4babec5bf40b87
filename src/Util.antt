-- ===== src/Util.antt =====
-- src/elke27_lib/util.py: the checksum, the word swap and the block padding.
pub mod Crc
pub mod Swap
mod Tests
