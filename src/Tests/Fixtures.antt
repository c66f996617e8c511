-- ===== src/Tests/Fixtures.antt =====
-- The blobs of tools/efi-inventory/fixtures.h, byte by byte.
pub mod Models
pub mod Depths
