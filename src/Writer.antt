-- ===== src/Writer.antt =====
-- The bounded writer of tools/efi-inventory/core.c and the escapes of JSON strings.
pub mod Put
pub mod Stream
pub mod Emit
pub mod Escape
pub mod Json
pub mod Text
pub mod RoundTrip
