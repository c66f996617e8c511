-- ===== src/Observe.antt =====
-- The small observations of tools/efi-inventory/core.c: `parse_var`, `decode_el`, `read_vendor`.
pub mod Variable
pub mod Level
pub mod Vendor
pub mod VendorText
pub mod VendorLaws
