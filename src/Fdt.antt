-- ===== src/Fdt.antt =====
-- The device-tree half of tools/efi-inventory/core.c, with `DtResult` of core.h.
pub mod Read
pub mod Result
pub mod Model
pub mod Header
pub mod Structure
pub mod Parser
pub mod Firmware
pub mod Words
pub mod Names
pub mod Outcome
pub mod Copy
pub mod Take
pub mod Taken
pub mod Safe
pub mod Walking
pub mod Grammar
pub mod Layout
pub mod Opening
pub mod Reserve
pub mod Whole
pub mod Declared
pub mod Presentable
