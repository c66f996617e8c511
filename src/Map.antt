-- ===== src/Map.antt =====
-- The memory-map half of tools/efi-inventory/core.c, with `MapResult` of core.h. `Parser` holds
-- the definitions, the other modules what is proved of them.
pub mod Parser
pub mod Capacity
pub mod Range
pub mod Valid
pub mod Copy
pub mod Round
pub mod Loop
pub mod Parse
pub mod Reasons
pub mod Presentable
