-- ===== src/Probe.antt =====
-- tools/efi-inventory/probe.c, over the services of the firmware.
pub mod World
pub mod Pool
pub mod Ownership
pub mod Attempt
pub mod Acquire
pub mod Console
pub mod Printed
pub mod Number
pub mod Numerals
pub mod Search
pub mod Guids
pub mod Searched
pub mod Report
pub mod Reported
pub mod Record
pub mod Main
pub mod Json
pub mod Reads
pub mod Says
pub mod Reportable
pub mod Recorded
pub mod Ending
pub mod Answers
pub mod Observed
pub mod Noted
pub mod Acquired
pub mod Located
pub mod Fit
pub mod Run
