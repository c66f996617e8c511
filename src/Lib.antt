-- ===== src/Lib.antt =====
-- A model of the EFI inventory probe of this repository (tools/efi-inventory), a UEFI application
-- that observes a machine before a Muen port: its memory map, its device tree, two variables, the
-- exception level and the firmware vendor. It prints what it sees as one line of JSON.
--
-- The parsers of tools/efi-inventory/core.c take bytes of the firmware and must neither trust nor
-- overrun them. probe.c calls the firmware, hands its answers to the parsers, and writes each result
-- with the bounded writer of core.c.
--
-- Files, and the code that they model:
--   Efi        the status codes and sizes of efi.h
--   Status     `State` of core.h and `state_name`
--   Map        `range_ok`, `map_next_capacity`, `parse_map`. Parser holds the definitions; Range,
--              Capacity, Copy, Valid, Round, Loop, Parse, Reasons and Presentable what is known of each part
--   Fdt        `parse_dt`, `parse_firmware_dt` and the functions they call. Read, Result, Model,
--              Header, Structure, Parser and Firmware hold the definitions, in the order of the
--              code; the other files their properties, up to Whole, Declared and Presentable. Grammar is an
--              independent grammar of the structure block, as trees; below it, Remains and Behind
--              are what is left of a tree behind a token, Decides are the rules for code that
--              decides a condition, Names, Follows, Nodes, Properties and Accepts relate the tokens
--              of the loop to the grammar, Reserved and Header are the grammar of the other parts,
--              and Whole joins them
--   Observe    `parse_var` (Variable), `decode_el` (Level), `read_vendor` (Vendor,
--              VendorText, VendorLaws)
--   Writer     `put` (Put) and its refinement of a stream of bytes (Stream, Emit); `unit`,
--              `escaped` and `escaped16` (Escape, Text); Json is an independent reader of JSON
--              strings, for the round trip (RoundTrip)
--   Probe      probe.c over the services of the firmware. World holds the services and the calls;
--              Pool is `acquire_map`, Ownership, Attempt and Acquire its contract; Console is
--              `print`, Printed its policy; Search is `find_dt`, Guids and Searched what it finds;
--              Number is `number` and `hex`, Numerals what they spell; Record is `build_record`, Json
--              an acceptor of JSON texts, Reads what it does with the parts of a record, and Says,
--              Reportable and Recorded what the record puts; Main is `variable` and `efi_main`,
--              Report the end of `efi_main`, Reported and Ending what is shown and returned there;
--              Answers is what is made of the image and the variables, Observed what the
--              observations yield together, Noted, Acquired, Located and Fit that they can be put
--              into a record, and Run joins all parts of `efi_main`
--   Freestanding  `memcpy` and `memset` of core.c
--   Pingpong   recipes/demo/pingpong/pingpong.c, the measurement of a trap: Ticks holds the
--              definitions, Telescope what `calc_avg` returns, Readings what `main` prints
--   Base       tests, lists, words, memory accesses and bits that all parts share
--   Tests      runs of the definitions, and the theorems at concrete inputs; Fixtures holds the
--              blobs of fixtures.h
--
-- The state and the operations. A buffer is the list of the bytes that can be read from its start,
-- and a pointer into it is an offset; a null pointer is `none`. A computation returns an `Option`:
-- `none` stands for an access outside a buffer or an array, and for a loop that has run out of fuel,
-- so a theorem that the code returns rules both out. Early returns of `parse_dt` are a second
-- layer (`Flow`). A result that the code fills in field by field is a record that is passed on.
--
-- Integers are natural numbers; where the C type wraps, the wrap-around is written out
-- (`u32`, `u64`, `sub32`, `sub64`). `size_t` has 64 bits, as efi.h asserts.
--
-- Fuel. The reservation loop and the structure loop of `parse_dt` have one round for each byte of
-- their space and one more; each round reads at least four bytes. A scan for a NUL has one round
-- for each byte of its range and one more. The loops with a counter have as many rounds as the
-- counter allows.
--
-- The services of the firmware are parameters: functions on a state of the firmware. The world of
-- the probe is that state and the list of the calls made, the last one first; who owns which buffer
-- is computed from the calls. What is assumed of a service stands as a hypothesis of a theorem.
--
-- `acquire_map` has five attempts, and one round more, in which it meets the limit. `print` has a
-- round for each byte and one more.
--
-- The counter and the trap instruction of pingpong.c are parameters, functions on a state of the
-- processor. An array that C leaves uninitialised starts with zeros; the code writes each element
-- before it reads it.
--
-- Not modelled: the layout assertions of efi.h; the driver of the host tests; the scripts and build
-- recipes.
mod Base
pub mod Efi
pub mod Fdt
pub mod Freestanding
pub mod Map
pub mod Status
pub mod Observe
pub mod Pingpong
pub mod Probe
pub mod Tests
pub mod Writer
