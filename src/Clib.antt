-- ===== src/Clib.antt =====
-- What the C code takes for granted of the language and its standard library: faults, arrays of
-- words, 16- and 32-bit conversions, and byte strings.
pub mod Fault
pub mod Memory
pub mod Word
pub mod Text
