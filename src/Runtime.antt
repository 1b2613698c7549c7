-- ===== src/Runtime.antt =====
-- runtime/src/stdlib: the C library that programs on the SoC are linked with. A `size_t` and a
-- pointer have 32 bits there.
pub mod Strings
pub mod Heap
pub mod Digits
pub mod Stdio
