-- ===== src/Examples.antt =====
-- examples: programs that use the library.
pub mod Cpu
pub mod Main
