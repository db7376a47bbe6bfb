-- ===== src/Prg.antt =====
-- The loader of Atari programs: lib/prg/prg.c and include/prg/prg.h.
-- Prg.Load has the definitions, Prg.Bytes lemmas on patched long words, Prg.Relocate the theorems.
pub mod Load
pub mod Bytes
pub mod Relocate
pub mod Targets
mod Tests
