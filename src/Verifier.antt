-- ===== src/Verifier.antt =====
-- The bytecode verifier of lua-5.1/ldebug.c: symbolic execution of a function's code.
-- A check that fails makes symbexec return 0, which is `refused` here. A read outside an array is
-- `fault`; the C program does not notice it.
pub mod Defs
pub mod Valid
pub mod Pieces
pub mod Switch
pub mod Sound
mod Runs
