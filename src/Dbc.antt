-- ===== src/Dbc.antt =====
-- The .dbc files by which the compiler (mindy/comp/dump.c) and the interpreter (mindy/interp/load.c)
-- communicate.
pub mod Bytes
pub mod Format
pub mod Dump
pub mod Load
pub mod Reading
pub mod Atoms
pub mod Table
pub mod Symbols
pub mod Sequence
pub mod Headers
pub mod Literals
pub mod Lists
pub mod Runs
pub mod Leaves
pub mod RoundTrip
pub mod Opening
