-- ===== src/Go.antt =====
-- What the program uses of Go's standard library: strings, fmt and sort.
pub mod Int
pub mod Strings
pub mod Format
pub mod Sort
