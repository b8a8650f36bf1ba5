-- ===== src/Go.antt =====
-- The functions of Go's standard library that the program calls on text.
pub mod Path
pub mod Url
