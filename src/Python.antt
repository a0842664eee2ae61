-- ===== src/Python.antt =====
-- The part of Python and its standard library that the program uses.
pub mod Exception
pub mod Str
pub mod Num
pub mod Utf8
pub mod Value
pub mod Json
