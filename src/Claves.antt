-- ===== src/Claves.antt =====
-- claves/claves.c: the store of tuples <key, value1, value2, value3>, a line of text for each.
-- `Claves/Tuples` reads and writes them, `Claves/Store` has the operations of the service.
pub mod Floats
pub mod Tuples
pub mod Store
