-- ===== src/Stdio.antt =====
-- The part of the C library that the programs rest on: decimal text, `fscanf`, and files.
pub mod Decimal
pub mod Run
pub mod Scan
pub mod Disk
