-- ===== src/Logic.antt =====
-- Práctica_Final/logic/logic.c: the users file and the files of published contents.
pub mod Users
pub mod Contents
pub mod Ends
