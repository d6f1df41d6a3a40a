-- ===== src/Server/Replies.antt =====
-- What a client that sends a well-formed request gets back, and what the server has stored then.
pub mod Dialogue
pub mod Users
pub mod Connect
pub mod Contents
pub mod Lists
