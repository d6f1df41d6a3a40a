-- ===== src/Tests.antt =====
-- The theorems at concrete inputs: two users, one of them with a published file.
pub mod Data
pub mod Users
pub mod Requests
pub mod Service
pub mod Threads
pub mod Texts
pub mod Store
pub mod Sock
pub mod Mq
pub mod Rpc
pub mod Clients
