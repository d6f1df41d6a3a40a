-- ===== src/Clients.antt =====
-- The test clients of the exercises: app-cliente*.c, as programs over the operations of claves.h.
-- Program and Contract say what a client is and what it relies on; Behind, Queues, Sockets and Rpc
-- are about the proxies; Checks, Values, Tester and Short have the clients; Passes, Restores,
-- Beside and Third are about what they find.
pub mod Program
pub mod Contract
pub mod Arguments
pub mod Lookup
pub mod Behind
pub mod Rpc
pub mod Queues
pub mod Sockets
pub mod Allowed
pub mod Checks
pub mod Values
pub mod Tester
pub mod Short
pub mod Passes
pub mod Calls
pub mod Beside
pub mod Restores
pub mod Third
