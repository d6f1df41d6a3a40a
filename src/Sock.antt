-- ===== src/Sock.antt =====
-- The store of tuples over sockets: ejercicio_evaluable_2/servidor-sock.c and proxy-sock.c. Every
-- value goes over the connection as a text with a NUL behind it.
pub mod Main
pub mod Fields
pub mod Server
pub mod Proxy
pub mod Texts
pub mod Keys
pub mod Tuples
pub mod Remote
pub mod Reply
pub mod Get
