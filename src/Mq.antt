-- ===== src/Mq.antt =====
-- The store of tuples over message queues: ejercicio_evaluable_1/proxy-mq.c and servidor-mq.c. A
-- message goes over a queue whole.
pub mod Main
pub mod Remote
pub mod Get
use trabajos_sistemas_distri.Base.{Bytes, ℤ}
use trabajos_sistemas_distri.Claves.Tuples.{Tuple}
pub mod Server
pub mod Proxy

-- `struct message`; the fields of the tuple are one field.
pub record Message (Float : Type 0) : Type 0 where
  pub op : ℤ
  pub q_name : Bytes
  pub tuple : Tuple Float
  pub res : ℤ
