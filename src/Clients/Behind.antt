-- ===== src/Clients/Behind.antt =====
-- The operations of claves.h for a client, each with a proxy and its server behind it: what the
-- clients of the three exercises call.
use trabajos_sistemas_distri.Base.{◌<◌, ◌-◌, length, All, Bool, Bytes, List, Option, true, ℤ}
use trabajos_sistemas_distri.Stdio.Run.{Run, done, ◌>>=◌}
use trabajos_sistemas_distri.Stdio.Disk.{Disk}
use trabajos_sistemas_distri.Sockets.Reading.{IsLine}
use trabajos_sistemas_distri.Claves.Floats.{Floats}
use trabajos_sistemas_distri.Claves.Tuples.{max_str, Tuple}
use trabajos_sistemas_distri.Claves.Store.Holds.{Holds}
use trabajos_sistemas_distri.Sock.Proxy.{send_tuple_request}
use trabajos_sistemas_distri.Sock.Texts.{store_server}
use trabajos_sistemas_distri.Sock.Tuples.{Sends}
use trabajos_sistemas_distri.Rpc.Proxy.{Client, Outcome, exited, returned}
use trabajos_sistemas_distri.Clients.Program.{
  Answer, Request, delete_key, destroy, exist, get_value, modify_value, set_value,
}
use trabajos_sistemas_distri.Clients.Contract.{returning, taken}
use trabajos_sistemas_distri.Rpc.{
  rpc_delete_key, rpc_destroy, rpc_exist, rpc_get_value, rpc_modify_value, rpc_set_value,
}
use trabajos_sistemas_distri.Rpc.Calls.{CanCall, answered, delivered}
use trabajos_sistemas_distri.Mq.Proxy.{blank, d_send_receive}
use trabajos_sistemas_distri.Mq.Remote.{store_queues}
use trabajos_sistemas_distri.Sock
use trabajos_sistemas_distri.Mq
use trabajos_sistemas_distri.Rpc

module _ (fl : Floats) where
  open fl use {Float}

  -- A text that `strncpy` leaves with its NUL in the array of a client.
  abbrev pub EndsEarly : Tuple Float → Type 0
  EndsEarly t = length t.value1 < max_str - 1

  -- A disk with the tuples of the list, all of which have such texts.
  pub record HoldsEarly (ts : List (Tuple Float)) (d : Disk) : Type 0 where
    pub holds : Holds fl ts d
    pub early : All EndsEarly ts

  module _ (zero_float : Float) (pid : ℤ) (behind : Bytes) (vars out : Tuple Float) where
    -- Exercise 1: the operations for a client, on queues where every call succeeds, and on the disk
    -- of the server. `vars` is what the local variables of the server hold at the start, and `out`
    -- the variables of a client.
    unfoldable pub call_queues : (r : Request Float) → Disk → Run (Outcome (Answer r × Disk))
    call_queues destroy d = returning (Mq.Proxy.destroy fl zero_float (store_queues fl pid vars) d)
    call_queues (exist key) d =
        returning (Mq.Proxy.exist fl zero_float (store_queues fl pid vars) key d)
    call_queues (set_value u) d =
        returning (Mq.Proxy.set_value fl zero_float (store_queues fl pid vars) u d)
    call_queues (modify_value u) d =
        returning (Mq.Proxy.modify_value fl zero_float (store_queues fl pid vars) u d)
    call_queues (delete_key key) d =
        returning (Mq.Proxy.delete_key fl zero_float (store_queues fl pid vars) key d)
    call_queues (get_value key) d =
        Mq.Proxy.get_value fl zero_float (store_queues fl pid vars) key behind
          (record out { key = key }) d
        >>= λ (a, d1). done (returned (taken fl a, d1))

  -- A tuple whose texts the two sides can pass as lines.
  pub record HasLines (t : Tuple Float) : Type 0 where
    pub line : IsLine t.value1
    pub sends : Sends fl t.v_value2

  -- A disk with the tuples of the list, all of which can be passed.
  pub record HoldsLines (ts : List (Tuple Float)) (d : Disk) : Type 0 where
    pub holds : Holds fl ts d
    pub lines : All HasLines ts

  module _ (left1 left2 : ℤ) (vars out : Tuple Float) where
    -- Exercise 2: the operations for a client, on the disk of the server; every connection is made.
    -- `vars` is what the local variables of the server hold at the start, `out` the variables of a
    -- client, and `left1` and `left2` what the two tests of the proxy leave for a caller.
    unfoldable pub call_sockets : (r : Request Float) → Disk → Run (Outcome (Answer r × Disk))
    call_sockets destroy d = returning (Sock.Proxy.destroy true (store_server fl vars) d)
    call_sockets (exist key) d = returning (Sock.Proxy.exist true (store_server fl vars) key d)
    call_sockets (set_value u) d =
        returning (Sock.Proxy.set_value fl left1 left2 true (store_server fl vars) u d)
    call_sockets (modify_value u) d =
        returning (Sock.Proxy.modify_value fl left1 left2 true (store_server fl vars) u d)
    call_sockets (delete_key key) d =
        returning (Sock.Proxy.delete_key true (store_server fl vars) key d)
    call_sockets (get_value key) d =
        Sock.Proxy.get_value fl true (store_server fl vars) key (record out { key = key }) d
        >>= λ (a, d1). done (returned (taken fl a, d1))

  -- What a client takes where the process goes on.
  abbrev pub taking :
      {S : Type 0}
      → Run (Outcome ((ℤ × Tuple Float) × S))
      → Run (Outcome (Option (Tuple Float) × S))
  taking m =
      m >>= λ o. elim o [ returned (a, s) ↦ done (returned (taken fl a, s)) | exited ↦ done exited ]

  module _ (clnt_create : Bytes → Bool) (left1 left2 : ℤ) (vars old out : Tuple Float) where
    -- Exercise 3: the operations for a client, over remote calls that are delivered, on its
    -- variables and the disk of the server. `vars` is what the local variables of a procedure hold
    -- at the start, `old` the result of `rpc_get_value`, and `out` the variables of a client.
    unfoldable pub call_proxy :
        (r : Request Float) → Client fl × Disk → Run (Outcome (Answer r × (Client fl × Disk)))
    call_proxy destroy (c, d) =
        Rpc.Proxy.destroy fl clnt_create (delivered (λ d1. done (rpc_destroy d1))) c d
    call_proxy (exist key) (c, d) =
        Rpc.Proxy.exist fl clnt_create (λ k. answered (rpc_exist fl vars k)) key c d
    call_proxy (set_value u) (c, d) =
        Rpc.Proxy.set_value fl clnt_create left1 left2
          (λ aux. delivered (rpc_set_value fl vars aux)) u c d
    call_proxy (modify_value u) (c, d) =
        Rpc.Proxy.modify_value fl clnt_create left1 left2
          (λ aux. delivered (rpc_modify_value fl vars aux)) u c d
    call_proxy (delete_key key) (c, d) =
        Rpc.Proxy.delete_key fl clnt_create (λ k. delivered (rpc_delete_key fl vars k)) key c d
    call_proxy (get_value key) (c, d) = taking (
        Rpc.Proxy.get_value fl clnt_create (λ k. answered (rpc_get_value fl vars k old)) key out c
          d)

    -- The client can call, and the server's disk holds the tuples.
    pub record Serves (ts : List (Tuple Float)) (s : Client fl × Disk) : Type 0 where
      pub can : CanCall fl clnt_create s.0
      pub holds : Holds fl ts s.1
