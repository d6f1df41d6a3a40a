-- ===== src/Tests/Rpc.antt =====
-- The remote procedures, on the store and the numbers of Store.
use trabajos_sistemas_distri.Base.{
  minus_one, ℤ, Option, none, some, true, codes, str_eq, [], ◌∷◌, ◌≡◌, refl, pos,
}
use trabajos_sistemas_distri.Stdio.Run.{Run, done}
use trabajos_sistemas_distri.Stdio.Disk.{Disk}
use trabajos_sistemas_distri.Claves.Tuples.Loops.{has_key}
use trabajos_sistemas_distri.Claves.Store.Holds.{without, Holds}
use trabajos_sistemas_distri.Rpc.{rpc_destroy, rpc_delete_key}
use trabajos_sistemas_distri.Rpc.Proxy.{returned, Client, get_ip_tuplas, delete_key}
use trabajos_sistemas_distri.Rpc.Calls.{delivered, CanCall}
use trabajos_sistemas_distri.Rpc.RoundTrip.{failed_call-returns_old}
use trabajos_sistemas_distri.Tests.Store.{tally, IsLawful-tally, garbage, first, disk, Holds-first}

-- A client that finds the server on its own machine.
abbrev pub client : Client tally
client = record {
  ip_tuplas = some (codes "localhost");
  result_1 = pos 0;
  result_2 = pos 0;
  result_3 = garbage;
  result_4 = pos 0;
  result_5 = pos 0;
  result_6 = pos 0;
  rpc_set_value_1_aux = garbage;
  rpc_modify_value_1_aux = garbage;
}

pub CanCall-client : CanCall tally (λ ip. true) client
unfolding get_ip_tuplas str_eq
CanCall-client = record {
  address = codes "127.0.0.1";
  known = refl;
  up = refl;
  set_room = refl;
  modify_room = refl;
}

-- The key 8 is not there; the call for the key 5 fails, and the server's store is empty afterwards.
abbrev runs_and_fails : ℤ → Disk → Run (Option ℤ × Disk)
runs_and_fails key d = done (none, (rpc_destroy d).1)

failed_call-returns_old_example :
    (c' : Client tally) × (d' : Disk) × (c'' : Client tally) × (delete_key tally
        (λ ip. true)
        (λ k. delivered (rpc_delete_key tally garbage k))
        (pos 8)
        client
        disk
      ≡ done (returned (minus_one, (c', d'))))
    × (delete_key tally (λ ip. true) runs_and_fails (pos 5) c' d'
        ≡ done (returned (minus_one, (c'', (rpc_destroy d').1))))
    × Holds tally (first ∷ []) d'
unfolding has_key without
failed_call-returns_old_example =
    failed_call-returns_old tally IsLawful-tally garbage refl (λ ip. true) client CanCall-client
      (first ∷ []) disk Holds-first (pos 8) (pos 5) runs_and_fails (λ d. (rpc_destroy d).1)
      (λ w. refl)
