-- ===== src/Tests/Sock.antt =====
-- The proxy and the server over sockets, on the store and the numbers of Store.
use trabajos_sistemas_distri.Base.{true, [], ◌∷◌, ◌≡◌, refl, pos, drop, arith}
use trabajos_sistemas_distri.Stdio.Run.{done}
use trabajos_sistemas_distri.Stdio.Disk.{Disk}
use trabajos_sistemas_distri.Claves.Tuples.Loops.{has_key}
use trabajos_sistemas_distri.Claves.Tuples.Print.{arguments}
use trabajos_sistemas_distri.Claves.Store.Holds.{Holds}
use trabajos_sistemas_distri.Sock.Proxy.{set_value}
use trabajos_sistemas_distri.Sock.Proxy.{get_value}
use trabajos_sistemas_distri.Sock.Texts.{store_server}
use trabajos_sistemas_distri.Sock.Remote.{set_value_remote}
use trabajos_sistemas_distri.Sock.Get.{get_value-set_value_remote}
use trabajos_sistemas_distri.Tests.Store.{
  tally, IsLawful-tally, garbage, first, third, IsTuple-third, disk, Holds-first,
}

set_value_remote_example :
    (d : Disk) × (set_value tally
        (pos 0)
        (pos 0)
        true
        (store_server tally garbage)
        (arguments tally third (7 ∷ []))
        disk
      ≡ done (pos 0, d))
    × Holds tally (first ∷ third ∷ []) d
unfolding has_key
set_value_remote_example =
    set_value_remote tally IsLawful-tally garbage refl (first ∷ []) disk Holds-first third
      IsTuple-third (omega arith) ((omega arith, omega arith), tt) (omega arith) (7 ∷ []) (pos 0)
      (pos 0) refl refl

get_value-set_value_remote_example :
    (d : Disk) × (set_value tally
        (pos 0)
        (pos 0)
        true
        (store_server tally garbage)
        (arguments tally third (7 ∷ []))
        disk
      ≡ done (pos 0, d))
    × (get_value tally true (store_server tally garbage) (pos 8) garbage d
        ≡ done ((pos 0, record third { v_value2 = 4 ∷ drop 1 garbage.v_value2 }), d))
unfolding has_key
get_value-set_value_remote_example =
    get_value-set_value_remote tally IsLawful-tally garbage refl (first ∷ []) disk Holds-first
      (pos 0) (pos 0) third garbage (7 ∷ []) refl refl IsTuple-third (omega arith)
      ((omega arith, omega arith), tt) (omega arith) refl (omega arith)
