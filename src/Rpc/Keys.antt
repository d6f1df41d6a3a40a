-- ===== src/Rpc/Keys.antt =====
-- The operations of proxy-rpc.c on a key over servidor-rpc.c, where every call is delivered.
use trabajos_sistemas_distri.Base.{
  ◌≤◌, Bool, some, List, ◌++◌, ◌≡◌, refl, lt→ltb, if◌then◌else◌, Bytes, ℤ, pos, minus_one, length,
  map, drop, arith,
}
use trabajos_sistemas_distri.Stdio.Run.{done}
use trabajos_sistemas_distri.Stdio.Disk.{Disk}
use trabajos_sistemas_distri.Claves.Floats.{Floats, IsLawful}
use trabajos_sistemas_distri.Claves.Tuples.{max_vec, Tuple}
use trabajos_sistemas_distri.Claves.Tuples.Print.{IsTuple, loaded}
use trabajos_sistemas_distri.Claves.Tuples.Loops.{has_key, lookup, Found}
use trabajos_sistemas_distri.Claves.Store.Holds.{Holds, without}
use trabajos_sistemas_distri.Claves.Store.Refines.{exist_lem, get_value_lem, delete_key_lem}
use trabajos_sistemas_distri.Sock.Server.{get_existing}
use trabajos_sistemas_distri.Rpc.{rpc_get_value, rpc_delete_key, rpc_exist}
use trabajos_sistemas_distri.Rpc.Proxy.{returned, Client, get_value, delete_key, exist}
use trabajos_sistemas_distri.Rpc.Calls.{delivered, answered, CanCall-still, copied, CanCall, called}

module _ (fl : Floats) where
  open fl use {Float, rounded}

  module _ (lawful : IsLawful fl) (vars : Tuple Float) (room : length vars.v_value2 ≡ max_vec)
      (clnt_create : Bytes → Bool) (c : Client fl) (can : CanCall fl clnt_create c)
      (ts : List (Tuple Float)) (d : Disk) (h : Holds fl ts d) where
    pub delete_key_called :
        (key : ℤ)
        → (c' : Client fl) × (d' : Disk) × (delete_key fl clnt_create
              (λ k. delivered (rpc_delete_key fl vars k))
              key
              c
              d
            ≡ done (returned (if has_key fl key ts then pos 0 else minus_one, (c', d'))))
          × CanCall fl clnt_create c'
          × (c'.result_5 ≡ (if has_key fl key ts then pos 0 else minus_one))
          × Holds fl (if has_key fl key ts then without fl key ts else ts) d'
    unfolding delete_key rpc_delete_key
    delete_key_called key =
        let (d1, ran, held) = delete_key_lem fl lawful vars room ts d h key in
        (
          record (called fl can) { result_5 = if has_key fl key ts then pos 0 else minus_one },
          d1,
          rw (can.known, can.up, ran) refl,
          CanCall-still fl can _ refl can.set_room can.modify_room,
          refl,
          held,
        )

    pub exist_called :
        (key : ℤ)
        → (c' : Client fl) × (exist fl clnt_create (λ k. answered (rpc_exist fl vars k)) key c d
            ≡ done (returned (if has_key fl key ts then pos 1 else pos 0, (c', d))))
          × CanCall fl clnt_create c'
    unfolding exist rpc_exist
    exist_called key = (
      record (called fl can) { result_6 = if has_key fl key ts then pos 1 else pos 0 },
      rw (can.known, can.up, exist_lem fl lawful vars room ts d h key) (ground arith),
      CanCall-still fl can _ refl can.set_room can.modify_room,
    )

    pub get_value_called :
        (key : ℤ) (old out : Tuple Float) (t : Tuple Float)
        → lookup fl key ts ≡ some t
        → IsTuple fl t
        → length old.v_value2 ≡ max_vec
        → length t.v_value2 ≤ length out.v_value2
        → (c' : Client fl) × (get_value fl clnt_create
              (λ k. answered (rpc_get_value fl vars k old))
              key
              out
              c
              d
            ≡ done (
                returned (
                  (
                    pos 0,
                    record t {
                      key = key;
                      v_value2 = map rounded t.v_value2 ++ drop (length t.v_value2) out.v_value2;
                    },
                  ),
                  (c', d),
                )))
          × CanCall fl clnt_create c'
    unfolding get_value rpc_get_value get_existing
    get_value_called key old out t e v room_old room_out =
        let (l, got, found) = get_value_lem fl lawful vars room ts d h key in
        let (there, before, room_before, is) : Found fl lawful (some t) (has_key fl key ts, l) =
          rw e at found in
        let got1 : trabajos_sistemas_distri.Claves.Store.get_value fl key vars d
            ≡ done (pos 0, loaded fl lawful before t) =
          rw (there, is) at got in
        let r = record t {
          key = pos 0;
          v_value2 = map rounded t.v_value2 ++ drop (length t.v_value2) old.v_value2;
        } in
        (
          record (called fl can) { result_3 = r },
          rw
              (
                can.known,
                can.up,
                exist_lem fl lawful vars room ts d h key,
                there,
                got1,
                lt→ltb _ _ v.value1.fits,
                v.counted,
                copied fl (drop (length t.v_value2) before.v_value2) t.v_value2 old.v_value2
                    (omega (arith, v.fits, room_old)),
                lt→ltb _ _ v.value1.fits,
                copied fl (drop (length t.v_value2) old.v_value2) t.v_value2 out.v_value2 room_out,
              )
              refl,
          CanCall-still fl can _ refl can.set_room can.modify_room,
        )
