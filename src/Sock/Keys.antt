-- ===== src/Sock/Keys.antt =====
-- The operations of ejercicio_evaluable_2 that send a key, from the proxy to the store and back.
use trabajos_sistemas_distri.Base.{
  true, some, List, [], ◌∷◌, ◌++◌, ◌≡◌, refl, if◌then◌else◌, codes, ℤ, pos, minus_one, IsInt,
  length, map, arith,
}
use trabajos_sistemas_distri.Stdio.Run.{done}
use trabajos_sistemas_distri.Stdio.Decimal.{print_int}
use trabajos_sistemas_distri.Stdio.Disk.{Disk}
use trabajos_sistemas_distri.Sockets.{byte}
use trabajos_sistemas_distri.Claves.Floats.{Floats, IsLawful}
use trabajos_sistemas_distri.Claves.Tuples.{max_vec, Tuple}
use trabajos_sistemas_distri.Claves.Tuples.Loops.{has_key}
use trabajos_sistemas_distri.Claves.Store.Holds.{Holds, without}
use trabajos_sistemas_distri.Claves.Store.Refines.{exist_lem, delete_key_lem}
use trabajos_sistemas_distri.Sock.Server.{operation, tratar_peticion}
use trabajos_sistemas_distri.Sock.Proxy.{key_request, delete_key, exist}
use trabajos_sistemas_distri.Sock.Texts.{
  atoi-print_int, printed-print_int, read_into-int, read_result-print_int, atoi_delete, atoi_exist,
  IsInt-if, IsInt-code, reply_lem, tratar_peticion-operation, store_server,
}

module _ (fl : Floats) where
  open fl use {Float, print, atof, rounded}

  module _ (lawful : IsLawful fl) (vars : Tuple Float) (room : length vars.v_value2 ≡ max_vec)
      (ts : List (Tuple Float)) (d : Disk) (h : Holds fl ts d) where
    -- EXIST as the server treats it.
    pub serve_exist :
        (key : ℤ)
        → IsInt key
        → tratar_peticion fl vars (map byte (codes "6" ++ 0 ∷ (print_int key ++ 0 ∷ []))) d
          ≡ done (print_int (if has_key fl key ts then pos 1 else pos 0) ++ 0 ∷ [], d)
    unfolding operation
    serve_exist key hk =
        rw
          (
            tratar_peticion-operation fl vars (codes "6") (print_int key ++ 0 ∷ []) d (omega arith)
                (omega arith),
            atoi_exist,
            read_into-int (some (codes "6")) key [] hk,
            atoi-print_int key hk,
            exist_lem fl lawful vars room ts d h key,
          )
          (reply_lem fl _ _ d (IsInt-if (has_key fl key ts)) refl)

    -- `exist` of the proxy, of a key that an `int` holds and connected to a server with a store of
    -- tuples, returns 1 if the store has the key and 0 if not.
    pub exist_remote :
        (key : ℤ)
        → IsInt key
        → exist true (store_server fl vars) key d
          ≡ done (if has_key fl key ts then pos 1 else pos 0, d)
    unfolding exist key_request
    exist_remote key hk =
        rw
          (
            printed-print_int key hk,
            serve_exist key hk,
            read_result-print_int _ (IsInt-if (has_key fl key ts)),
          )
          refl

    -- `delete_key` of the proxy, of a key that an `int` holds and connected to a server with a
    -- store of tuples, takes the tuple of that key out of the server's store and returns 0, or
    -- returns -1 if there is none.
    pub delete_key_remote :
        (key : ℤ)
        → IsInt key
        → (d' : Disk) × (delete_key true (store_server fl vars) key d
            ≡ done (if has_key fl key ts then pos 0 else minus_one, d'))
          × Holds fl (if has_key fl key ts then without fl key ts else ts) d'
    unfolding delete_key key_request operation
    delete_key_remote key hk =
        let (d', ran, held) = delete_key_lem fl lawful vars room ts d h key in
        let code = if has_key fl key ts then pos 0 else minus_one in
        let served : tratar_peticion fl vars (map byte (codes "5" ++ 0 ∷ (print_int key ++ 0 ∷ [])))
              d
            ≡ done (print_int code ++ 0 ∷ [], d') =
          rw
            (
              tratar_peticion-operation fl vars (codes "5") (print_int key ++ 0 ∷ []) d
                  (omega arith) (omega arith),
              atoi_delete,
              read_into-int (some (codes "5")) key [] hk,
              atoi-print_int key hk,
            )
            (reply_lem fl _ code d' (IsInt-code (has_key fl key ts)) ran) in
        (
          d',
          rw
              (
                printed-print_int key hk,
                served,
                read_result-print_int code (IsInt-code (has_key fl key ts)),
              )
              refl,
          held,
        )
