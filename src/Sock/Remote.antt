-- ===== src/Sock/Remote.antt =====
-- SET VALUE and MODIFY VALUE of ejercicio_evaluable_2: a call of the proxy is a call of the store.
use trabajos_sistemas_distri.Base.{
  ◌<◌, true, false, List, [], ◌∷◌, ◌++◌, ◌≡◌, refl, ◌||◌, if◌then◌else◌, codes, ℤ, pos, minus_one,
  int_eq, IsInt, length, map, arith,
}
use trabajos_sistemas_distri.Stdio.Run.{done}
use trabajos_sistemas_distri.Stdio.Decimal.{print_int}
use trabajos_sistemas_distri.Stdio.Disk.{Disk}
use trabajos_sistemas_distri.Sockets.{byte}
use trabajos_sistemas_distri.Sockets.Reading.{IsLine}
use trabajos_sistemas_distri.Claves.Floats.{Floats, IsLawful}
use trabajos_sistemas_distri.Claves.Tuples.{max_vec, Tuple}
use trabajos_sistemas_distri.Claves.Tuples.Print.{IsTuple, loaded, arguments}
use trabajos_sistemas_distri.Claves.Tuples.Loops.{has_key, write_tuple-loaded}
use trabajos_sistemas_distri.Claves.Store.Holds.{Holds, without}
use trabajos_sistemas_distri.Claves.Store.Refines.{set_value_written, modify_value_written}
use trabajos_sistemas_distri.Sock.Server.{operation, tratar_peticion}
use trabajos_sistemas_distri.Sock.Proxy.{
  is_value1_valid, is_n_value2_valid, send_tuple_request, set_value, modify_value,
}
use trabajos_sistemas_distri.Sock.Texts.{
  read_result-print_int, atoi_set, atoi_modify, IsInt-code, IsInt-refused, reply_lem,
  tratar_peticion-operation, store_server,
}
use trabajos_sistemas_distri.Sock.Tuples.{Sends, tuple_text, receive_tuple_lem, tuple_request_lem}

module _ (fl : Floats) where
  open fl use {Float, print, atof, rounded}

  module _ (lawful : IsLawful fl) (vars : Tuple Float) (room : length vars.v_value2 ≡ max_vec)
      (ts : List (Tuple Float)) (d : Disk) (h : Holds fl ts d) (t : Tuple Float) (v : IsTuple fl t)
      (line : IsLine t.value1) (sends : Sends fl t.v_value2) (some_values : 0 < length t.v_value2)
      (more : List Float) where
    valid_request :
        (left1 left2 : ℤ)
        → int_eq left1 minus_one ≡ false
        → int_eq left2 minus_one ≡ false
        → (int_eq (is_value1_valid left1 t.value1) minus_one
            || int_eq (is_n_value2_valid left2 t.n_value2) minus_one)
          ≡ false
    unfolding is_value1_valid is_n_value2_valid
    valid_request left1 left2 h1 h2 = rw v.counted (ground (arith, v.fits, v.value1.fits))

    -- `set_value` of the proxy, connected to a server with a store of tuples, of a tuple with 1 to
    -- 32 components, `more` behind them in the array, whose texts are lines: the server adds the
    -- tuple to its store, its components rounded as `%lf` rounds, and the proxy returns 0; or the
    -- key is there already, the store stays, and the proxy returns -1.
    pub set_value_remote :
        (left1 left2 : ℤ)
        → int_eq left1 minus_one ≡ false
        → int_eq left2 minus_one ≡ false
        → (d' : Disk) × (set_value fl left1 left2 true
              (store_server fl vars)
              (arguments fl t more)
              d
            ≡ done (if has_key fl t.key ts then minus_one else pos 0, d'))
          × Holds fl (if has_key fl t.key ts then ts else ts ++ t ∷ []) d'
    unfolding set_value operation send_tuple_request
    set_value_remote left1 left2 h1 h2 =
        let (d', ran, held) =
          set_value_written fl lawful vars room ts d h t (loaded fl lawful vars t) v refl
            (write_tuple-loaded fl lawful vars t v) in
        let code = if has_key fl t.key ts then minus_one else pos 0 in
        let small : IsInt code = IsInt-refused (has_key fl t.key ts) in
        let served : tratar_peticion fl vars (map byte (codes "2" ++ 0 ∷ tuple_text fl t)) d
            ≡ done (print_int code ++ 0 ∷ [], d') =
          rw
            (
              tratar_peticion-operation fl vars (codes "2") (tuple_text fl t) d (omega arith)
                  (omega arith),
              atoi_set,
              receive_tuple_lem fl lawful t vars (codes "2") v line sends room,
            )
            (reply_lem fl _ code d' small ran) in
        (
          d',
          rw
              (
                valid_request left1 left2 h1 h2,
                tuple_request_lem fl lawful (codes "2") t more v sends,
                served,
                read_result-print_int code small,
              )
              refl,
          held,
        )

    -- `modify_value` of the proxy, under the same conditions: the server puts the tuple in the
    -- place of the one of its key, at the end of the store, and the proxy returns 0; or there is
    -- none of that key, the store stays, and the proxy returns -1.
    pub modify_value_remote :
        (left1 left2 : ℤ)
        → int_eq left1 minus_one ≡ false
        → int_eq left2 minus_one ≡ false
        → (d' : Disk) × (modify_value fl left1 left2 true
              (store_server fl vars)
              (arguments fl t more)
              d
            ≡ done (if has_key fl t.key ts then pos 0 else minus_one, d'))
          × Holds fl (if has_key fl t.key ts then without fl t.key ts ++ t ∷ [] else ts) d'
    unfolding modify_value operation send_tuple_request
    modify_value_remote left1 left2 h1 h2 =
        let (d', ran, held) =
          modify_value_written fl lawful vars room ts d h t (loaded fl lawful vars t) v refl
            (write_tuple-loaded fl lawful vars t v) in
        let code = if has_key fl t.key ts then pos 0 else minus_one in
        let small : IsInt code = IsInt-code (has_key fl t.key ts) in
        let served : tratar_peticion fl vars (map byte (codes "4" ++ 0 ∷ tuple_text fl t)) d
            ≡ done (print_int code ++ 0 ∷ [], d') =
          rw
            (
              tratar_peticion-operation fl vars (codes "4") (tuple_text fl t) d (omega arith)
                  (omega arith),
              atoi_modify,
              receive_tuple_lem fl lawful t vars (codes "4") v line sends room,
            )
            (reply_lem fl _ code d' small ran) in
        (
          d',
          rw
              (
                valid_request left1 left2 h1 h2,
                tuple_request_lem fl lawful (codes "4") t more v sends,
                served,
                read_result-print_int code small,
              )
              refl,
          held,
        )
