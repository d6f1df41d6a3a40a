-- ===== src/Sock/Get.antt =====
-- GET VALUE of ejercicio_evaluable_2, and a tuple that is set and got back over connections.
use trabajos_sistemas_distri.Base.{
  ◌≤◌, ◌<◌, true, false, some, List, [], ◌∷◌, ◌++◌, ◌≡◌, refl, codes, ℤ, pos, minus_one, int_eq,
  IsInt, length, map, drop, arith,
}
use trabajos_sistemas_distri.Stdio.Run.{done}
use trabajos_sistemas_distri.Stdio.Decimal.{print_int, atoi, is_digit}
use trabajos_sistemas_distri.Stdio.Disk.{Disk}
use trabajos_sistemas_distri.Sockets.{byte}
use trabajos_sistemas_distri.Sockets.Reading.{IsLine}
use trabajos_sistemas_distri.Claves.Floats.{Floats, IsLawful}
use trabajos_sistemas_distri.Claves.Tuples.{max_vec, Tuple}
use trabajos_sistemas_distri.Claves.Tuples.Print.{IsTuple, loaded}
use trabajos_sistemas_distri.Claves.Tuples.Loops.{has_key}
use trabajos_sistemas_distri.Claves.Store.Holds.{Holds}
use trabajos_sistemas_distri.Claves.Store.Refines.{exist_lem}
use trabajos_sistemas_distri.Sock.Server.{operation, tratar_peticion}
use trabajos_sistemas_distri.Sock.Proxy.{key_request, set_value}
use trabajos_sistemas_distri.Sock.Texts.{
  atoi-print_int, printed-print_int, read_into-int, tratar_peticion-operation, store_server,
}
use trabajos_sistemas_distri.Sock.Tuples.{Sends}
use trabajos_sistemas_distri.Claves.Tuples.Loops.{lookup, Found}
use trabajos_sistemas_distri.Claves.Tuples.Print.{loaded}
use trabajos_sistemas_distri.Claves.Store.Holds.{lookup-append}
use trabajos_sistemas_distri.Claves.Store.Refines.{get_value_lem}
use trabajos_sistemas_distri.Sock.Server.{get_existing, send_tuple, serve_get}
use trabajos_sistemas_distri.Sock.Proxy.{get_value}
use trabajos_sistemas_distri.Sock.Remote.{set_value_remote}
use trabajos_sistemas_distri.Base.{subst}
use trabajos_sistemas_distri.Claves.Tuples.Print.{arguments}
use trabajos_sistemas_distri.Sock.Tuples.{send_values-append}
use trabajos_sistemas_distri.Sock.Reply.{
  IsSent, IsTuple-IsSent, reply_text, send_values-rounded, send_tuple_lem, read_over,
  receive_reply_lem,
}

atoi_get : atoi (codes "3") ≡ pos 3
unfolding atoi is_digit
atoi_get = refl

module _ (fl : Floats) where
  open fl use {Float, print, atof, rounded}

  module _ (lawful : IsLawful fl) (vars : Tuple Float) (room : length vars.v_value2 ≡ max_vec)
      (ts : List (Tuple Float)) (d : Disk) (h : Holds fl ts d) where
    serve_get_lem :
        (key : ℤ) (t : Tuple Float)
        → IsInt key
        → lookup fl key ts ≡ some t
        → IsSent fl t
        → tratar_peticion fl vars (map byte (codes "3" ++ 0 ∷ (print_int key ++ 0 ∷ []))) d
          ≡ done (reply_text fl (pos 0) t, d)
    unfolding operation serve_get get_existing
    serve_get_lem key t hk e v =
        let (l, got, found) = get_value_lem fl lawful vars room ts d h key in
        let (there, before, _, is) : Found fl lawful (some t) (has_key fl key ts, l) =
          rw e at found in
        let got1 : trabajos_sistemas_distri.Claves.Store.get_value fl key vars d
            ≡ done (pos 0, loaded fl lawful before t) =
          rw (there, is) at got in
        rw
          (
            tratar_peticion-operation fl vars (codes "3") (print_int key ++ 0 ∷ []) d (omega arith)
                (omega arith),
            atoi_get,
            read_into-int (some (codes "3")) key [] hk,
            atoi-print_int key hk,
            exist_lem fl lawful vars room ts d h key,
            there,
            got1,
            send_tuple_lem fl (pos 0) t (loaded fl lawful before t) (omega arith) v refl refl refl (
                send_values-rounded fl lawful t.v_value2 (drop (length t.v_value2) before.v_value2)
                  v.sends),
          )
          refl

    serve_get-absent :
        (key : ℤ) (held : Tuple Float) (more : List Float)
        → IsInt key
        → has_key fl key ts ≡ false
        → IsSent fl held
        → arguments fl held more ≡ vars
        → tratar_peticion fl vars (map byte (codes "3" ++ 0 ∷ (print_int key ++ 0 ∷ []))) d
          ≡ done (reply_text fl minus_one held, d)
    unfolding operation serve_get get_existing
    serve_get-absent key held more hk gone v e =
        let sent : send_tuple fl minus_one vars ≡ done (reply_text fl minus_one held) =
          subst (λ w. send_tuple fl minus_one w ≡ done (reply_text fl minus_one held)) e
            (send_tuple_lem fl minus_one held (arguments fl held more) (omega arith) v refl refl
              refl (send_values-append fl held.v_value2 more v.sends)) in
        rw
          (
            tratar_peticion-operation fl vars (codes "3") (print_int key ++ 0 ∷ []) d (omega arith)
                (omega arith),
            atoi_get,
            read_into-int (some (codes "3")) key [] hk,
            atoi-print_int key hk,
            exist_lem fl lawful vars room ts d h key,
            gone,
            sent,
          )
          refl

    -- For a key that is not there the server sends what its variables hold, and -1.
    pub get_value_remote-absent :
        (key : ℤ) (held out : Tuple Float) (more : List Float)
        → IsInt key
        → has_key fl key ts ≡ false
        → IsSent fl held
        → arguments fl held more ≡ vars
        → length held.v_value2 ≤ length out.v_value2
        → get_value fl true (store_server fl vars) key out d
          ≡ done ((minus_one, read_over fl key held out), d)
    unfolding get_value key_request
    get_value_remote-absent key held out more hk gone v e fits =
        rw
          (
            printed-print_int key hk,
            serve_get-absent key held more hk gone v e,
            receive_reply_lem fl lawful minus_one key held out (print_int key) (omega arith) v fits,
          )
          refl

    -- `get_value` of the proxy, connected to a server whose store has the key, with a tuple whose
    -- texts are lines: it returns 0 and sets the caller's variables to the text, the count and the
    -- coordinate of the tuple, and to its components rounded as `%lf` rounds.
    pub get_value_remote :
        (key : ℤ) (t out : Tuple Float)
        → IsInt key
        → lookup fl key ts ≡ some t
        → IsTuple fl t
        → IsLine t.value1
        → Sends fl t.v_value2
        → length t.v_value2 ≤ length out.v_value2
        → get_value fl true (store_server fl vars) key out d
          ≡ done (
            (
              pos 0,
              record t {
                key = key;
                v_value2 = map rounded t.v_value2 ++ drop (length t.v_value2) out.v_value2;
              },
            ),
            d,
          )
    unfolding get_value key_request
    get_value_remote key t out hk e v line sends fits =
        rw
          (
            printed-print_int key hk,
            serve_get_lem key t hk e (IsTuple-IsSent fl t v line sends),
            receive_reply_lem fl lawful (pos 0) key t out (print_int key) (omega arith)
                (IsTuple-IsSent fl t v line sends) fits,
          )
          refl

  module _ (lawful : IsLawful fl) (vars : Tuple Float) (room : length vars.v_value2 ≡ max_vec)
      (ts : List (Tuple Float)) (d : Disk) (h : Holds fl ts d) where
    -- After `set_value` of the proxy of a tuple with a new key and 1 to 32 components, whose texts
    -- are lines, `get_value` of the proxy, connected to the same server afterwards, returns 0 and
    -- sets the caller's variables to its text, its count and its coordinate as they were given, and
    -- to its components rounded as `%lf` rounds.
    pub get_value-set_value_remote :
        (left1 left2 : ℤ) (t out : Tuple Float) (more : List Float)
        → int_eq left1 minus_one ≡ false
        → int_eq left2 minus_one ≡ false
        → IsTuple fl t
        → IsLine t.value1
        → Sends fl t.v_value2
        → 0 < length t.v_value2
        → has_key fl t.key ts ≡ false
        → length t.v_value2 ≤ length out.v_value2
        → (d' : Disk) × (set_value fl left1 left2 true
              (store_server fl vars)
              (arguments fl t more)
              d
            ≡ done (pos 0, d'))
          × (get_value fl true (store_server fl vars) t.key out d'
              ≡ done (
                (
                  pos 0,
                  record t {
                    v_value2 = map rounded t.v_value2 ++ drop (length t.v_value2) out.v_value2;
                  },
                ),
                d',
              ))
    get_value-set_value_remote left1 left2 t out more h1 h2 v line sends some_values new fits =
        let (d1, set, held) =
          set_value_remote fl lawful vars room ts d h t v line sends some_values more left1 left2 h1
            h2 in
        let held1 : Holds fl (ts ++ t ∷ []) d1 = rw new at held in
        (
          d1,
          rw new at set,
          get_value_remote lawful vars room (ts ++ t ∷ []) d1 held1 t.key t out v.key
              (lookup-append fl t ts new) v line sends fits,
        )
