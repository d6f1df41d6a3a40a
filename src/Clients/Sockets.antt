-- ===== src/Clients/Sockets.antt =====
-- The clients of ejercicio_evaluable_2: the operations of proxy-sock.c, with servidor-sock.c at the
-- other end of each connection, offer what the clients rely on.
use trabajos_sistemas_distri.Base.{
  true, false, some, List, [], ◌∷◌, ◌++◌, ◌≡◌, refl, subst, ap, if◌then◌else◌, ℤ, pos, minus_one,
  int_eq, IsInt, length, All-append, inl, inr, codes, arith,
}
use trabajos_sistemas_distri.Stdio.Run.{done}
use trabajos_sistemas_distri.Stdio.Decimal.{atoi, is_digit}
use trabajos_sistemas_distri.Stdio.Disk.{Disk}
use trabajos_sistemas_distri.Claves.Floats.{Floats, IsLawful}
use trabajos_sistemas_distri.Claves.Tuples.{max_vec, Tuple}
use trabajos_sistemas_distri.Claves.Tuples.Loops.{has_key, lookup}
use trabajos_sistemas_distri.Claves.Store.Holds.{without, All-without}
use trabajos_sistemas_distri.Claves.Store.Refines.{destroy_lem}
use trabajos_sistemas_distri.Sock.Server.{operation}
use trabajos_sistemas_distri.Sock.Proxy
use trabajos_sistemas_distri.Sock.Proxy.{send_tuple_request}
use trabajos_sistemas_distri.Sock.Texts.{
  read_result-print_int, reply_lem, tratar_peticion-operation, store_server,
}
use trabajos_sistemas_distri.Sock.Keys.{exist_remote, delete_key_remote}
use trabajos_sistemas_distri.Sock.Remote.{set_value_remote, modify_value_remote}
use trabajos_sistemas_distri.Sock.Reply.{IsSent}
use trabajos_sistemas_distri.Sock.Get.{get_value_remote, get_value_remote-absent}
use trabajos_sistemas_distri.Rpc.Proxy.{returned}
use trabajos_sistemas_distri.Clients.Program.{
  Request, destroy, exist, set_value, modify_value, delete_key, get_value,
}
use trabajos_sistemas_distri.Clients.Behind.{HasLines, HoldsLines, call_sockets}
use trabajos_sistemas_distri.Clients.Contract.{
  exact, serve, Acceptable, rejected, fits, Allowed, Gives, IsStore,
}
use trabajos_sistemas_distri.Clients.Lookup.{
  Option-cases, if-All, lookup-All, lookup-IsTuple, has_key-lookup, exact-read,
}
use trabajos_sistemas_distri.Clients.Arguments.{
  spare, arguments-exact, fits-not_rejected, rejected-invalid,
}

atoi_destroy : atoi (codes "1") ≡ pos 1
unfolding atoi is_digit
atoi_destroy = refl

module _ (fl : Floats) where
  open fl use {Float}

  module _ (left1 left2 : ℤ) (vars out : Tuple Float) where
    module _ (lawful : IsLawful fl) (room : length vars.v_value2 ≡ max_vec)
        (shown : IsSent fl (exact fl vars)) (room_out : length out.v_value2 ≡ max_vec)
        (h1 : int_eq left1 minus_one ≡ false) (h2 : int_eq left2 minus_one ≡ false)
        (ts : List (Tuple Float)) (d : Disk) (h : HoldsLines fl ts d) where
      -- What it is that the operation `r` does as the list does.
      abbrev IsConnected : Request Float → Type 0
      IsConnected r =
          (d' : Disk) × (call_sockets fl left1 left2 vars out r d
            ≡ done (returned ((serve fl r ts).0, d')))
          × HoldsLines fl (serve fl r ts).1 d'

      destroy-IsConnected : IsConnected destroy
      unfolding call_sockets serve Proxy.destroy operation
      destroy-IsConnected =
          let (d1, ran, held) = destroy_lem fl d h.holds.readable h.holds.writable h.holds.temp in
          let served =
            tratar_peticion-operation fl vars (codes "1") [] d (omega arith) (omega arith) in
          (
            d1,
            rw
                (
                  served,
                  atoi_destroy,
                  reply_lem fl _ (pos 0) d1 (omega arith) (ap done ran),
                  read_result-print_int (pos 0) (omega arith),
                )
                refl,
            record { holds = held; lines = tt },
          )

      exist-IsConnected : (key : ℤ) → IsInt key → IsConnected (exist key)
      unfolding call_sockets serve
      exist-IsConnected key hk =
          (d, rw (exist_remote fl lawful vars room ts d h.holds key hk) refl, h)

      delete_key-IsConnected : (key : ℤ) → IsInt key → IsConnected (delete_key key)
      unfolding call_sockets serve
      delete_key-IsConnected key hk =
          let (d1, ran, held) = delete_key_remote fl lawful vars room ts d h.holds key hk in
          (
            d1,
            rw ran refl,
            record {
              holds = held;
              lines =
                  if-All fl (HasLines fl) (has_key fl key ts) (without fl key ts) ts
                    (All-without fl (HasLines fl) key ts h.lines) h.lines;
            },
          )

      set_value-IsConnected :
          (u : Tuple Float)
          → Acceptable fl u
          → Gives fl (HasLines fl) (set_value u)
          → IsConnected (set_value u)
      unfolding call_sockets serve Proxy.set_value send_tuple_request
      set_value-IsConnected u (rejected e) given =
          (d, rw (rejected-invalid fl u left1 left2 h1 e, e) refl, rw e h)
      set_value-IsConnected u (fits v p) given =
          let fine = fits-not_rejected fl u v p in
          let l = given fine in
          let (d1, ran, held) =
            set_value_remote fl lawful vars room ts d h.holds (exact fl u) v l.line l.sends p
              (spare fl u) left1 left2 h1 h2 in
          let ran1 : Proxy.set_value fl left1 left2 true (store_server fl vars) u d
              ≡ done (if has_key fl u.key ts then minus_one else pos 0, d1) =
            subst
              (λ w.
                Proxy.set_value fl left1 left2 true (store_server fl vars) w d
                ≡ done (if has_key fl u.key ts then minus_one else pos 0, d1))
              (arguments-exact fl u) ran in
          (
            d1,
            rw (fine, ran1) refl,
            rw fine (record {
              holds = held;
              lines =
                  if-All fl (HasLines fl) (has_key fl u.key ts) ts (ts ++ exact fl u ∷ []) h.lines
                    (All-append (HasLines fl) ts (exact fl u ∷ []) h.lines (l, tt));
            }),
          )

      modify_value-IsConnected :
          (u : Tuple Float)
          → Acceptable fl u
          → Gives fl (HasLines fl) (modify_value u)
          → IsConnected (modify_value u)
      unfolding call_sockets serve Proxy.modify_value send_tuple_request
      modify_value-IsConnected u (rejected e) given =
          (d, rw (rejected-invalid fl u left1 left2 h1 e, e) refl, rw e h)
      modify_value-IsConnected u (fits v p) given =
          let fine = fits-not_rejected fl u v p in
          let l = given fine in
          let (d1, ran, held) =
            modify_value_remote fl lawful vars room ts d h.holds (exact fl u) v l.line l.sends p
              (spare fl u) left1 left2 h1 h2 in
          let ran1 : Proxy.modify_value fl left1 left2 true (store_server fl vars) u d
              ≡ done (if has_key fl u.key ts then pos 0 else minus_one, d1) =
            subst
              (λ w.
                Proxy.modify_value fl left1 left2 true (store_server fl vars) w d
                ≡ done (if has_key fl u.key ts then pos 0 else minus_one, d1))
              (arguments-exact fl u) ran in
          let rest = without fl u.key ts in
          (
            d1,
            rw (fine, ran1) refl,
            rw fine (record {
              holds = held;
              lines =
                  if-All fl (HasLines fl) (has_key fl u.key ts) (rest ++ exact fl u ∷ []) ts
                    (All-append (HasLines fl) rest (exact fl u ∷ [])
                      (All-without fl (HasLines fl) u.key ts h.lines) (l, tt))
                    h.lines;
            }),
          )

      get_value-IsConnected : (key : ℤ) → IsInt key → IsConnected (get_value key)
      unfolding call_sockets serve
      get_value-IsConnected key hk = elim (Option-cases (lookup fl key ts)) [
        | inl e ↦
            let got =
              get_value_remote-absent fl lawful vars room ts d h.holds key (exact fl vars)
                (record out { key = key }) (spare fl vars) hk (has_key-lookup fl key ts e) shown
                (arguments-exact fl vars) (rw room_out shown.fits) in
            (d, rw (got, e) refl, h)
        | inr (t, e) ↦
            let (v, k) = lookup-IsTuple fl key t ts h.holds.valid e in
            let (l, _) = lookup-All fl (HasLines fl) key t ts h.lines e in
            let got =
              get_value_remote fl lawful vars room ts d h.holds key t (record out { key = key }) hk
                e v l.line l.sends (rw room_out v.fits) in
            (d, rw (got, e) (ap (λ w. done (returned (some w, d))) (exact-read fl key t _ v k)), h)
      ]

      call_sockets-IsConnected :
          (r : Request Float) → Allowed fl r → Gives fl (HasLines fl) r → IsConnected r
      call_sockets-IsConnected destroy ok given = destroy-IsConnected
      call_sockets-IsConnected (exist key) ok given = exist-IsConnected key ok
      call_sockets-IsConnected (set_value u) ok given = set_value-IsConnected u ok given
      call_sockets-IsConnected (modify_value u) ok given = modify_value-IsConnected u ok given
      call_sockets-IsConnected (delete_key key) ok given = delete_key-IsConnected key ok
      call_sockets-IsConnected (get_value key) ok given = get_value-IsConnected key ok

    -- The operations of the proxy, over connections that are made and with the server at the other
    -- end, offer what the clients rely on, of tuples whose texts are lines: every allowed call
    -- comes back with the answer of the list, and the server's disk holds the list afterwards. The
    -- arrays of the server and of the client have room for 32 components, the variables of the
    -- server hold what can be sent, as it sends them for a key that is not there, and what the two
    -- tests of the proxy leave is not -1.
    pub call_sockets-IsStore :
        IsLawful fl
        → length vars.v_value2 ≡ max_vec
        → IsSent fl (exact fl vars)
        → length out.v_value2 ≡ max_vec
        → int_eq left1 minus_one ≡ false
        → int_eq left2 minus_one ≡ false
        → IsStore fl (HasLines fl) (call_sockets fl left1 left2 vars out) (HoldsLines fl)
    call_sockets-IsStore lawful room shown room_out h1 h2 = record {
      served = λ r ts d ok given h.
          call_sockets-IsConnected lawful room shown room_out h1 h2 ts d h r ok given;
    }
