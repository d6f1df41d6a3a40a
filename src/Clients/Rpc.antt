-- ===== src/Clients/Rpc.antt =====
-- The clients of ejercicio_evaluable_3: the operations of proxy-rpc.c, over remote calls that are
-- delivered to servidor-rpc.c, offer what the clients rely on.
use trabajos_sistemas_distri.Base.{
  ◌≤◌, ◌<◌, lt→ltb, Bool, true, false, none, some, List, ◌≡◌, refl, subst, ap, if◌then◌else◌, Bytes,
  ℤ, pos, minus_one, int_eq, length, inl, inr,
}
use trabajos_sistemas_distri.Stdio.Run.{done}
use trabajos_sistemas_distri.Stdio.Disk.{Disk}
use trabajos_sistemas_distri.Claves.Floats.{Floats, IsLawful}
use trabajos_sistemas_distri.Claves.Tuples.{max_str, max_vec, rounds, Tuple}
use trabajos_sistemas_distri.Claves.Tuples.Loops.{has_key, lookup}
use trabajos_sistemas_distri.Claves.Store.Refines.{destroy_lem, exist_lem}
use trabajos_sistemas_distri.Rpc.{rpc_destroy, rpc_set_value, rpc_modify_value, rpc_get_value}
use trabajos_sistemas_distri.Rpc.Proxy
use trabajos_sistemas_distri.Rpc.Proxy.{Outcome, returned, exited, Client}
use trabajos_sistemas_distri.Rpc.Calls.{delivered, CanCall-still, called}
use trabajos_sistemas_distri.Rpc.Keys.{delete_key_called, exist_called, get_value_called}
use trabajos_sistemas_distri.Rpc.Remote.{set_value_called, modify_value_called}
use trabajos_sistemas_distri.Clients.Program.{
  Request, destroy, exist, set_value, modify_value, delete_key, get_value,
}
use trabajos_sistemas_distri.Clients.Behind.{call_proxy, Serves}
use trabajos_sistemas_distri.Clients.Contract.{
  exact, is_rejected, serve, Acceptable, rejected, fits, Allowed, IsStore,
}
use trabajos_sistemas_distri.Sock.Server.{get_existing}
use trabajos_sistemas_distri.Clients.Lookup.{
  Option-cases, lookup-IsTuple, has_key-lookup, exact-read, copy_loop-ends,
}
use trabajos_sistemas_distri.Clients.Arguments.{
  spare, arguments-exact, fits-not_rejected, rejected-invalid,
}

module _ (fl : Floats) where
  open fl use {Float}

  module _ (clnt_create : Bytes → Bool) (left1 left2 : ℤ) (vars old out : Tuple Float) where
    module _ (lawful : IsLawful fl) (room : length vars.v_value2 ≡ max_vec)
        (counted : rounds vars.n_value2 ≤ max_vec) (ended : length vars.value1 < max_str)
        (room_old : length old.v_value2 ≡ max_vec) (room_out : length out.v_value2 ≡ max_vec)
        (h1 : int_eq left1 minus_one ≡ false) (h2 : int_eq left2 minus_one ≡ false)
        (ts : List (Tuple Float)) (c : Client fl) (d : Disk)
        (h : Serves fl clnt_create left1 left2 vars old out ts (c, d)) where
      -- What it is that the operation `r` does as the list does.
      abbrev IsServed : Request Float → Type 0
      IsServed r =
          (s : Client fl × Disk) × (call_proxy fl clnt_create left1 left2 vars old out r (c, d)
            ≡ done (returned ((serve fl r ts).0, s)))
          × Serves fl clnt_create left1 left2 vars old out (serve fl r ts).1 s

      destroy-IsServed : IsServed destroy
      unfolding call_proxy serve Proxy.destroy rpc_destroy
      destroy-IsServed =
          let can = h.can in
          let (d1, ran, held) = destroy_lem fl d h.holds.readable h.holds.writable h.holds.temp in
          (
            (record (called fl can) { result_1 = pos 0 }, d1),
            rw (can.known, can.up, ran) refl,
            record { can = CanCall-still fl can _ refl can.set_room can.modify_room; holds = held },
          )

      exist-IsServed : (key : ℤ) → IsServed (exist key)
      unfolding call_proxy serve
      exist-IsServed key =
          let (c1, ran, can1) =
            exist_called fl lawful vars room clnt_create c h.can ts d h.holds key in
          ((c1, d), ran, record { can = can1; holds = h.holds })

      delete_key-IsServed : (key : ℤ) → IsServed (delete_key key)
      unfolding call_proxy serve
      delete_key-IsServed key =
          let (c1, d1, ran, can1, _, held) =
            delete_key_called fl lawful vars room clnt_create c h.can ts d h.holds key in
          ((c1, d1), ran, record { can = can1; holds = held })

      set_value-rejected : (u : Tuple Float) → is_rejected fl u ≡ true → IsServed (set_value u)
      unfolding call_proxy serve Proxy.set_value
      set_value-rejected u e = ((c, d), rw (rejected-invalid fl u left1 left2 h1 e, e) refl, rw e h)

      set_value-IsServed : (u : Tuple Float) → Acceptable fl u → IsServed (set_value u)
      unfolding call_proxy serve
      set_value-IsServed u (rejected e) = set_value-rejected u e
      set_value-IsServed u (fits v p) =
          let (c1, d1, ran, can1, held) =
            set_value_called fl lawful vars room clnt_create c h.can ts d h.holds left1 left2
              (exact fl u) (spare fl u) h1 h2 v p in
          (
            (c1, d1),
            rw (fits-not_rejected fl u v p) (
                subst
                  (λ w.
                    Proxy.set_value fl clnt_create left1 left2
                      (λ aux. delivered (rpc_set_value fl vars aux)) w c d
                    ≡ done (returned (if has_key fl u.key ts then minus_one else pos 0, (c1, d1))))
                  (arguments-exact fl u) ran),
            rw (fits-not_rejected fl u v p) (record { can = can1; holds = held }),
          )

      modify_value-rejected :
          (u : Tuple Float) → is_rejected fl u ≡ true → IsServed (modify_value u)
      unfolding call_proxy serve Proxy.modify_value
      modify_value-rejected u e =
          ((c, d), rw (rejected-invalid fl u left1 left2 h1 e, e) refl, rw e h)

      modify_value-IsServed : (u : Tuple Float) → Acceptable fl u → IsServed (modify_value u)
      unfolding call_proxy serve
      modify_value-IsServed u (rejected e) = modify_value-rejected u e
      modify_value-IsServed u (fits v p) =
          let (c1, d1, ran, can1, held) =
            modify_value_called fl lawful vars room clnt_create c h.can ts d h.holds left1 left2
              (exact fl u) (spare fl u) h1 h2 v p in
          (
            (c1, d1),
            rw (fits-not_rejected fl u v p) (
                subst
                  (λ w.
                    Proxy.modify_value fl clnt_create left1 left2
                      (λ aux. delivered (rpc_modify_value fl vars aux)) w c d
                    ≡ done (returned (if has_key fl u.key ts then pos 0 else minus_one, (c1, d1))))
                  (arguments-exact fl u) ran),
            rw (fits-not_rejected fl u v p) (record { can = can1; holds = held }),
          )

      get_value-absent : (key : ℤ) → lookup fl key ts ≡ none → IsServed (get_value key)
      unfolding call_proxy serve Proxy.get_value rpc_get_value get_existing
      get_value-absent key e =
          let can = h.can in
          let gone = has_key-lookup fl key ts e in
          let (vs, ran, l) =
            copy_loop-ends fl (rounds vars.n_value2) vars.v_value2 old.v_value2 (rw room counted)
              (rw room_old counted) in
          let (ws, ran2, _) =
            copy_loop-ends fl (rounds vars.n_value2) vs out.v_value2 (rw (l, room_old) counted)
              (rw room_out counted) in
          (
            (
              record (called fl can) { result_3 = record vars { key = minus_one; v_value2 = vs } },
              d,
            ),
            rw
                (
                  can.known,
                  can.up,
                  exist_lem fl lawful vars room ts d h.holds key,
                  gone,
                  lt→ltb _ _ ended,
                  ran,
                  lt→ltb _ _ ended,
                  ran2,
                  e,
                )
                refl,
            record {
              can = CanCall-still fl can _ refl can.set_room can.modify_room;
              holds = h.holds;
            },
          )

      get_value-present :
          (key : ℤ) (t : Tuple Float) → lookup fl key ts ≡ some t → IsServed (get_value key)
      unfolding call_proxy serve
      get_value-present key t e =
          let (v, k) = lookup-IsTuple fl key t ts h.holds.valid e in
          let (c1, ran, can1) =
            get_value_called fl lawful vars room clnt_create c h.can ts d h.holds key old out t e v
              room_old (rw room_out v.fits) in
          (
            (c1, d),
            rw (ran, e) (ap (λ w. done (returned (some w, (c1, d)))) (exact-read fl key t _ v k)),
            record { can = can1; holds = h.holds },
          )

      get_value-IsServed : (key : ℤ) → IsServed (get_value key)
      get_value-IsServed key = elim (Option-cases (lookup fl key ts)) [
        | inl e ↦ get_value-absent key e
        | inr (t, e) ↦ get_value-present key t e
      ]

      call_proxy-IsServed : (r : Request Float) → Allowed fl r → IsServed r
      call_proxy-IsServed destroy ok = destroy-IsServed
      call_proxy-IsServed (exist key) ok = exist-IsServed key
      call_proxy-IsServed (set_value u) ok = set_value-IsServed u ok
      call_proxy-IsServed (modify_value u) ok = modify_value-IsServed u ok
      call_proxy-IsServed (delete_key key) ok = delete_key-IsServed key
      call_proxy-IsServed (get_value key) ok = get_value-IsServed key

    -- The operations of the proxy, over remote calls that are delivered to the server, offer what
    -- the clients rely on, with a client that can call and a server whose disk holds the tuples:
    -- every allowed call comes back with the answer of the list, and the client can call again, and
    -- the disk holds the list afterwards. The arrays of the server and of the client have room for
    -- 32 components and 256 bytes, nothing more is asked of a tuple, what the two tests of the
    -- proxy leave is not -1, and what the variables of the server for `get_value` hold at the
    -- start, which it copies for a key that is not there, is a text that ends within its array and
    -- a count of at most 32.
    pub call_proxy-IsStore :
        IsLawful fl
        → length vars.v_value2 ≡ max_vec
        → rounds vars.n_value2 ≤ max_vec
        → length vars.value1 < max_str
        → length old.v_value2 ≡ max_vec
        → length out.v_value2 ≡ max_vec
        → int_eq left1 minus_one ≡ false
        → int_eq left2 minus_one ≡ false
        → IsStore fl
            (λ t. Unit)
            (call_proxy fl clnt_create left1 left2 vars old out)
            (Serves fl clnt_create left1 left2 vars old out)
    call_proxy-IsStore lawful room counted ended room_old room_out h1 h2 = record {
      served = λ r ts (c, d) ok given h.
          call_proxy-IsServed lawful room counted ended room_old room_out h1 h2 ts c d h r ok;
    }
