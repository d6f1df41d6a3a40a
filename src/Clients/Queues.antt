-- ===== src/Clients/Queues.antt =====
-- The clients of ejercicio_evaluable_1: the operations of proxy-mq.c, on queues where every call
-- succeeds and with servidor-mq.c at the other end, offer what the clients rely on.
use trabajos_sistemas_distri.Base.{
  [], ◌∷◌, ◌++◌, Bytes, All-append, ◌||◌, Bool, true, false, some, List, ◌≡◌, refl, subst, ap, ltb,
  if◌then◌else◌, ℤ, pos, minus_one, length, inl, inr,
}
use trabajos_sistemas_distri.Stdio.Run.{done}
use trabajos_sistemas_distri.Stdio.Disk.{Disk}
use trabajos_sistemas_distri.Claves.Floats.{Floats, IsLawful}
use trabajos_sistemas_distri.Claves.Tuples.{max_str, max_vec, Tuple}
use trabajos_sistemas_distri.Claves.Tuples.Loops.{has_key, lookup}
use trabajos_sistemas_distri.Claves.Store.Holds.{without, All-without}
use trabajos_sistemas_distri.Claves.Store.Refines.{destroy_lem}
use trabajos_sistemas_distri.Mq.Proxy
use trabajos_sistemas_distri.Mq.Proxy.{d_send_receive, blank}
use trabajos_sistemas_distri.Mq.Server.{tratar_peticion}
use trabajos_sistemas_distri.Mq.Remote.{store_queues, set_value_queued, modify_value_queued}
use trabajos_sistemas_distri.Mq.Get.{
  delete_key_queued, exist_queued, get_value_queued, get_value_queued-absent,
}
use trabajos_sistemas_distri.Rpc.Proxy.{returned}
use trabajos_sistemas_distri.Clients.Program.{
  Request, destroy, exist, set_value, modify_value, delete_key, get_value,
}
use trabajos_sistemas_distri.Clients.Behind.{EndsEarly, HoldsEarly, call_queues}
use trabajos_sistemas_distri.Clients.Contract.{
  out_of_range, exact, is_rejected, serve, Acceptable, rejected, fits, Allowed, Gives, IsStore,
}
use trabajos_sistemas_distri.Clients.Lookup.{
  if-All, lookup-All, Option-cases, lookup-IsTuple, has_key-lookup, exact-read,
}
use trabajos_sistemas_distri.Clients.Arguments.{spare, arguments-exact, fits-not_rejected}

or_comm : (a b : Bool) → (a || b) ≡ (b || a)
or_comm true true = refl
or_comm true false = refl
or_comm false true = refl
or_comm false false = refl

module _ (fl : Floats) where
  open fl use {Float}

  module _ (zero_float : Float) (pid : ℤ) (behind : Bytes) (vars out : Tuple Float) where
    module _ (lawful : IsLawful fl) (room : length vars.v_value2 ≡ max_vec)
        (room_out : length out.v_value2 ≡ max_vec) (ts : List (Tuple Float)) (d : Disk)
        (h : HoldsEarly fl ts d) where
      -- What it is that the operation `r` does as the list does.
      abbrev IsQueued : Request Float → Type 0
      IsQueued r =
          (d' : Disk) × (call_queues fl zero_float pid behind vars out r d
            ≡ done (returned ((serve fl r ts).0, d')))
          × HoldsEarly fl (serve fl r ts).1 d'

      destroy-IsQueued : IsQueued destroy
      unfolding call_queues serve Proxy.destroy d_send_receive tratar_peticion blank
      destroy-IsQueued =
          let (d1, ran, held) = destroy_lem fl d h.holds.readable h.holds.writable h.holds.temp in
          (d1, rw ran refl, record { holds = held; early = tt })

      exist-IsQueued : (key : ℤ) → IsQueued (exist key)
      unfolding call_queues serve
      exist-IsQueued key =
          (d, rw (exist_queued fl zero_float lawful pid vars room ts d h.holds key) refl, h)

      delete_key-IsQueued : (key : ℤ) → IsQueued (delete_key key)
      unfolding call_queues serve
      delete_key-IsQueued key =
          let (d1, ran, held) =
            delete_key_queued fl zero_float lawful pid vars room ts d h.holds key in
          (
            d1,
            rw ran refl,
            record {
              holds = held;
              early =
                  if-All fl (EndsEarly fl) (has_key fl key ts) (without fl key ts) ts
                    (All-without fl (EndsEarly fl) key ts h.early) h.early;
            },
          )

      set_value-turned_down : (u : Tuple Float) → is_rejected fl u ≡ true → IsQueued (set_value u)
      unfolding call_queues serve Proxy.set_value
      set_value-turned_down u e = (
        d,
        rw (or_comm (out_of_range u.n_value2) (ltb max_str (length u.value1)), e) refl,
        rw e h,
      )

      set_value-IsQueued :
          (u : Tuple Float)
          → Acceptable fl u
          → Gives fl (EndsEarly fl) (set_value u)
          → IsQueued (set_value u)
      unfolding call_queues serve
      set_value-IsQueued u (rejected e) given = set_value-turned_down u e
      set_value-IsQueued u (fits v p) given =
          let fine = fits-not_rejected fl u v p in
          let short = given fine in
          let (d1, ran, held) =
            set_value_queued fl zero_float lawful pid vars room ts d h.holds (exact fl u)
              (spare fl u) v p in
          let ran1 : Proxy.set_value fl zero_float (store_queues fl pid vars) u d
              ≡ done (if has_key fl u.key ts then minus_one else pos 0, d1) =
            subst
              (λ w.
                Proxy.set_value fl zero_float (store_queues fl pid vars) w d
                ≡ done (if has_key fl u.key ts then minus_one else pos 0, d1))
              (arguments-exact fl u) ran in
          (
            d1,
            rw (fine, ran1) refl,
            rw fine (record {
              holds = held;
              early =
                  if-All fl (EndsEarly fl) (has_key fl u.key ts) ts (ts ++ exact fl u ∷ []) h.early
                    (All-append (EndsEarly fl) ts (exact fl u ∷ []) h.early (short, tt));
            }),
          )

      modify_value-turned_down :
          (u : Tuple Float) → is_rejected fl u ≡ true → IsQueued (modify_value u)
      unfolding call_queues serve Proxy.modify_value
      modify_value-turned_down u e = (
        d,
        rw (or_comm (out_of_range u.n_value2) (ltb max_str (length u.value1)), e) refl,
        rw e h,
      )

      modify_value-IsQueued :
          (u : Tuple Float)
          → Acceptable fl u
          → Gives fl (EndsEarly fl) (modify_value u)
          → IsQueued (modify_value u)
      unfolding call_queues serve
      modify_value-IsQueued u (rejected e) given = modify_value-turned_down u e
      modify_value-IsQueued u (fits v p) given =
          let fine = fits-not_rejected fl u v p in
          let short = given fine in
          let (d1, ran, held) =
            modify_value_queued fl zero_float lawful pid vars room ts d h.holds (exact fl u)
              (spare fl u) v p in
          let ran1 : Proxy.modify_value fl zero_float (store_queues fl pid vars) u d
              ≡ done (if has_key fl u.key ts then pos 0 else minus_one, d1) =
            subst
              (λ w.
                Proxy.modify_value fl zero_float (store_queues fl pid vars) w d
                ≡ done (if has_key fl u.key ts then pos 0 else minus_one, d1))
              (arguments-exact fl u) ran in
          let rest = without fl u.key ts in
          (
            d1,
            rw (fine, ran1) refl,
            rw fine (record {
              holds = held;
              early =
                  if-All fl (EndsEarly fl) (has_key fl u.key ts) (rest ++ exact fl u ∷ []) ts
                    (All-append (EndsEarly fl) rest (exact fl u ∷ [])
                      (All-without fl (EndsEarly fl) u.key ts h.early) (short, tt))
                    h.early;
            }),
          )

      get_value-IsQueued : (key : ℤ) → IsQueued (get_value key)
      unfolding call_queues serve
      get_value-IsQueued key = elim (Option-cases (lookup fl key ts)) [
        | inl e ↦
            let got =
              get_value_queued-absent fl zero_float lawful pid vars room ts d h.holds key behind
                (record out { key = key }) (has_key-lookup fl key ts e) in
            (d, rw (got, e) refl, h)
        | inr (t, e) ↦
            let (short, _) = lookup-All fl (EndsEarly fl) key t ts h.early e in
            let (v, k) = lookup-IsTuple fl key t ts h.holds.valid e in
            let got =
              get_value_queued fl zero_float lawful pid vars room ts d h.holds key behind t
                (record out { key = key }) e v short (rw room_out v.fits) in
            (d, rw (got, e) (ap (λ w. done (returned (some w, d))) (exact-read fl key t _ v k)), h)
      ]

      call_queues-IsQueued :
          (r : Request Float) → Allowed fl r → Gives fl (EndsEarly fl) r → IsQueued r
      call_queues-IsQueued destroy ok given = destroy-IsQueued
      call_queues-IsQueued (exist key) ok given = exist-IsQueued key
      call_queues-IsQueued (set_value u) ok given = set_value-IsQueued u ok given
      call_queues-IsQueued (modify_value u) ok given = modify_value-IsQueued u ok given
      call_queues-IsQueued (delete_key key) ok given = delete_key-IsQueued key
      call_queues-IsQueued (get_value key) ok given = get_value-IsQueued key

    -- The operations of the proxy, on queues where every call succeeds and with the server at the
    -- other end, offer what the clients rely on, of tuples whose texts have less than 255 bytes:
    -- every allowed call comes back with the answer of the list, and the server's disk holds the
    -- list afterwards, whatever stands behind the text in the array of the client. The arrays of
    -- the server and of the client have room for 32 components.
    pub call_queues-IsStore :
        IsLawful fl
        → length vars.v_value2 ≡ max_vec
        → length out.v_value2 ≡ max_vec
        → IsStore fl (EndsEarly fl) (call_queues fl zero_float pid behind vars out) (HoldsEarly fl)
    call_queues-IsStore lawful room room_out = record {
      served = λ r ts d ok given h. call_queues-IsQueued lawful room room_out ts d h r ok given;
    }
