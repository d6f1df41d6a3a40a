-- ===== src/Rpc/RoundTrip.antt =====
-- proxy-rpc.c: what a client gets back that has been set, and what it gets from a call that fails.
use trabajos_sistemas_distri.Base.{
  ◌≤◌, ◌<◌, Bool, false, if◌then◌else◌, Option, none, some, List, [], ◌∷◌, ◌++◌, ◌≡◌, refl, Bytes,
  ℤ, pos, minus_one, int_eq, length, map, drop,
}
use trabajos_sistemas_distri.Stdio.Run.{Run, done}
use trabajos_sistemas_distri.Stdio.Disk.{Disk}
use trabajos_sistemas_distri.Claves.Floats.{Floats, IsLawful}
use trabajos_sistemas_distri.Claves.Tuples.{max_vec, Tuple}
use trabajos_sistemas_distri.Claves.Tuples.Print.{IsTuple}
use trabajos_sistemas_distri.Claves.Tuples.Loops.{has_key}
use trabajos_sistemas_distri.Claves.Store.Holds.{Holds, without, lookup-append}
use trabajos_sistemas_distri.Rpc.{rpc_set_value, rpc_get_value, rpc_delete_key}
use trabajos_sistemas_distri.Claves.Tuples.Print.{arguments}
use trabajos_sistemas_distri.Rpc.Proxy.{returned, Client, set_value, get_value, delete_key}
use trabajos_sistemas_distri.Rpc.Calls.{delivered, answered, CanCall}
use trabajos_sistemas_distri.Rpc.Keys.{get_value_called, delete_key_called}
use trabajos_sistemas_distri.Rpc.Remote.{set_value_called}

module _ (fl : Floats) where
  open fl use {Float, rounded}

  module _ (lawful : IsLawful fl) (vars : Tuple Float) (room : length vars.v_value2 ≡ max_vec)
      (clnt_create : Bytes → Bool) (c : Client fl) (can : CanCall fl clnt_create c)
      (ts : List (Tuple Float)) (d : Disk) (h : Holds fl ts d) where
    -- Over remote calls that are delivered, after `set_value` of the proxy of a tuple with a new
    -- key and 1 to 32 components, `get_value` of the proxy returns 0 and sets the caller's
    -- variables to its text, its count and its coordinate as they were given, and to its components
    -- rounded as `%lf` rounds.
    pub get_value-set_value_called :
        (left1 left2 : ℤ) (t : Tuple Float) (more : List Float) (old out : Tuple Float)
        → int_eq left1 minus_one ≡ false
        → int_eq left2 minus_one ≡ false
        → IsTuple fl t
        → 0 < length t.v_value2
        → has_key fl t.key ts ≡ false
        → length old.v_value2 ≡ max_vec
        → length t.v_value2 ≤ length out.v_value2
        → (c' : Client fl) × (d' : Disk) × (c'' : Client fl) × (set_value fl clnt_create left1 left2
              (λ aux. delivered (rpc_set_value fl vars aux))
              (arguments fl t more)
              c
              d
            ≡ done (returned (pos 0, (c', d'))))
          × (get_value fl clnt_create (λ k. answered (rpc_get_value fl vars k old)) t.key out c' d'
              ≡ done (
                  returned (
                    (
                      pos 0,
                      record t {
                        v_value2 = map rounded t.v_value2 ++ drop (length t.v_value2) out.v_value2;
                      },
                    ),
                    (c'', d'),
                  )))
    get_value-set_value_called left1 left2 t more old out h1 h2 v some_values new room_old
          room_out =
        let (c1, d1, set, can1, held) =
          set_value_called fl lawful vars room clnt_create c can ts d h left1 left2 t more h1 h2 v
            some_values in
        let held1 : Holds fl (ts ++ t ∷ []) d1 = rw new at held in
        let (c2, got, _) =
          get_value_called fl lawful vars room clnt_create c1 can1 (ts ++ t ∷ []) d1 held1 t.key old
            out t (lookup-append fl t ts new) v room_old room_out in
        (c1, d1, c2, rw new at set, got)

  -- A remote call that fails makes no difference to what the proxy returns: after a `delete_key`
  -- that is delivered, of a key that is there or not, a `delete_key` of any key whose call fails,
  -- whatever the call has made of the server's disk, returns what the first returned.
  pub failed_call-returns_old :
      (lawful : IsLawful fl) (vars : Tuple Float) (room : length vars.v_value2 ≡ max_vec)
      (clnt_create : Bytes → Bool) (c : Client fl) (can : CanCall fl clnt_create c)
      (ts : List (Tuple Float)) (d : Disk) (h : Holds fl ts d) (key other : ℤ)
      (fails : ℤ → Disk → Run (Option ℤ × Disk)) (after : Disk → Disk)
      → ((w : Disk) → fails other w ≡ done (none, after w))
      → (c' : Client fl) × (d' : Disk) × (c'' : Client fl) × (delete_key fl clnt_create
            (λ k. delivered (rpc_delete_key fl vars k))
            key
            c
            d
          ≡ done (returned (if has_key fl key ts then pos 0 else minus_one, (c', d'))))
        × (delete_key fl clnt_create fails other c' d'
            ≡ done (returned (if has_key fl key ts then pos 0 else minus_one, (c'', after d'))))
        × Holds fl (if has_key fl key ts then without fl key ts else ts) d'
  unfolding delete_key
  failed_call-returns_old lawful vars room clnt_create c can ts d h key other fails after lost =
      let (c1, d1, deleted, can1, code, held) =
        delete_key_called fl lawful vars room clnt_create c can ts d h key in
      (
        c1,
        d1,
        record c1 { ip_tuplas = some can1.address },
        deleted,
        rw (can1.known, can1.up, lost d1, code) refl,
        held,
      )
