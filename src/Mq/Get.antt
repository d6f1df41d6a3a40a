-- ===== src/Mq/Get.antt =====
-- The operations of ejercicio_evaluable_1 on a key, and a tuple that is set and got back over
-- message queues.
use trabajos_sistemas_distri.Base.{
  map, ◌-◌, ◌≤◌, ◌<◌, false, some, List, [], ◌∷◌, ◌++◌, ◌≡◌, refl, lt→ltb, Bytes, if◌then◌else◌, ℤ,
  pos, minus_one, length, drop, arith,
}
use trabajos_sistemas_distri.Stdio.Run.{done}
use trabajos_sistemas_distri.Stdio.Disk.{Disk}
use trabajos_sistemas_distri.Claves.Floats.{Floats, IsLawful}
use trabajos_sistemas_distri.Claves.Tuples.{max_str, max_vec, Tuple}
use trabajos_sistemas_distri.Claves.Tuples.Print.{IsTuple, arguments}
use trabajos_sistemas_distri.Claves.Tuples.Loops.{has_key}
use trabajos_sistemas_distri.Claves.Store.Holds.{Holds, without}
use trabajos_sistemas_distri.Mq.Server.{tratar_peticion}
use trabajos_sistemas_distri.Mq.Proxy.{d_send_receive, blank, copy_vector, set_value}
use trabajos_sistemas_distri.Claves.Tuples.Loops.{lookup, Found}
use trabajos_sistemas_distri.Claves.Tuples.Print.{loaded}
use trabajos_sistemas_distri.Claves.Store.Holds.{lookup-append}
use trabajos_sistemas_distri.Claves.Store.Refines.{get_value_lem, exist_lem, delete_key_lem}
use trabajos_sistemas_distri.Mq.Proxy.{get_value, delete_key, exist}
use trabajos_sistemas_distri.Mq.Remote.{store_queues, set_value_queued}

module _ (fl : Floats) where
  open fl use {Float, rounded}

  module _ (zero_float : Float) where
    copy_vector-rounded :
        (vs more arr : List Float)
        → length vs ≤ length arr
        → copy_vector fl zero_float (length vs) (map rounded vs ++ more) arr
          ≡ done (map rounded vs ++ drop (length vs) arr)
    unfolding copy_vector
    copy_vector-rounded [] more arr h = refl
    copy_vector-rounded (v ∷ vs) more [] h = absurd (omega arith)
    copy_vector-rounded (v ∷ vs) more (w ∷ arr) h =
        rw (copy_vector-rounded vs more arr (omega arith)) refl

    module _ (lawful : IsLawful fl) (pid : ℤ) (vars : Tuple Float)
        (room : length vars.v_value2 ≡ max_vec) (ts : List (Tuple Float)) (d : Disk)
        (h : Holds fl ts d) where
      -- `delete_key` of the proxy, on queues where every call succeeds and with the server of a
      -- store of tuples at the other end, takes the tuple of the key out and returns 0, or returns
      -- -1 if there is none and the store stays.
      pub delete_key_queued :
          (key : ℤ)
          → (d' : Disk) × (delete_key fl zero_float (store_queues fl pid vars) key d
              ≡ done (if has_key fl key ts then pos 0 else minus_one, d'))
            × Holds fl (if has_key fl key ts then without fl key ts else ts) d'
      unfolding delete_key d_send_receive tratar_peticion blank
      delete_key_queued key =
          let (d1, ran, held) = delete_key_lem fl lawful vars room ts d h key in
          (d1, rw ran refl, held)

      -- `exist` of the proxy, under the same conditions, returns 1 if the key is there and 0 if
      -- not.
      pub exist_queued :
          (key : ℤ)
          → exist fl zero_float (store_queues fl pid vars) key d
            ≡ done (if has_key fl key ts then pos 1 else pos 0, d)
      unfolding exist d_send_receive tratar_peticion blank
      exist_queued key = rw (exist_lem fl lawful vars room ts d h key) refl

      -- `get_value` of the proxy, under the same conditions, of a key that is there, with a text of
      -- less than 255 bytes: it returns 0 and sets the caller's variables to the text, the count
      -- and the coordinate of the tuple, and to its components rounded as `%lf` rounds.
      pub get_value_queued :
          (key : ℤ) (behind : Bytes) (t out : Tuple Float)
          → lookup fl key ts ≡ some t
          → IsTuple fl t
          → length t.value1 < max_str - 1
          → length t.v_value2 ≤ length out.v_value2
          → get_value fl zero_float (store_queues fl pid vars) key behind out d
            ≡ done (
              (
                pos 0,
                record t {
                  key = out.key;
                  v_value2 = map rounded t.v_value2 ++ drop (length t.v_value2) out.v_value2;
                },
              ),
              d,
            )
      unfolding get_value d_send_receive tratar_peticion blank
      get_value_queued key behind t out e v short fits =
          let asked = (blank fl zero_float (pos 3) key).tuple in
          let (l, got, found) = get_value_lem fl lawful asked refl ts d h key in
          let (there, before, _, is) : Found fl lawful (some t) (has_key fl key ts, l) =
            rw e at found in
          let got1 : trabajos_sistemas_distri.Claves.Store.get_value fl key asked d
              ≡ done (pos 0, loaded fl lawful before t) =
            rw (there, is) at got in
          rw
            (
              got1,
              v.counted,
              copy_vector-rounded t.v_value2 (drop (length t.v_value2) before.v_value2) out.v_value2
                  fits,
              lt→ltb _ _ short,
            )
            refl

      -- Of a key that is not there it returns -1 and leaves the caller's variables.
      pub get_value_queued-absent :
          (key : ℤ) (behind : Bytes) (out : Tuple Float)
          → has_key fl key ts ≡ false
          → get_value fl zero_float (store_queues fl pid vars) key behind out d
            ≡ done ((minus_one, out), d)
      unfolding get_value d_send_receive tratar_peticion blank
      get_value_queued-absent key behind out gone =
          let asked = (blank fl zero_float (pos 3) key).tuple in
          let (l, got, found) = get_value_lem fl lawful asked refl ts d h key in rw (got, gone) refl

    module _ (lawful : IsLawful fl) (pid : ℤ) (vars : Tuple Float)
        (room : length vars.v_value2 ≡ max_vec) (ts : List (Tuple Float)) (d : Disk)
        (h : Holds fl ts d) where
      -- On queues where every call succeeds, after `set_value` of the proxy of a tuple with a new
      -- key, a text of less than 255 bytes and 1 to 32 components, `get_value` of the proxy, with
      -- the same server afterwards, returns 0 and sets the caller's variables to its text, its
      -- count and its coordinate as they were given, and to its components rounded as `%lf` rounds.
      pub get_value-set_value_queued :
          (behind : Bytes) (t out : Tuple Float)
          → IsTuple fl t
          → length t.value1 < max_str - 1
          → 0 < length t.v_value2
          → has_key fl t.key ts ≡ false
          → length t.v_value2 ≤ length out.v_value2
          → (d' : Disk) × (set_value fl zero_float (store_queues fl pid vars) (arguments fl t []) d
              ≡ done (pos 0, d'))
            × (get_value fl zero_float (store_queues fl pid vars) t.key behind out d'
                ≡ done (
                  (
                    pos 0,
                    record t {
                      key = out.key;
                      v_value2 = map rounded t.v_value2 ++ drop (length t.v_value2) out.v_value2;
                    },
                  ),
                  d',
                ))
      get_value-set_value_queued behind t out v short some_values new fits =
          let (d1, set, held) =
            set_value_queued fl zero_float lawful pid vars room ts d h t [] v some_values in
          let held1 : Holds fl (ts ++ t ∷ []) d1 = rw new at held in
          (
            d1,
            rw new at set,
            get_value_queued lawful pid vars room (ts ++ t ∷ []) d1 held1 t.key behind t out
                (lookup-append fl t ts new) v short fits,
          )
