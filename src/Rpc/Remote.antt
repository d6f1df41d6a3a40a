-- ===== src/Rpc/Remote.antt =====
-- `set_value` and `modify_value` of proxy-rpc.c over servidor-rpc.c, where every call is delivered.
use trabajos_sistemas_distri.Base.{
  ◌<◌, Bool, false, List, [], ◌∷◌, ◌++◌, ◌≡◌, refl, if◌then◌else◌, Bytes, ℤ, pos, minus_one, int_eq,
  length, drop, ◌∙◌, arith,
}
use trabajos_sistemas_distri.Stdio.Run.{done}
use trabajos_sistemas_distri.Stdio.Disk.{Disk}
use trabajos_sistemas_distri.Claves.Floats.{Floats, IsLawful}
use trabajos_sistemas_distri.Claves.Tuples.{max_vec, Tuple}
use trabajos_sistemas_distri.Claves.Tuples.Print.{IsTuple}
use trabajos_sistemas_distri.Claves.Tuples.Loops.{has_key}
use trabajos_sistemas_distri.Claves.Store.Holds.{Holds, without}
use trabajos_sistemas_distri.Rpc.{rpc_set_value, rpc_modify_value}
use trabajos_sistemas_distri.Rpc.Refines.{rpc_set_modify}
use trabajos_sistemas_distri.Claves.Tuples.Print.{arguments}
use trabajos_sistemas_distri.Rpc.Proxy.{returned, Client, set_value, modify_value}
use trabajos_sistemas_distri.Rpc.Calls.{
  delivered, fill_aux_lem, invalid_lem, CanCall-still, length-arguments, CanCall, called,
}

module _ (fl : Floats) where
  open fl use {Float, rounded}

  module _ (lawful : IsLawful fl) (vars : Tuple Float) (room : length vars.v_value2 ≡ max_vec)
      (clnt_create : Bytes → Bool) (c : Client fl) (can : CanCall fl clnt_create c)
      (ts : List (Tuple Float)) (d : Disk) (h : Holds fl ts d) where
    -- `set_value` of the proxy, over remote calls that are delivered to a server with a store of tuples, of a tuple with
    -- 1 to 32 components in an array of any length: the server adds the tuple to its store and the proxy returns 0; or
    -- the key is there already, the store stays, and the proxy returns -1. The client can call again.
    pub set_value_called :
        (left1 left2 : ℤ) (t : Tuple Float) (more : List Float)
        → int_eq left1 minus_one ≡ false
        → int_eq left2 minus_one ≡ false
        → IsTuple fl t
        → 0 < length t.v_value2
        → (c' : Client fl) × (d' : Disk) × (set_value fl clnt_create left1 left2
              (λ aux. delivered (rpc_set_value fl vars aux))
              (arguments fl t more)
              c
              d
            ≡ done (returned (if has_key fl t.key ts then minus_one else pos 0, (c', d'))))
          × CanCall fl clnt_create c'
          × Holds fl (if has_key fl t.key ts then ts else ts ++ t ∷ []) d'
    unfolding set_value
    set_value_called left1 left2 t more h1 h2 v some_values =
        let ((d1, ran, held), _) =
          rpc_set_modify fl lawful vars room ts d h t v
            (drop (length t.v_value2) c.rpc_set_value_1_aux.v_value2) in
        (
          record (called fl can) {
            result_2 = if has_key fl t.key ts then minus_one else pos 0;
            rpc_set_value_1_aux =
                arguments fl t (drop (length t.v_value2) c.rpc_set_value_1_aux.v_value2);
          },
          d1,
          rw
              (
                invalid_lem fl left1 left2 t more h1 h2 v some_values,
                can.known,
                can.up,
                fill_aux_lem fl c.rpc_set_value_1_aux t more v can.set_room,
                ran,
              )
              refl,
          CanCall-still fl can _ refl
              (length-arguments fl t.v_value2 c.rpc_set_value_1_aux.v_value2
                  (omega (arith, v.fits, can.set_room))
                ∙ can.set_room)
              can.modify_room,
          held,
        )

    -- `modify_value` of the proxy, under the same conditions: the server puts the tuple in the place of the one of its
    -- key, at the end of the store, and the proxy returns 0; or there is none of that key, the store stays, and the
    -- proxy returns -1. The client can call again.
    pub modify_value_called :
        (left1 left2 : ℤ) (t : Tuple Float) (more : List Float)
        → int_eq left1 minus_one ≡ false
        → int_eq left2 minus_one ≡ false
        → IsTuple fl t
        → 0 < length t.v_value2
        → (c' : Client fl) × (d' : Disk) × (modify_value fl clnt_create left1 left2
              (λ aux. delivered (rpc_modify_value fl vars aux))
              (arguments fl t more)
              c
              d
            ≡ done (returned (if has_key fl t.key ts then pos 0 else minus_one, (c', d'))))
          × CanCall fl clnt_create c'
          × Holds fl (if has_key fl t.key ts then without fl t.key ts ++ t ∷ [] else ts) d'
    unfolding modify_value
    modify_value_called left1 left2 t more h1 h2 v some_values =
        let (_, (d1, ran, held)) =
          rpc_set_modify fl lawful vars room ts d h t v
            (drop (length t.v_value2) c.rpc_modify_value_1_aux.v_value2) in
        (
          record (called fl can) {
            result_4 = if has_key fl t.key ts then pos 0 else minus_one;
            rpc_modify_value_1_aux =
                arguments fl t (drop (length t.v_value2) c.rpc_modify_value_1_aux.v_value2);
          },
          d1,
          rw
              (
                invalid_lem fl left1 left2 t more h1 h2 v some_values,
                can.known,
                can.up,
                fill_aux_lem fl c.rpc_modify_value_1_aux t more v can.modify_room,
                ran,
              )
              refl,
          CanCall-still fl can _ refl can.set_room (
              length-arguments fl t.v_value2 c.rpc_modify_value_1_aux.v_value2
                (omega (arith, v.fits, can.modify_room))
              ∙ can.modify_room),
          held,
        )
