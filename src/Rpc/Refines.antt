-- ===== src/Rpc/Refines.antt =====
-- The procedures of servidor-rpc.c on a store of tuples.
use trabajos_sistemas_distri.Base.{
  ◌≤◌, List, [], ◌∷◌, ◌++◌, ◌≡◌, refl, lt→ltb, if◌then◌else◌, pos, minus_one, length, drop, arith,
}
use trabajos_sistemas_distri.Stdio.Run.{done}
use trabajos_sistemas_distri.Stdio.Disk.{Disk}
use trabajos_sistemas_distri.Claves.Floats.{Floats, IsLawful}
use trabajos_sistemas_distri.Claves.Tuples.{max_vec, Tuple}
use trabajos_sistemas_distri.Claves.Tuples.Print.{arguments, IsTuple}
use trabajos_sistemas_distri.Claves.Tuples.Loops.{has_key}
use trabajos_sistemas_distri.Claves.Store.Holds.{Holds, without}
use trabajos_sistemas_distri.Claves.Store.Refines.{set_value_written, modify_value_written}
use trabajos_sistemas_distri.Mq.Remote.{write_tuple-longer}
use trabajos_sistemas_distri.Rpc.{copy_loop, local_copy, rpc_set_value, rpc_modify_value}

module _ (fl : Floats) where
  open fl use {Float}

  pub copy_loop_lem :
      (vs more arr : List Float)
      → length vs ≤ length arr
      → copy_loop fl (length vs) (vs ++ more) arr ≡ done (vs ++ drop (length vs) arr)
  unfolding copy_loop
  copy_loop_lem [] more arr h = refl
  copy_loop_lem (v ∷ vs) more [] h = absurd (omega arith)
  copy_loop_lem (v ∷ vs) more (w ∷ arr) h = rw (copy_loop_lem vs more arr (omega arith)) refl

  module _ (lawful : IsLawful fl) (vars : Tuple Float) (room : length vars.v_value2 ≡ max_vec)
      (ts : List (Tuple Float)) (d : Disk) (h : Holds fl ts d) (t : Tuple Float) (v : IsTuple fl t)
      (more : List Float) where
    local_copy_lem :
        local_copy fl vars (arguments fl t more)
        ≡ done (record t { v_value2 = t.v_value2 ++ drop (length t.v_value2) vars.v_value2 })
    unfolding local_copy
    local_copy_lem =
        rw
          (
            lt→ltb _ _ v.value1.fits,
            v.counted,
            copy_loop_lem t.v_value2 more vars.v_value2 (omega (arith, v.fits, room)),
          )
          refl

    -- The remote procedures for `set_value` and `modify_value`, with the components of a tuple at the beginning of the
    -- array of their arguments, do on a store of tuples what the operations do: the first adds the tuple and returns 0,
    -- or returns -1 for a key that is there; the second puts the tuple in the place of the one of its key, at the end,
    -- and returns 0, or returns -1 for a key that is not there. On -1 the store is as it was.
    pub rpc_set_modify :
        ((d' : Disk) × (rpc_set_value fl vars (arguments fl t more) d
            ≡ done (if has_key fl t.key ts then minus_one else pos 0, d'))
          × Holds fl (if has_key fl t.key ts then ts else ts ++ t ∷ []) d')
        × ((d' : Disk) × (rpc_modify_value fl vars (arguments fl t more) d
              ≡ done (if has_key fl t.key ts then pos 0 else minus_one, d'))
            × Holds fl (if has_key fl t.key ts then without fl t.key ts ++ t ∷ [] else ts) d')
    unfolding rpc_set_value rpc_modify_value
    rpc_set_modify =
        let u = record t { v_value2 = t.v_value2 ++ drop (length t.v_value2) vars.v_value2 } in
        let line = write_tuple-longer fl t (drop (length t.v_value2) vars.v_value2) v in
        let (d1, set, held1) = set_value_written fl lawful vars room ts d h t u v refl line in
        let (d2, modified, held2) =
          modify_value_written fl lawful vars room ts d h t u v refl line in
        (
          (d1, rw (local_copy_lem, set) refl, held1),
          (d2, rw (local_copy_lem, modified) refl, held2),
        )
