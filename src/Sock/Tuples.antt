-- ===== src/Sock/Tuples.antt =====
-- A tuple as ejercicio_evaluable_2 sends it, field by field.
use trabajos_sistemas_distri.Base.{
  ◌≤◌, ◌<◌, some, List, [], ◌∷◌, ◌++◌, ◌≡◌, refl, lt→ltb, Bytes, pos, IsInt, length, All, map, drop,
  arith, append_assoc,
}
use trabajos_sistemas_distri.Stdio.Run.{done}
use trabajos_sistemas_distri.Stdio.Decimal.{print_int, atoi}
use trabajos_sistemas_distri.Sockets.{byte}
use trabajos_sistemas_distri.Sockets.Reading.{IsLine}
use trabajos_sistemas_distri.Claves.Floats.{Floats, IsLawful}
use trabajos_sistemas_distri.Claves.Tuples.{max_str, max_vec, rounds, Tuple}
use trabajos_sistemas_distri.Claves.Tuples.Print.{IsTuple, loaded, arguments}
use trabajos_sistemas_distri.Sock.Fields.{printed, read_values, send_values}
use trabajos_sistemas_distri.Sock.Server.{receive_tuple}
use trabajos_sistemas_distri.Sock.Proxy.{tuple_request}
use trabajos_sistemas_distri.Sock.Texts.{
  read_into-text, atoi-print_int, printed-print_int, read_into-int,
}

module _ (fl : Floats) where
  open fl use {Float, print, atof, rounded}

  -- Numbers that are sent as they stand: their text fits the buffer, with no line end in it.
  abbrev pub Sends : List Float → Type 0
  Sends = All (λ v. IsLine (print v) × (length (print v) < max_str))

  unfoldable pub values_text : List Float → Bytes
  values_text [] = []
  values_text (v ∷ vs) = print v ++ 0 ∷ values_text vs

  -- What `set_value` and `modify_value` send behind the number of the operation.
  pub tuple_text : Tuple Float → Bytes
  tuple_text t =
      print_int t.key
      ++ 0
        ∷ (t.value1
            ++ 0
              ∷ (print_int t.n_value2
                  ++ 0
                    ∷ (values_text t.v_value2
                        ++ (print_int t.value3.x ++ 0 ∷ (print_int t.value3.y ++ 0 ∷ [])))))

  -- The array may be longer than what is sent of it.
  pub send_values-append :
      (vs more : List Float)
      → Sends vs
      → send_values fl (length vs) (vs ++ more) ≡ done (values_text vs)
  unfolding send_values printed values_text
  send_values-append [] more v = refl
  send_values-append (x ∷ vs) more ((hx, kx), v) =
      rw (lt→ltb _ _ kx, send_values-append vs more v) (simp append_assoc)

  pub last_text : Bytes → List Float → Bytes
  last_text b [] = b
  last_text b (v ∷ vs) = last_text (print v) vs

  module _ (lawful : IsLawful fl) where
    pub read_values_lem :
        (vs arr : List Float) (b rest : Bytes)
        → Sends vs
        → length vs ≤ length arr
        → read_values fl (length vs) b (map byte (values_text vs ++ rest)) arr
          ≡ done (map rounded vs ++ drop (length vs) arr, (last_text b vs, map byte rest))
    unfolding read_values values_text last_text
    read_values_lem [] arr b rest v h = refl
    read_values_lem (x ∷ vs) [] b rest v h = absurd (omega arith)
    read_values_lem (x ∷ vs) (old ∷ arr) b rest ((hx, kx), v) h =
        rw
          (
            append_assoc,
            read_into-text max_str (some b) (print x) (values_text vs ++ rest) hx kx,
            lawful.atof-print x,
            read_values_lem vs arr (print x) rest v (omega arith),
          )
          refl

    pub receive_tuple_lem :
        (t vars : Tuple Float) (b : Bytes)
        → IsTuple fl t
        → IsLine t.value1
        → Sends t.v_value2
        → length vars.v_value2 ≡ max_vec
        → receive_tuple fl vars b (map byte (tuple_text t)) ≡ done (loaded fl lawful vars t)
    unfolding receive_tuple tuple_text
    receive_tuple_lem t vars b v line sends room =
        let hn : IsInt t.n_value2 = rw v.counted (omega (arith, v.fits)) in
        let tail = print_int t.value3.x ++ 0 ∷ (print_int t.value3.y ++ 0 ∷ []) in
        let n : atoi (print_int t.n_value2) ≡ pos (length t.v_value2) =
          rw (atoi-print_int t.n_value2 hn) v.counted in
        rw
          (
            read_into-int (some b) t.key
                (t.value1 ++ 0 ∷ (print_int t.n_value2 ++ 0 ∷ (values_text t.v_value2 ++ tail)))
                v.key,
            read_into-text max_str (some (print_int t.key)) t.value1
                (print_int t.n_value2 ++ 0 ∷ (values_text t.v_value2 ++ tail)) line v.value1.fits,
            read_into-int (some t.value1) t.n_value2 (values_text t.v_value2 ++ tail) hn,
            n,
            read_values_lem t.v_value2 vars.v_value2 (print_int t.n_value2) tail sends
                (omega (arith, v.fits, room)),
            read_into-int (some (last_text (print_int t.n_value2) t.v_value2)) t.value3.x
                (print_int t.value3.y ++ 0 ∷ []) v.x,
            read_into-int (some (print_int t.value3.x)) t.value3.y [] v.y,
            atoi-print_int t.key v.key,
            atoi-print_int t.value3.x v.x,
            atoi-print_int t.value3.y v.y,
            ← v.counted,
          )
          refl

    pub tuple_request_lem :
        (op : Bytes) (t : Tuple Float) (more : List Float)
        → IsTuple fl t
        → Sends t.v_value2
        → tuple_request fl op (arguments fl t more) ≡ done (op ++ 0 ∷ tuple_text t)
    unfolding tuple_request tuple_text
    tuple_request_lem op t more v sends =
        let hn : IsInt t.n_value2 = rw v.counted (omega (arith, v.fits)) in
        let vs : send_values fl (rounds t.n_value2) (t.v_value2 ++ more)
            ≡ done (values_text t.v_value2) =
          rw v.counted (send_values-append t.v_value2 more sends) in
        rw
          (
            printed-print_int t.key v.key,
            printed-print_int t.n_value2 hn,
            vs,
            printed-print_int t.value3.x v.x,
            printed-print_int t.value3.y v.y,
          )
          (simp append_assoc)
