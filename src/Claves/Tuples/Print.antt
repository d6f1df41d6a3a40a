-- ===== src/Claves/Tuples/Print.antt =====
-- A tuple is read back as it was written, its vector rounded.
use trabajos_sistemas_distri.Base.{
  ◌≤◌, none, some, List, [], ◌∷◌, ◌++◌, ◌≡◌, refl, Bytes, ℤ, pos, IsInt, length, map, drop, arith,
  append_assoc, append-nil,
}
use trabajos_sistemas_distri.Stdio.Decimal.{skip_space, is_space, is_digit, scan_int, print_int}
use trabajos_sistemas_distri.Stdio.Decimal.RoundTrip.{
  scan_int-print_int, scan_int-space, skip_space-print_int,
}
use trabajos_sistemas_distri.Stdio.Run.{done}
use trabajos_sistemas_distri.Stdio.Scan.Laws.{
  IsWord, scan_word-append, scan_word-space, skip_space-text,
}
use trabajos_sistemas_distri.Claves.Floats.{Floats, IsLawful}
use trabajos_sistemas_distri.Claves.Tuples.{
  header_at, header_key, header_at, header_key, max_str, max_vec, Coord, Tuple, scan_float,
  read_vector, write_vector, read_header, read_coord, read_tuple, write_tuple,
}

module _ (fl : Floats) where
  open fl use {Float, print, scan, rounded}

  -- A tuple that the service stores: the vector has as many components as its count says, and the
  -- array room for them.
  pub record IsTuple (t : Tuple Float) : Type 0 where
    pub key : IsInt t.key
    pub value1 : IsWord max_str t.value1
    pub counted : t.n_value2 ≡ pos (length t.v_value2)
    pub fits : length t.v_value2 ≤ max_vec
    pub x : IsInt t.value3.x
    pub y : IsInt t.value3.y

  -- The arguments of a call: the tuple, and what stands behind it in their array.
  abbrev pub arguments : Tuple Float → List Float → Tuple Float
  arguments t more = record t { v_value2 = t.v_value2 ++ more }

  abbrev pub print_vector : List Float → Bytes
  print_vector [] = []
  print_vector (v ∷ vs) = print v ++ b' ' ∷ print_vector vs

  -- The line of a tuple.
  unfoldable pub print_tuple : Tuple Float → Bytes
  print_tuple t =
      print_int t.key
      ++ b' '
        ∷ (t.value1
            ++ b' '
              ∷ (print_int t.n_value2
                  ++ b' '
                    ∷ (print_vector t.v_value2
                        ++ (print_int t.value3.x ++ b' ' ∷ (print_int t.value3.y ++ b'\n' ∷ [])))))

  pub write_vector_lem :
      (vs more : List Float) → write_vector fl (length vs) (vs ++ more) ≡ done (print_vector vs)
  unfolding write_vector
  write_vector_lem [] more = refl
  write_vector_lem (v ∷ vs) more = rw (write_vector_lem vs more) refl

  pub write_tuple_lem : (t : Tuple Float) → IsTuple t → write_tuple fl t ≡ done (print_tuple t)
  unfolding write_tuple print_tuple
  write_tuple_lem t v =
      let e : write_vector fl (length t.v_value2) t.v_value2 ≡ done (print_vector t.v_value2) =
        rw append-nil at (write_vector_lem t.v_value2 []) in
      rw (v.counted, e) refl

  module _ (lawful : IsLawful fl) where
    scan_float_lem :
        (old v : Float) (s : Bytes)
        → scan_float fl old (32 ∷ (print v ++ 32 ∷ s)) ≡ (rounded v, 32 ∷ s)
    unfolding scan_float skip_space is_space
    scan_float_lem old v s =
        rw (skip_space-text (print v) (32 ∷ s) (lawful.print-starts v), lawful.scan-print v s) refl

    read_vector_lem :
        (vs arr : List Float) (rest : Bytes)
        → length vs ≤ length arr
        → read_vector fl (length vs) (32 ∷ (print_vector vs ++ rest)) arr
          ≡ done (map rounded vs ++ drop (length vs) arr, 32 ∷ rest)
    unfolding read_vector
    read_vector_lem [] arr rest h = refl
    read_vector_lem (v ∷ vs) [] rest h = absurd (omega arith)
    read_vector_lem (v ∷ vs) (old ∷ arr) rest h =
        rw
          (
            append_assoc,
            scan_float_lem old v (print_vector vs ++ rest),
            read_vector_lem vs arr rest (omega arith),
          )
          refl

    read_coord_lem :
        (c old : Coord) (rest : Bytes)
        → IsInt c.x
        → IsInt c.y
        → read_coord fl old (32 ∷ (print_int c.x ++ 32 ∷ (print_int c.y ++ 10 ∷ rest)))
          ≡ (c, 10 ∷ rest)
    unfolding read_coord is_digit
    read_coord_lem c old rest hx hy =
        rw
          (
            scan_int-space,
            scan_int-print_int c.x _ hx refl,
            scan_int-space,
            scan_int-print_int c.y _ hy refl,
          )
          refl

    -- The variables after a tuple has been read over others.
    abbrev pub loaded : Tuple Float → Tuple Float → Tuple Float
    loaded l t = record t {
      v_value2 = map rounded t.v_value2 ++ drop (length t.v_value2) l.v_value2;
    }

    print_tuple-append :
        (t : Tuple Float) (rest : Bytes)
        → print_tuple t ++ rest
          ≡ print_int t.key
            ++ 32
              ∷ (t.value1
                  ++ 32
                    ∷ (print_int t.n_value2
                        ++ 32
                          ∷ (print_vector t.v_value2
                              ++ (print_int t.value3.x
                                  ++ 32 ∷ (print_int t.value3.y ++ 10 ∷ rest)))))
    unfolding print_tuple
    print_tuple-append t rest = simp append_assoc

    header_at_lem :
        (l : Tuple Float) (s : Bytes) (k : ℤ) (r : Bytes)
        → scan_int s ≡ some (k, r)
        → header_at fl l s ≡ header_key fl l s (some (k, r))
    unfolding scan_int
    header_at_lem l [] k r e = absurd (ground arith)
    header_at_lem l (c ∷ s) k r e = rw e refl

    read_header_lem :
        (t l : Tuple Float) (rest : Bytes)
        → IsTuple t
        → read_header fl l
            (print_int t.key ++ 32 ∷ (t.value1 ++ 32 ∷ (print_int t.n_value2 ++ 32 ∷ rest)))
          ≡ done
              (some (record l { key = t.key; value1 = t.value1; n_value2 = t.n_value2 }, 32 ∷ rest))
    unfolding read_header is_digit is_space
    read_header_lem t l rest v =
        let n : scan_int (print_int t.n_value2 ++ 32 ∷ rest) ≡ some (t.n_value2, 32 ∷ rest) =
          rw v.counted (
            scan_int-print_int (pos (length t.v_value2)) (32 ∷ rest) (omega (arith, v.fits))
              refl) in
        rw
          (
            skip_space-print_int,
            header_at_lem l _ _ _ (
                scan_int-print_int t.key
                  (32 ∷ (t.value1 ++ 32 ∷ (print_int t.n_value2 ++ 32 ∷ rest))) v.key refl),
            scan_word-space,
            scan_word-append (32 ∷ (print_int t.n_value2 ++ 32 ∷ rest)) v.value1 refl,
            scan_int-space,
            n,
          )
          refl

    -- A tuple is read as it was written, on the variables of an earlier one.
    pub read_tuple_lem :
        (t l : Tuple Float) (rest : Bytes)
        → IsTuple t
        → length l.v_value2 ≡ max_vec
        → read_tuple fl l (print_tuple t ++ rest) ≡ done (some (loaded l t, 10 ∷ rest))
    unfolding read_tuple
    read_tuple_lem t l rest v room =
        let tail = print_int t.value3.x ++ 32 ∷ (print_int t.value3.y ++ 10 ∷ rest) in
        let arr = read_vector_lem t.v_value2 l.v_value2 tail (omega (arith, v.fits, room)) in
        rw
          (
            print_tuple-append,
            read_header_lem t l (print_vector t.v_value2 ++ tail) v,
            v.counted,
            arr,
            read_coord_lem t.value3 l.value3 rest v.x v.y,
          )
          refl

    pub read_tuple-newline :
        (l : Tuple Float) (s : Bytes) → read_tuple fl l (10 ∷ s) ≡ read_tuple fl l s
    unfolding read_tuple read_header skip_space is_space
    read_tuple-newline l s = refl

    pub read_tuple-nil : (l : Tuple Float) → read_tuple fl l [] ≡ done none
    unfolding read_tuple read_header skip_space
    read_tuple-nil l = refl
