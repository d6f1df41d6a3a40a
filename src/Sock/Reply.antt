-- ===== src/Sock/Reply.antt =====
-- The reply to GET VALUE of ejercicio_evaluable_2: what the server sends of a tuple and a code, and
-- the proxy reads.
use trabajos_sistemas_distri.Base.{
  ◌≤◌, ◌<◌, some, List, [], ◌∷◌, ◌++◌, ◌≡◌, refl, lt→ltb, Bytes, ℤ, pos, IsInt, length, map, drop,
  arith, append_assoc,
}
use trabajos_sistemas_distri.Stdio.Run.{done}
use trabajos_sistemas_distri.Stdio.Decimal.{print_int, atoi}
use trabajos_sistemas_distri.Sockets.{byte}
use trabajos_sistemas_distri.Sockets.Reading.{IsLine}
use trabajos_sistemas_distri.Claves.Floats.{Floats, IsLawful}
use trabajos_sistemas_distri.Claves.Tuples.{max_str, max_vec, rounds, Tuple}
use trabajos_sistemas_distri.Claves.Tuples.Print.{IsTuple}
use trabajos_sistemas_distri.Sock.Fields.{printed, send_values}
use trabajos_sistemas_distri.Sock.Texts.{
  read_into-text, atoi-print_int, printed-print_int, read_into-int, read_result-print_int,
}
use trabajos_sistemas_distri.Sock.Tuples.{Sends, values_text, last_text, read_values_lem}
use trabajos_sistemas_distri.Sock.Server.{send_tuple}
use trabajos_sistemas_distri.Sock.Proxy.{receive_reply}

module _ (fl : Floats) where
  open fl use {Float, print, atof, rounded}

  -- A tuple that can be sent field by field, and read: it fits the buffers, and has no line end.
  pub record IsSent (t : Tuple Float) : Type 0 where
    pub line : IsLine t.value1
    pub short : length t.value1 < max_str
    pub counted : t.n_value2 ≡ pos (length t.v_value2)
    pub fits : length t.v_value2 ≤ max_vec
    pub sends : Sends fl t.v_value2
    pub x : IsInt t.value3.x
    pub y : IsInt t.value3.y

  pub IsTuple-IsSent :
      (t : Tuple Float) → IsTuple fl t → IsLine t.value1 → Sends fl t.v_value2 → IsSent t
  IsTuple-IsSent t v line sends = record {
    line = line;
    short = v.value1.fits;
    counted = v.counted;
    fits = v.fits;
    sends = sends;
    x = v.x;
    y = v.y;
  }

  -- What comes back for a tuple and a code.
  unfoldable pub reply_text : ℤ → Tuple Float → Bytes
  reply_text z t =
      t.value1
      ++ 0
        ∷ (print_int t.n_value2
            ++ 0
              ∷ (values_text fl t.v_value2
                  ++ (print_int t.value3.x
                      ++ 0 ∷ (print_int t.value3.y ++ 0 ∷ (print_int z ++ 0 ∷ [])))))

  -- Components that have been rounded print as those that they come from.
  pub send_values-rounded :
      (lawful : IsLawful fl) (vs more : List Float)
      → Sends fl vs
      → send_values fl (length vs) (map rounded vs ++ more) ≡ done (values_text fl vs)
  unfolding send_values printed values_text
  send_values-rounded lawful [] more v = refl
  send_values-rounded lawful (x ∷ vs) more ((hx, kx), v) =
      rw (lawful.print-rounded x, lt→ltb _ _ kx, send_values-rounded lawful vs more v)
        (simp append_assoc)

  -- The tuple stands in the variables `u`, whose components print as those of `t`.
  pub send_tuple_lem :
      (z : ℤ) (t u : Tuple Float)
      → IsInt z
      → IsSent t
      → u.value1 ≡ t.value1
      → u.n_value2 ≡ t.n_value2
      → u.value3 ≡ t.value3
      → send_values fl (length t.v_value2) u.v_value2 ≡ done (values_text fl t.v_value2)
      → send_tuple fl z u ≡ done (reply_text z t)
  unfolding send_tuple reply_text printed
  send_tuple_lem z t u hz v e1 e2 e3 e4 =
      let hn : IsInt t.n_value2 = rw v.counted (omega (arith, v.fits)) in
      let vs : send_values fl (rounds t.n_value2) u.v_value2 ≡ done (values_text fl t.v_value2) =
        rw v.counted e4 in
      rw
        (
          e1,
          e2,
          e3,
          lt→ltb _ _ v.short,
          printed-print_int t.n_value2 hn,
          vs,
          printed-print_int t.value3.x v.x,
          printed-print_int t.value3.y v.y,
          printed-print_int z hz,
        )
        (simp append_assoc)

  -- The variables of a client, after a tuple has been read over them.
  abbrev pub read_over : ℤ → Tuple Float → Tuple Float → Tuple Float
  read_over key t out = record t {
    key = key;
    v_value2 = map rounded t.v_value2 ++ drop (length t.v_value2) out.v_value2;
  }

  pub receive_reply_lem :
      (lawful : IsLawful fl) (z key : ℤ) (t out : Tuple Float) (b : Bytes)
      → IsInt z
      → IsSent t
      → length t.v_value2 ≤ length out.v_value2
      → receive_reply fl key out b (map byte (reply_text z t)) ≡ done (z, read_over key t out)
  unfolding receive_reply reply_text
  receive_reply_lem lawful z key t out b hz v room =
      let hn : IsInt t.n_value2 = rw v.counted (omega (arith, v.fits)) in
      let end = print_int z ++ 0 ∷ [] in
      let tail = print_int t.value3.x ++ 0 ∷ (print_int t.value3.y ++ 0 ∷ end) in
      let n : atoi (print_int t.n_value2) ≡ pos (length t.v_value2) =
        rw (atoi-print_int t.n_value2 hn) v.counted in
      rw
        (
          read_into-text max_str (some b) t.value1
              (print_int t.n_value2 ++ 0 ∷ (values_text fl t.v_value2 ++ tail)) v.line v.short,
          read_into-int (some t.value1) t.n_value2 (values_text fl t.v_value2 ++ tail) hn,
          n,
          read_values_lem fl lawful t.v_value2 out.v_value2 (print_int t.n_value2) tail v.sends
              room,
          read_into-int (some (last_text fl (print_int t.n_value2) t.v_value2)) t.value3.x
              (print_int t.value3.y ++ 0 ∷ end) v.x,
          read_into-int (some (print_int t.value3.x)) t.value3.y end v.y,
          read_result-print_int z hz,
          atoi-print_int t.value3.x v.x,
          atoi-print_int t.value3.y v.y,
          ← v.counted,
        )
        refl
