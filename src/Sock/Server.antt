-- ===== src/Sock/Server.antt =====
-- `tratar_peticion` of ejercicio_evaluable_2/servidor-sock.c: what it makes of the bytes that come,
-- what it sends, and the disk that it leaves.
use trabajos_sistemas_distri.Base.{
  none, some, List, [], ◌++◌, if◌then◌else◌, Bytes, ℤ, pos, minus_one, int_eq,
}
use trabajos_sistemas_distri.Stdio.Run.{Run, done, ◌>>=◌}
use trabajos_sistemas_distri.Stdio.Decimal.{print_int, atoi}
use trabajos_sistemas_distri.Stdio.Disk.{Disk}
use trabajos_sistemas_distri.Sockets.{Event}
use trabajos_sistemas_distri.Claves.Floats.{Floats}
use trabajos_sistemas_distri.Claves.Tuples.{max_str, rounds, Tuple}
use trabajos_sistemas_distri.Claves.Store.{
  destroy, exist, delete_key, set_value, get_value, modify_value,
}
use trabajos_sistemas_distri.Sock.Fields.{read_into, printed, read_values, send_values}

module _ (fl : Floats) where
  open fl use {Float}

  -- `get_value` of ejercicio_evaluable_2/claves/claves.c, which asks for the key first.
  unfoldable pub get_existing : Tuple Float → ℤ → Tuple Float → Disk → Run (ℤ × Tuple Float)
  get_existing vars key out d = exist fl vars key d >>= λ there.
      if there then get_value fl key out d else done (minus_one, out)

  -- The fields of SET VALUE and MODIFY VALUE, read into the variables; `b` is the text in the
  -- buffer.
  unfoldable pub receive_tuple : Tuple Float → Bytes → List Event → Run (Tuple Float)
  receive_tuple vars b es = do
    (key, e1) ← read_into max_str (some b) es
    (value1, e2) ← read_into max_str (some key) e1
    (n, e3) ← read_into max_str (some value1) e2
    (vs, (left, e4)) ← read_values fl (rounds (atoi n)) n e3 vars.v_value2
    (x, e5) ← read_into max_str (some left) e4
    (y, e6) ← read_into max_str (some x) e5
    done (record {
      key = atoi key;
      value1 = value1;
      n_value2 = atoi n;
      v_value2 = vs;
      value3 = record { x = atoi x; y = atoi y };
    })

  -- What GET VALUE sends.
  unfoldable pub send_tuple : ℤ → Tuple Float → Run Bytes
  send_tuple res t = do
    value1 ← printed t.value1
    n ← printed (print_int t.n_value2)
    vs ← send_values fl (rounds t.n_value2) t.v_value2
    x ← printed (print_int t.value3.x)
    y ← printed (print_int t.value3.y)
    code ← printed (print_int res)
    done (value1 ++ (n ++ (vs ++ (x ++ (y ++ code)))))

  -- The reply that is the result of an operation.
  unfoldable pub reply : Run (ℤ × Disk) → Run (Bytes × Disk)
  reply m = m >>= λ (res, d). printed (print_int res) >>= λ s. done (s, d)

  abbrev serve_set :
      (Tuple Float → Disk → Run (ℤ × Disk))
      → Tuple Float
      → Bytes
      → List Event
      → Disk
      → Run (Bytes × Disk)
  serve_set op vars b es d = receive_tuple vars b es >>= λ t. reply (op t d)

  abbrev serve_key : (ℤ → Disk → Run (ℤ × Disk)) → Bytes → List Event → Disk → Run (Bytes × Disk)
  serve_key op b es d = read_into max_str (some b) es >>= λ (key, r). reply (op (atoi key) d)

  unfoldable pub serve_get : Tuple Float → Bytes → List Event → Disk → Run (Bytes × Disk)
  unfolding get_existing send_tuple
  serve_get vars b es d = read_into max_str (some b) es >>= λ (key, r).
      get_existing vars (atoi key) vars d >>= λ (res, t). send_tuple res t >>= λ s. done (s, d)

  -- `exist`, with its truth value as an `int`
  abbrev exist_code : Tuple Float → ℤ → Disk → Run (ℤ × Disk)
  exist_code vars key d = exist fl vars key d >>= λ there. done (if there then pos 1 else pos 0, d)

  -- The operation that each number stands for; an unknown one is answered by nothing.
  unfoldable pub operation : Tuple Float → ℤ → Bytes → List Event → Disk → Run (Bytes × Disk)
  unfolding receive_tuple reply serve_get
  operation vars op b es d =
      if int_eq op (pos 1)
      then reply (done (destroy d))
      else if int_eq op (pos 2)
      then serve_set (set_value fl vars) vars b es d
      else if int_eq op (pos 3)
      then serve_get vars b es d
      else if int_eq op (pos 4)
      then serve_set (modify_value fl vars) vars b es d
      else if int_eq op (pos 5)
      then serve_key (delete_key fl vars) b es d
      else if int_eq op (pos 6)
      then serve_key (exist_code vars) b es d
      else done ([], d)

  -- `vars` is what the local variables hold at the start.
  unfoldable pub tratar_peticion : Tuple Float → List Event → Disk → Run (Bytes × Disk)
  unfolding operation
  tratar_peticion vars es d = read_into 2 none es >>= λ (op, r). operation vars (atoi op) op r d
