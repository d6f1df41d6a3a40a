-- ===== src/Sock/Proxy.antt =====
-- proxy-sock.c: the operations of the store for a client. `server` says what comes back over the
-- connection for what has been sent, and what that changes in `W`, all that stands outside of the
-- process; `connected` says whether `connect_to_server` returns no negative number.
use trabajos_sistemas_distri.Base.{
  ℕ, Option, ◌||◌, Bool, true, false, none, some, List, [], ◌∷◌, ◌++◌, ltb, if◌then◌else◌, Bytes,
  codes, ℤ, pos, negsuc, minus_one, int_eq, length,
}
use trabajos_sistemas_distri.Stdio.Run.{Run, done, ◌>>=◌}
use trabajos_sistemas_distri.Stdio.Decimal.{print_int, atoi}
use trabajos_sistemas_distri.Sockets.{Event}
use trabajos_sistemas_distri.Claves.Floats.{Floats}
use trabajos_sistemas_distri.Claves.Tuples.{max_str, max_vec, rounds, Tuple}
use trabajos_sistemas_distri.Server.Main.{port_of, is_negative}
use trabajos_sistemas_distri.Sock.Fields.{read_into, printed, read_values, send_values}

-- A function that is left without a `return`: the value that the caller finds is `left`.
unfoldable pub is_value1_valid : ℤ → Bytes → ℤ
is_value1_valid left value1 = if ltb max_str (length value1) then minus_one else left

abbrev out_of_range : ℤ → Bool
out_of_range (pos n) = ltb n 1 || ltb max_vec n
out_of_range (negsuc n) = true

unfoldable pub is_n_value2_valid : ℤ → ℤ → ℤ
is_n_value2_valid left n = if out_of_range n then minus_one else left

-- What the system offers `connect_to_server`: the result of `socket`, what `inet_pton` makes of a
-- text (`none` where it is no address), and whether `connect` to an address and a port succeeds.
pub record Network : Type 0 where
  pub socket : ℤ
  pub inet_pton : Bytes → Option ℕ
  pub connects : ℕ → ℕ → Bool

-- An address that `inet_pton` does not set is what the structure held.
abbrev address_after : ℕ → Option ℕ → ℕ
address_after held none = held
address_after held (some a) = a

-- The environment variables IP_TUPLAS and PORT_TUPLAS come last.
unfoldable pub connect_to_server : Network → ℕ → Option Bytes → Option Bytes → ℤ
connect_to_server net held none port_str = minus_one
connect_to_server net held (some ip) none = minus_one
connect_to_server net held (some ip) (some port_str) =
    if is_negative net.socket
    then minus_one
    else if net.connects (address_after held (net.inet_pton ip)) (port_of (atoi port_str))
    then net.socket
    else minus_one

-- `char res[MAXSTR]; readLine (sc, res, MAXSTR); return atoi (res);`
unfoldable pub read_result : List Event → Run ℤ
read_result es = read_into max_str none es >>= λ (s, r). done (atoi s)

-- The other side of a connection: what it makes of the bytes that are sent.
abbrev pub Peer : Type 0 → Type 0
Peer W = Bytes → W → Run (List Event × W)

-- The reply to what is sent is the result.
abbrev pub received_result : {W : Type 0} → Run (List Event × W) → Run (ℤ × W)
received_result m = m >>= λ (es, w). read_result es >>= λ res. done (res, w)

abbrev if_connected : {W : Type 0} → Bool → W → Run (ℤ × W) → Run (ℤ × W)
if_connected false w m = done (minus_one, w)
if_connected true w m = m

unfoldable pub destroy : {W : Type 0} → Bool → Peer W → W → Run (ℤ × W)
unfolding read_result
destroy connected server w =
    if_connected connected w (received_result (server (codes "1" ++ 0 ∷ []) w))

-- What `delete_key` and `exist` send.
unfoldable pub key_request : Bytes → ℤ → Run Bytes
key_request op key = printed (print_int key) >>= λ s. done (op ++ 0 ∷ s)

unfoldable pub delete_key : {W : Type 0} → Bool → Peer W → ℤ → W → Run (ℤ × W)
unfolding key_request read_result
delete_key connected server key w =
    if_connected connected w (key_request (codes "5") key >>= λ s. received_result (server s w))

unfoldable pub exist : {W : Type 0} → Bool → Peer W → ℤ → W → Run (ℤ × W)
unfolding key_request read_result
exist connected server key w =
    if_connected connected w (key_request (codes "6") key >>= λ s. received_result (server s w))

module _ (fl : Floats) where
  open fl use {Float}

  -- What `set_value` and `modify_value` send.
  unfoldable pub tuple_request : Bytes → Tuple Float → Run Bytes
  tuple_request op t = do
    key ← printed (print_int t.key)
    n ← printed (print_int t.n_value2)
    vs ← send_values fl (rounds t.n_value2) t.v_value2
    x ← printed (print_int t.value3.x)
    y ← printed (print_int t.value3.y)
    done (op ++ 0 ∷ (key ++ (t.value1 ++ 0 ∷ (n ++ (vs ++ (x ++ y))))))

  abbrev pub invalid : ℤ → ℤ → Tuple Float → Bool
  invalid left1 left2 t =
      int_eq (is_value1_valid left1 t.value1) minus_one
      || int_eq (is_n_value2_valid left2 t.n_value2) minus_one

  -- `set_value` and `modify_value` are the same text but for the number of the operation.
  unfoldable pub send_tuple_request :
      {W : Type 0} → Bytes → ℤ → ℤ → Bool → Peer W → Tuple Float → W → Run (ℤ × W)
  unfolding tuple_request is_value1_valid is_n_value2_valid read_result
  send_tuple_request op left1 left2 connected server t w =
      if invalid left1 left2 t
      then done (minus_one, w)
      else if_connected connected w (tuple_request op t >>= λ s. received_result (server s w))

  unfoldable pub set_value : {W : Type 0} → ℤ → ℤ → Bool → Peer W → Tuple Float → W → Run (ℤ × W)
  unfolding send_tuple_request
  set_value = send_tuple_request (codes "2")

  unfoldable pub modify_value : {W : Type 0} → ℤ → ℤ → Bool → Peer W → Tuple Float → W → Run (ℤ × W)
  unfolding send_tuple_request
  modify_value = send_tuple_request (codes "4")

  -- The reply of GET VALUE, read over the caller's variables; `b` is the text in the buffer.
  unfoldable pub receive_reply : ℤ → Tuple Float → Bytes → List Event → Run (ℤ × Tuple Float)
  unfolding read_result
  receive_reply key out b es = do
    (value1, e1) ← read_into max_str (some b) es
    (n, e2) ← read_into max_str (some value1) e1
    (vs, (left, e3)) ← read_values fl (rounds (atoi n)) n e2 out.v_value2
    (x, e4) ← read_into max_str (some left) e3
    (y, e5) ← read_into max_str (some x) e4
    res ← read_result e5
    done (
      res,
      record {
        key = key;
        value1 = value1;
        n_value2 = atoi n;
        v_value2 = vs;
        value3 = record { x = atoi x; y = atoi y };
      },
    )

  unfoldable pub get_value :
      {W : Type 0} → Bool → Peer W → ℤ → Tuple Float → W → Run ((ℤ × Tuple Float) × W)
  unfolding receive_reply key_request
  get_value false server key out w = done ((minus_one, out), w)
  get_value true server key out w = key_request (codes "3") key >>= λ s.
      server s w >>= λ (es, w1). receive_reply key out (print_int key) es >>= λ r. done (r, w1)
