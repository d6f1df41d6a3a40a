-- ===== src/Mq/Proxy.antt =====
-- proxy-mq.c: the operations of the store for a client. How each call on a queue ends is an
-- argument; what a message that is sent changes is kept in `W`, all that stands outside of the
-- process.
use trabajos_sistemas_distri.Base.{
  ℕ, zero, suc, ◌-◌, ◌||◌, Bool, true, Option, none, some, List, [], ◌∷◌, ◌++◌, ltb, if◌then◌else◌,
  Bytes, codes, ℤ, pos, negsuc, minus_one, int_eq, length, take,
}
use trabajos_sistemas_distri.Stdio.Run.{Run, done, fault, ◌>>=◌}
use trabajos_sistemas_distri.Stdio.Decimal.{print_int}
use trabajos_sistemas_distri.Claves.Floats.{Floats}
use trabajos_sistemas_distri.Claves.Tuples.{max_str, max_vec, Tuple}
use trabajos_sistemas_distri.Mq.{Message}

-- The calls that take and give back a queue.
pub data Call : Type 0 where
  open_server : Call
  open_client : Call
  close_server : Call
  close_client : Call
  unlink_client : Call

module _ (fl : Floats) where
  open fl use {Float}

  -- Whether each call succeeds; `reply` is what `mq_receive` finds for the message that was sent,
  -- and what the message has changed.
  pub record Queues (W : Type 0) : Type 0 where
    pub pid : ℤ
    pub server_opens : Bool
    pub client_opens : Bool
    pub sends : Bool
    pub reply : Message Float → W → Run (Option (Message Float) × W)

  -- `strcpy (pr->q_name, qr_name)`
  abbrev pub named : ℤ → Message Float → Message Float
  named pid pr = record pr { q_name = codes "/CLIENTE_" ++ print_int pid }

  abbrev minus_two : ℤ
  minus_two = negsuc 1

  abbrev pub give_back : List Call
  give_back = close_server ∷ close_client ∷ unlink_client ∷ []

  abbrev pub received : Message Float → Option (Message Float) → (ℤ × Message Float) × List Call
  received pr none = ((minus_two, pr), open_server ∷ open_client ∷ give_back)
  received pr (some r) = ((r.res, r), open_server ∷ open_client ∷ give_back)

  -- The result, the message afterwards, and the calls that succeeded.
  unfoldable pub d_send_receive :
      {W : Type 0} → Queues W → Message Float → W → Run (((ℤ × Message Float) × List Call) × W)
  d_send_receive q pr w =
      if q.server_opens
      then (if q.client_opens
          then (if q.sends
              then (q.reply (named q.pid pr) w >>= λ (r, w1).
                  done (received (named q.pid pr) r, w1))
              else done (((minus_two, named q.pid pr), open_server ∷ open_client ∷ give_back), w))
          else done (((minus_two, pr), open_server ∷ close_server ∷ []), w))
      else done (((minus_two, pr), []), w)

  -- `return d_send_receive (&pr);`
  abbrev pub result_of : {W : Type 0} → Run (((ℤ × Message Float) × List Call) × W) → Run (ℤ × W)
  result_of m = m >>= λ (((res, pr), calls), w). done (res, w)

  module _ (zero_float : Float) where
    abbrev pub zeros : ℕ → List Float
    zeros zero = []
    zeros (suc n) = zero_float ∷ zeros n

    -- `memset (&pr, 0, sizeof (struct message)); pr.op = op; pr.key = key;`
    unfoldable pub blank : ℤ → ℤ → Message Float
    blank op key = record {
      op = op;
      q_name = [];
      tuple = record {
        key = key;
        value1 = [];
        n_value2 = pos 0;
        v_value2 = zeros max_vec;
        value3 = record { x = pos 0; y = pos 0 };
      };
      res = pos 0;
    }

    -- `memcpy (to, from, n * sizeof (double))`
    unfoldable pub copy_vector : ℕ → List Float → List Float → Run (List Float)
    copy_vector zero from to = done to
    copy_vector (suc n) (v ∷ from) (w ∷ to) = copy_vector n from to >>= λ vs. done (v ∷ vs)
    copy_vector (suc n) _ _ = fault

    -- A negative `n` is converted to a size beyond any array.
    abbrev copy_count : ℤ → List Float → List Float → Run (List Float)
    copy_count (pos n) from to = copy_vector n from to
    copy_count (negsuc n) from to = fault

    -- `strncpy (to, from, MAXSTR - 1)` of a text into an array of MAXSTR bytes, and what the text
    -- in the array is afterwards: one of MAXSTR - 1 bytes or more gets no NUL, and goes on with
    -- `behind`, what the array holds from its last byte on.
    abbrev pub copy_text : Bytes → Bytes → Bytes
    copy_text behind from =
        if ltb (length from) (max_str - 1) then from else take (max_str - 1) from ++ behind

    abbrev pub out_of_range : ℤ → Bool
    out_of_range (pos n) = ltb n 1 || ltb max_vec n
    out_of_range (negsuc n) = true

    -- What `set_value` and `modify_value` send.
    unfoldable pub filled : ℤ → Tuple Float → Run (Message Float)
    unfolding blank copy_vector
    filled op t = copy_count t.n_value2 t.v_value2 (zeros max_vec) >>= λ vs.
        done (record (blank op t.key) {
          tuple = record {
            key = t.key;
            value1 = copy_text [] t.value1;
            n_value2 = t.n_value2;
            v_value2 = vs;
            value3 = t.value3;
          };
        })

    -- `set_value` and `modify_value` are the same text but for the number of the operation.
    unfoldable pub send_filled : {W : Type 0} → ℤ → Queues W → Tuple Float → W → Run (ℤ × W)
    unfolding filled d_send_receive
    send_filled op q t w =
        if out_of_range t.n_value2 || ltb max_str (length t.value1)
        then done (minus_one, w)
        else (filled op t >>= λ pr. result_of (d_send_receive q pr w))

    unfoldable pub set_value : {W : Type 0} → Queues W → Tuple Float → W → Run (ℤ × W)
    unfolding send_filled
    set_value = send_filled (pos 2)

    unfoldable pub modify_value : {W : Type 0} → Queues W → Tuple Float → W → Run (ℤ × W)
    unfolding send_filled
    modify_value = send_filled (pos 4)

    unfoldable pub destroy : {W : Type 0} → Queues W → W → Run (ℤ × W)
    unfolding blank d_send_receive
    destroy q w = result_of (d_send_receive q (blank (pos 1) (pos 0)) w)

    unfoldable pub delete_key : {W : Type 0} → Queues W → ℤ → W → Run (ℤ × W)
    unfolding blank d_send_receive
    delete_key q key w = result_of (d_send_receive q (blank (pos 5) key) w)

    unfoldable pub exist : {W : Type 0} → Queues W → ℤ → W → Run (ℤ × W)
    unfolding blank d_send_receive
    exist q key w = result_of (d_send_receive q (blank (pos 6) key) w)

    abbrev got_value : Bytes → Tuple Float → ℤ × Message Float → Run (ℤ × Tuple Float)
    got_value behind out (res, pr) =
        if int_eq res (pos 0)
        then (copy_count pr.tuple.n_value2 pr.tuple.v_value2 out.v_value2 >>= λ vs. done (
          res,
          record pr.tuple {
            key = out.key;
            value1 = copy_text behind pr.tuple.value1;
            v_value2 = vs;
          },
        ))
        else done (res, out)

    -- The code and the caller's variables; `behind` is what the caller's array for the text holds
    -- from its last byte on.
    unfoldable pub get_value :
        {W : Type 0} → Queues W → ℤ → Bytes → Tuple Float → W → Run ((ℤ × Tuple Float) × W)
    unfolding blank copy_vector d_send_receive
    get_value q key behind out w = d_send_receive q (blank (pos 3) key) w >>= λ ((r, calls), w1).
        got_value behind out r >>= λ a. done (a, w1)
