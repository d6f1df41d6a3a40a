-- ===== src/Mq/Remote.antt =====
-- The proxy and the server of ejercicio_evaluable_1 together, and the queues that the proxy opens.
use trabajos_sistemas_distri.Base.{
  ℕ, zero, suc, ◌-◌, ◌≤◌, ◌<◌, Bool, true, false, Option, none, some, List, [], ◌∷◌, ◌++◌, ◌≡◌,
  refl, ◌||◌, ltb, if◌then◌else◌, Bytes, ℤ, pos, minus_one, length, take, drop, append-nil, arith,
  Bool-cases, inl, inr,
}
use trabajos_sistemas_distri.Stdio.Run.{Run, done, fault, starved, ◌>>=◌}
use trabajos_sistemas_distri.Stdio.Disk.{Disk}
use trabajos_sistemas_distri.Claves.Floats.{Floats, IsLawful}
use trabajos_sistemas_distri.Claves.Tuples.{max_str, max_vec, Tuple, write_vector, write_tuple}
use trabajos_sistemas_distri.Claves.Tuples.Print.{
  IsTuple, print_vector, print_tuple, write_vector_lem,
}
use trabajos_sistemas_distri.Claves.Tuples.Loops.{has_key}
use trabajos_sistemas_distri.Claves.Store.Holds.{Holds, without}
use trabajos_sistemas_distri.Claves.Store.Refines.{set_value_written, modify_value_written}
use trabajos_sistemas_distri.Claves.Tuples.Print.{arguments}
use trabajos_sistemas_distri.Mq.{Message}
use trabajos_sistemas_distri.Mq.Server.{tratar_peticion}
use trabajos_sistemas_distri.Mq.Proxy.{
  Call, open_server, open_client, close_server, close_client, unlink_client, Queues, named,
  received, d_send_receive, blank, copy_vector, filled, send_filled, set_value, modify_value, zeros,
  copy_text, out_of_range,
}

-- What a process holds of the queues: its two descriptors, and the queue of its own.
pub record Held : Type 0 where
  pub server : Bool
  pub client : Bool
  pub queue : Bool

abbrev after_call : Call → Held → Held
after_call open_server h = record h { server = true }
after_call open_client h = record h { client = true; queue = true }
after_call close_server h = record h { server = false }
after_call close_client h = record h { client = false }
after_call unlink_client h = record h { queue = false }

abbrev pub after : List Call → Held → Held
after [] h = h
after (c ∷ cs) h = after cs (after_call c h)

abbrev pub nothing : Held
nothing = record { server = false; client = false; queue = false }

pub take-all : (n : ℕ) (s : Bytes) → length s ≤ n → take n s ≡ s
take-all zero [] h = refl
take-all zero (c ∷ s) h = absurd (omega arith)
take-all (suc n) [] h = refl
take-all (suc n) (c ∷ s) h = rw (take-all n s (omega arith)) refl

module _ (fl : Floats) where
  open fl use {Float}

  received-gives_back :
      (pr : Message Float) (o : Option (Message Float))
      → after (received fl pr o).1 nothing ≡ nothing
  received-gives_back pr none = refl
  received-gives_back pr (some r) = refl

  -- From the calls of a run that is known.
  gives_back_of :
      {W : Type 0} (x r : (ℤ × Message Float) × List Call) (w w1 : W)
      → ◌≡◌ {A = Run (((ℤ × Message Float) × List Call) × W)} (done (x, w)) (done (r, w1))
      → after x.1 nothing ≡ nothing
      → after r.1 nothing ≡ nothing
  gives_back_of x r w w1 h e = cc

  replied-gives_back :
      {W : Type 0} (pr : Message Float) (m : Run (Option (Message Float) × W))
      (r : (ℤ × Message Float) × List Call) (w1 : W)
      → ◌>>=◌ {B = ((ℤ × Message Float) × List Call) × W} m (λ (o, w2). done (received fl pr o, w2))
        ≡ done (r, w1)
      → after r.1 nothing ≡ nothing
  replied-gives_back pr (done (o, w2)) r w1 h =
      gives_back_of (received fl pr o) r w2 w1 h (received-gives_back pr o)
  replied-gives_back pr fault r w1 h = cc
  replied-gives_back pr starved r w1 h = cc

  -- When `d_send_receive` returns, however the calls ended, it has closed what it opened and has
  -- taken the client's queue out of the system.
  pub d_send_receive-gives_back :
      {W : Type 0} (q : Queues fl W) (pr : Message Float) (w w1 : W)
      (r : (ℤ × Message Float) × List Call)
      → d_send_receive fl q pr w ≡ done (r, w1)
      → after r.1 nothing ≡ nothing
  unfolding d_send_receive
  d_send_receive-gives_back q pr w w1 r h = elim (Bool-cases q.server_opens) [
    | inr e ↦ gives_back_of _ r w w1 (rw e at h) refl
    | inl e ↦ elim (Bool-cases q.client_opens) [
      | inr f ↦ gives_back_of _ r w w1 (rw (e, f) at h) refl
      | inl f ↦ elim (Bool-cases q.sends) [
        | inr g ↦ gives_back_of _ r w w1 (rw (e, f, g) at h) refl
        | inl g ↦
            replied-gives_back (named fl q.pid pr) (q.reply (named fl q.pid pr) w) r w1
              (rw (e, f, g) at h)
      ]
    ]
  ]

  -- Queues on which every call succeeds, with the server at the other end.
  abbrev pub store_queues : ℤ → Tuple Float → Queues fl Disk
  store_queues pid vars = record {
    pid = pid;
    server_opens = true;
    client_opens = true;
    sends = true;
    reply = λ m d. tratar_peticion fl vars m d >>= λ (r, d1). done (some r, d1);
  }

  -- A tuple at the beginning of a longer array is written as it is.
  pub write_tuple-longer :
      (t : Tuple Float) (more : List Float)
      → IsTuple fl t
      → write_tuple fl (record t { v_value2 = t.v_value2 ++ more }) ≡ done (print_tuple fl t)
  unfolding write_tuple print_tuple
  write_tuple-longer t more v =
      let e : write_vector fl (length t.v_value2) (t.v_value2 ++ more)
          ≡ done (print_vector fl t.v_value2) =
        write_vector_lem fl t.v_value2 more in
      rw (v.counted, e) refl

  module _ (zero_float : Float) where
    copy_vector_lem :
        (vs more arr : List Float)
        → length vs ≤ length arr
        → copy_vector fl zero_float (length vs) (vs ++ more) arr ≡ done (vs ++ drop (length vs) arr)
    unfolding copy_vector
    copy_vector_lem [] more arr h = refl
    copy_vector_lem (v ∷ vs) more [] h = absurd (omega arith)
    copy_vector_lem (v ∷ vs) more (w ∷ arr) h = rw (copy_vector_lem vs more arr (omega arith)) refl

    -- The message for a tuple.
    pub message : ℤ → Tuple Float → Message Float
    message op t = record (blank fl zero_float op t.key) {
      tuple = record t {
        v_value2 = t.v_value2 ++ drop (length t.v_value2) (zeros fl zero_float max_vec);
      };
    }

    -- With its NUL, what `strncpy` copies into an empty array is the whole text.
    copy_text-fits : (s : Bytes) → length s < max_str → copy_text fl zero_float [] s ≡ s
    copy_text-fits s h = elim (Bool-cases (ltb (length s) (max_str - 1))) [
      | inl e ↦ rw e refl
      | inr e ↦ rw (e, append-nil, take-all (max_str - 1) s (omega (arith, h))) refl
    ]

    filled_lem :
        (op : ℤ) (t : Tuple Float) (more : List Float)
        → IsTuple fl t
        → filled fl zero_float op (arguments fl t more) ≡ done (message op t)
    unfolding filled message
    filled_lem op t more v =
        let vs : copy_vector fl zero_float (length t.v_value2) (t.v_value2 ++ more)
              (zeros fl zero_float max_vec)
            ≡ done (t.v_value2 ++ drop (length t.v_value2) (zeros fl zero_float max_vec)) =
          copy_vector_lem t.v_value2 more (zeros fl zero_float max_vec) (omega (arith, v.fits)) in
        rw (v.counted, vs, copy_text-fits t.value1 v.value1.fits) refl

    in_range :
        (t : Tuple Float)
        → IsTuple fl t
        → 0 < length t.v_value2
        → (out_of_range fl zero_float t.n_value2 || ltb max_str (length t.value1)) ≡ false
    in_range t v h = rw v.counted (ground (arith, v.fits, v.value1.fits))

    module _ (lawful : IsLawful fl) (pid : ℤ) (vars : Tuple Float)
        (room : length vars.v_value2 ≡ max_vec) (ts : List (Tuple Float)) (d : Disk)
        (h : Holds fl ts d) (t : Tuple Float) (more : List Float) (v : IsTuple fl t)
        (some_values : 0 < length t.v_value2) where
      abbrev sent : Tuple Float
      sent = record t {
        v_value2 = t.v_value2 ++ drop (length t.v_value2) (zeros fl zero_float max_vec);
      }

      -- `set_value` of the proxy, on queues where every call succeeds and with the server of a
      -- store of tuples at the other end, of a tuple with 1 to 32 components at the beginning of an
      -- array of any length: the server adds the tuple to its store and the proxy returns 0, or the
      -- key is there already, the store stays, and the proxy returns -1.
      pub set_value_queued :
          (d' : Disk) × (set_value fl zero_float (store_queues pid vars) (arguments fl t more) d
            ≡ done (if has_key fl t.key ts then minus_one else pos 0, d'))
          × Holds fl (if has_key fl t.key ts then ts else ts ++ t ∷ []) d'
      unfolding set_value send_filled d_send_receive tratar_peticion message blank
      set_value_queued =
          let (d', ran, held) =
            set_value_written fl lawful vars room ts d h t sent v refl (write_tuple-longer t _ v) in
          (d', rw (in_range t v some_values, filled_lem (pos 2) t more v, ran) refl, held)

      -- `modify_value` of the proxy, under the same conditions: the server puts the tuple in the
      -- place of the one of its key, at the end of the store, and the proxy returns 0; or there is
      -- none of that key, the store stays, and the proxy returns -1.
      pub modify_value_queued :
          (d' : Disk) × (modify_value fl zero_float (store_queues pid vars) (arguments fl t more) d
            ≡ done (if has_key fl t.key ts then pos 0 else minus_one, d'))
          × Holds fl (if has_key fl t.key ts then without fl t.key ts ++ t ∷ [] else ts) d'
      unfolding modify_value send_filled d_send_receive tratar_peticion message blank
      modify_value_queued =
          let (d', ran, held) =
            modify_value_written fl lawful vars room ts d h t sent v refl
              (write_tuple-longer t _ v) in
          (d', rw (in_range t v some_values, filled_lem (pos 4) t more v, ran) refl, held)
