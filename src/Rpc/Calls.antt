-- ===== src/Rpc/Calls.antt =====
-- Remote calls of proxy-rpc.c that are delivered to servidor-rpc.c.
use trabajos_sistemas_distri.Base.{
  ◌≤◌, ◌<◌, Bool, true, false, Option, none, some, List, [], ◌∷◌, ◌++◌, ◌≡◌, refl, Bytes, ℤ,
  minus_one, int_eq, length, map, codes, str_eq, drop, arith, Bool-cases, inl, inr,
}
use trabajos_sistemas_distri.Stdio.Run.{Run, done, ◌>>=◌}
use trabajos_sistemas_distri.Stdio.Disk.{Disk}
use trabajos_sistemas_distri.Claves.Floats.{Floats}
use trabajos_sistemas_distri.Claves.Tuples.{max_vec, Tuple}
use trabajos_sistemas_distri.Claves.Tuples.Print.{IsTuple}
use trabajos_sistemas_distri.Sock.Proxy.{is_value1_valid, is_n_value2_valid, invalid}
use trabajos_sistemas_distri.Rpc.{copy_loop}
use trabajos_sistemas_distri.Rpc.Refines.{copy_loop_lem}
use trabajos_sistemas_distri.Claves.Tuples.Print.{arguments}
use trabajos_sistemas_distri.Rpc.Proxy.{get_ip_tuplas, Client, fill_aux}

-- A call that reaches the server, whose reply comes back.
abbrev pub delivered : {A : Type 0} → (Disk → Run (A × Disk)) → Disk → Run (Option A × Disk)
delivered f d = f d >>= λ (r, d1). done (some r, d1)

-- The same for a procedure that leaves the disk alone.
abbrev pub answered : {A : Type 0} → (Disk → Run A) → Disk → Run (Option A × Disk)
answered f d = f d >>= λ r. done (some r, d)

module _ (fl : Floats) where
  open fl use {Float, rounded}

  -- Where the server can be found, and room in the variables that the arguments are put in.
  pub record CanCall (clnt_create : Bytes → Bool) (c : Client fl) : Type 0 where
    pub address : Bytes
    pub known : get_ip_tuplas c.ip_tuplas ≡ some address
    pub up : clnt_create address ≡ true
    pub set_room : length c.rpc_set_value_1_aux.v_value2 ≡ max_vec
    pub modify_room : length c.rpc_modify_value_1_aux.v_value2 ≡ max_vec

  get_ip_tuplas_again :
      (o : Option Bytes) (ip : Bytes)
      → get_ip_tuplas o ≡ some ip
      → get_ip_tuplas (some ip) ≡ some ip
  unfolding get_ip_tuplas str_eq
  get_ip_tuplas_again none ip e = cc
  get_ip_tuplas_again (some o) ip e = elim (Bool-cases (str_eq o (codes "localhost"))) [
    | inl t ↦ ground arith
    | inr t ↦ ground arith
  ]

  pub fill_aux_lem :
      (aux t : Tuple Float) (more : List Float)
      → IsTuple fl t
      → length aux.v_value2 ≡ max_vec
      → fill_aux fl aux (arguments fl t more)
        ≡ done (arguments fl t (drop (length t.v_value2) aux.v_value2))
  unfolding fill_aux
  fill_aux_lem aux t more v room =
      rw (v.counted, copy_loop_lem fl t.v_value2 more aux.v_value2 (omega (arith, v.fits, room)))
        (ground (arith, v.value1.fits))

  pub invalid_lem :
      (left1 left2 : ℤ) (t : Tuple Float) (more : List Float)
      → int_eq left1 minus_one ≡ false
      → int_eq left2 minus_one ≡ false
      → IsTuple fl t
      → 0 < length t.v_value2
      → invalid fl left1 left2 (arguments fl t more) ≡ false
  unfolding is_value1_valid is_n_value2_valid
  invalid_lem left1 left2 t more h1 h2 v some_values =
      rw v.counted (ground (arith, v.fits, v.value1.fits))

  module _ {clnt_create : Bytes → Bool} {c : Client fl} (can : CanCall clnt_create c) where
    -- What a call leaves of the variables, but for those of its own.
    abbrev pub called : Client fl
    called = record c { ip_tuplas = some can.address }

    pub CanCall-still :
        (c' : Client fl)
        → c'.ip_tuplas ≡ some can.address
        → length c'.rpc_set_value_1_aux.v_value2 ≡ max_vec
        → length c'.rpc_modify_value_1_aux.v_value2 ≡ max_vec
        → CanCall clnt_create c'
    CanCall-still c' e s m = record {
      address = can.address;
      known = rw e (get_ip_tuplas_again c.ip_tuplas can.address can.known);
      up = can.up;
      set_room = s;
      modify_room = m;
    }

  pub length-arguments :
      (vs ws : List Float) → length vs ≤ length ws → length (vs ++ drop (length vs) ws) ≡ length ws
  length-arguments [] ws h = refl
  length-arguments (v ∷ vs) [] h = absurd (omega arith)
  length-arguments (v ∷ vs) (w ∷ ws) h = omega (arith, length-arguments vs ws (omega arith))

  -- Components that have been read, copied to the beginning of another array.
  pub copied :
      (more vs ws : List Float)
      → length vs ≤ length ws
      → copy_loop fl (length vs) (map rounded vs ++ more) ws
        ≡ done (map rounded vs ++ drop (length vs) ws)
  unfolding copy_loop
  copied more [] ws h = refl
  copied more (v ∷ vs) [] h = absurd (omega arith)
  copied more (v ∷ vs) (w ∷ ws) h = rw (copied more vs ws (omega arith)) refl
