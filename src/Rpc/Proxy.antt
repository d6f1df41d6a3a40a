-- ===== src/Rpc/Proxy.antt =====
-- ejercicio_evaluable_3/proxy-rpc.c: the operations of the store for a client. `clnt_create` says
-- for an address whether there is a client handle for it. A remote call is a function on whatever
-- stands outside of the process, `W`; it gives `none` where its status is not RPC_SUCCESS, and then
-- the result is left as it was.
use trabajos_sistemas_distri.Base.{
  Bool, Option, none, some, ltb, if◌then◌else◌, Bytes, codes, str_eq, ℤ, minus_one, length,
}
use trabajos_sistemas_distri.Stdio.Run.{Run, done, fault, ◌>>=◌}
use trabajos_sistemas_distri.Claves.Floats.{Floats}
use trabajos_sistemas_distri.Claves.Tuples.{max_str, rounds, Tuple}
use trabajos_sistemas_distri.Sock.Proxy.{invalid}
use trabajos_sistemas_distri.Rpc.{strcpy_max, copy_loop}

-- The process goes on, or has ended in `exit (1)`.
pub data Outcome (A : Type 0) : Type 0 where
  returned : A → Outcome A
  exited : Outcome A

-- The result of a remote call, kept in a variable.
abbrev pub result_after : {A : Type 0} → A → Option A → A
result_after old none = old
result_after old (some r) = r

-- The environment variable IP_TUPLAS as the function leaves and returns it; `none` where it ends
-- the process.
unfoldable pub get_ip_tuplas : Option Bytes → Option Bytes
get_ip_tuplas none = none
get_ip_tuplas (some ip) =
    if str_eq ip (codes "localhost") then some (codes "127.0.0.1") else some ip

module _ (fl : Floats) where
  open fl use {Float}

  -- The environment variable and the global variables that one call leaves to the next.
  pub record Client : Type 0 where
    pub ip_tuplas : Option Bytes
    pub result_1 : ℤ
    pub result_2 : ℤ
    pub result_3 : Tuple Float
    pub result_4 : ℤ
    pub result_5 : ℤ
    pub result_6 : ℤ
    pub rpc_set_value_1_aux : Tuple Float
    pub rpc_modify_value_1_aux : Tuple Float

  -- `strcpy` and the assignments that fill the argument of a call.
  unfoldable pub fill_aux : Tuple Float → Tuple Float → Run (Tuple Float)
  fill_aux aux t =
      if ltb (length t.value1) max_str
      then (copy_loop fl (rounds t.n_value2) t.v_value2 aux.v_value2 >>= λ vs.
          done (record t { v_value2 = vs }))
      else fault

  -- `get_ip_tuplas` and `clnt_create`, in front of a call.
  abbrev at_server :
      (Bytes → Bool)
      → {A : Type 0} → Client
      → Option Bytes
      → (Client → Run (Outcome A))
      → Run (Outcome A)
  at_server clnt_create c none go = done exited
  at_server clnt_create c (some ip) go =
      if clnt_create ip then go (record c { ip_tuplas = some ip }) else done exited

  module _ {W : Type 0} (clnt_create : Bytes → Bool) where
    unfoldable pub destroy :
        (W → Run (Option ℤ × W)) → Client → W → Run (Outcome (ℤ × (Client × W)))
    unfolding get_ip_tuplas
    destroy rpc_destroy_1 c w = at_server clnt_create c (get_ip_tuplas c.ip_tuplas) λ c1.
        rpc_destroy_1 w >>= λ (answer, w1).
        let r = result_after c1.result_1 answer in
        done (returned (r, (record c1 { result_1 = r }, w1)))

    unfoldable pub set_value :
        ℤ
        → ℤ
        → (Tuple Float → W → Run (Option ℤ × W))
        → Tuple Float
        → Client
        → W
        → Run (Outcome (ℤ × (Client × W)))
    unfolding get_ip_tuplas fill_aux
    set_value left1 left2 rpc_set_value_1 t c w =
        if invalid fl left1 left2 t
        then done (returned (minus_one, (c, w)))
        else at_server clnt_create c (get_ip_tuplas c.ip_tuplas) λ c1.
          fill_aux c1.rpc_set_value_1_aux t >>= λ aux. rpc_set_value_1 aux w >>= λ (answer, w1).
          let r = result_after c1.result_2 answer in
          done (returned (r, (record c1 { result_2 = r; rpc_set_value_1_aux = aux }, w1)))

    -- The code, and the caller's variables, whose text has room for MAXSTR bytes: the key is that of
    -- the call.
    unfoldable pub get_value :
        (ℤ → W → Run (Option (Tuple Float) × W))
        → ℤ
        → Tuple Float
        → Client
        → W
        → Run (Outcome ((ℤ × Tuple Float) × (Client × W)))
    unfolding get_ip_tuplas
    get_value rpc_get_value_1 key out c w =
        at_server clnt_create c (get_ip_tuplas c.ip_tuplas) λ c1.
          rpc_get_value_1 key w >>= λ (answer, w1).
          let r = result_after c1.result_3 answer in
          strcpy_max r.value1 >>= λ value1.
          copy_loop fl (rounds r.n_value2) r.v_value2 out.v_value2 >>= λ vs. done (
            returned (
              (r.key, record r { key = key; value1 = value1; v_value2 = vs }),
              (record c1 { result_3 = r }, w1),
            ))

    unfoldable pub modify_value :
        ℤ
        → ℤ
        → (Tuple Float → W → Run (Option ℤ × W))
        → Tuple Float
        → Client
        → W
        → Run (Outcome (ℤ × (Client × W)))
    unfolding get_ip_tuplas fill_aux
    modify_value left1 left2 rpc_modify_value_1 t c w =
        if invalid fl left1 left2 t
        then done (returned (minus_one, (c, w)))
        else at_server clnt_create c (get_ip_tuplas c.ip_tuplas) λ c1.
          fill_aux c1.rpc_modify_value_1_aux t >>= λ aux.
          rpc_modify_value_1 aux w >>= λ (answer, w1).
          let r = result_after c1.result_4 answer in
          done (returned (r, (record c1 { result_4 = r; rpc_modify_value_1_aux = aux }, w1)))

    unfoldable pub delete_key :
        (ℤ → W → Run (Option ℤ × W)) → ℤ → Client → W → Run (Outcome (ℤ × (Client × W)))
    unfolding get_ip_tuplas
    delete_key rpc_delete_key_1 key c w = at_server clnt_create c (get_ip_tuplas c.ip_tuplas) λ c1.
        rpc_delete_key_1 key w >>= λ (answer, w1).
        let r = result_after c1.result_5 answer in
        done (returned (r, (record c1 { result_5 = r }, w1)))

    unfoldable pub exist :
        (ℤ → W → Run (Option ℤ × W)) → ℤ → Client → W → Run (Outcome (ℤ × (Client × W)))
    unfolding get_ip_tuplas
    exist rpc_exist_1 key c w = at_server clnt_create c (get_ip_tuplas c.ip_tuplas) λ c1.
        rpc_exist_1 key w >>= λ (answer, w1).
        let r = result_after c1.result_6 answer in
        done (returned (r, (record c1 { result_6 = r }, w1)))
