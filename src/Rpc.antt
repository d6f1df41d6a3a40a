-- ===== src/Rpc.antt =====
-- ejercicio_evaluable_3/servidor-rpc.c: the procedures that a remote call runs. Each holds the mutex
-- while it uses the store, so the store has one user at a time.
pub mod Proxy
pub mod Refines
pub mod Calls
pub mod Remote
pub mod Keys
pub mod RoundTrip
use trabajos_sistemas_distri.Base.{
  ℕ, zero, suc, Bool, true, false, Bytes, ltb, length, List, [], ◌∷◌, if◌then◌else◌, ℤ, pos,
}
use trabajos_sistemas_distri.Stdio.Run.{Run, done, fault, ◌>>=◌}
use trabajos_sistemas_distri.Stdio.Disk.{Disk}
use trabajos_sistemas_distri.Claves.Floats.{Floats}
use trabajos_sistemas_distri.Claves.Tuples.{max_str, rounds, Tuple}
use trabajos_sistemas_distri.Claves.Store.{destroy, exist, delete_key, set_value, modify_value}
use trabajos_sistemas_distri.Sock.Server.{get_existing}

unfoldable pub rpc_destroy : Disk → ℤ × Disk
rpc_destroy d = destroy d

-- `strcpy` of a text into an array of MAXSTR bytes.
abbrev pub strcpy_max : Bytes → Run Bytes
strcpy_max s = if ltb (length s) max_str then done s else fault

module _ (fl : Floats) where
  open fl use {Float}

  -- `for (int i = 0; i < n; i++) to[i] = from[i];`
  unfoldable pub copy_loop : ℕ → List Float → List Float → Run (List Float)
  copy_loop zero from to = done to
  copy_loop (suc n) (v ∷ from) (w ∷ to) = copy_loop n from to >>= λ vs. done (v ∷ vs)
  copy_loop (suc n) _ _ = fault

  -- The arguments in the local variables of the procedure.
  unfoldable pub local_copy : Tuple Float → Tuple Float → Run (Tuple Float)
  unfolding copy_loop
  local_copy vars aux = do
    value1 ← strcpy_max aux.value1
    vs ← copy_loop (rounds aux.n_value2) aux.v_value2 vars.v_value2
    done (record aux { value1 = value1; v_value2 = vs })

  unfoldable pub rpc_set_value : Tuple Float → Tuple Float → Disk → Run (ℤ × Disk)
  unfolding local_copy
  rpc_set_value vars aux d = local_copy vars aux >>= λ t. set_value fl vars t d

  unfoldable pub rpc_modify_value : Tuple Float → Tuple Float → Disk → Run (ℤ × Disk)
  unfolding local_copy
  rpc_modify_value vars aux d = local_copy vars aux >>= λ t. modify_value fl vars t d

  -- The result code comes back as the key of the result; `old` is what the result held. Of a text
  -- variable that has not been set, `vars` has the bytes up to the first NUL, which may be beyond it.
  unfoldable pub rpc_get_value : Tuple Float → ℤ → Tuple Float → Disk → Run (Tuple Float)
  unfolding copy_loop
  rpc_get_value vars key old d = do
    (res, t) ← get_existing fl vars key vars d
    value1 ← strcpy_max t.value1
    vs ← copy_loop (rounds t.n_value2) t.v_value2 old.v_value2
    done (record t { key = res; value1 = value1; v_value2 = vs })

  unfoldable pub rpc_delete_key : Tuple Float → ℤ → Disk → Run (ℤ × Disk)
  rpc_delete_key vars key d = delete_key fl vars key d

  unfoldable pub rpc_exist : Tuple Float → ℤ → Disk → Run ℤ
  rpc_exist vars key d = exist fl vars key d >>= λ there. done (if there then pos 1 else pos 0)
