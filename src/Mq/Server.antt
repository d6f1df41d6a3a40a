-- ===== src/Mq/Server.antt =====
-- `tratar_peticion` of servidor-mq.c on its copy of the message.
use trabajos_sistemas_distri.Base.{if◌then◌else◌, ℤ, pos, minus_one, int_eq}
use trabajos_sistemas_distri.Stdio.Run.{Run, done, ◌>>=◌}
use trabajos_sistemas_distri.Stdio.Disk.{Disk}
use trabajos_sistemas_distri.Claves.Floats.{Floats}
use trabajos_sistemas_distri.Claves.Tuples.{Tuple}
use trabajos_sistemas_distri.Claves.Store.{
  destroy, exist, delete_key, set_value, get_value, modify_value,
}
use trabajos_sistemas_distri.Mq.{Message}

module _ (fl : Floats) where
  open fl use {Float}

  abbrev with_result : Message Float → Run (ℤ × Disk) → Run (Message Float × Disk)
  with_result pr m = m >>= λ (res, d). done (record pr { res = res }, d)

  abbrev with_value : Message Float → Disk → Run (ℤ × Tuple Float) → Run (Message Float × Disk)
  with_value pr d m =
      m >>= λ (res, t). done (record pr { res = res; tuple = record t { key = pr.tuple.key } }, d)

  -- The message that is sent back, and the disk; `vars` is what the local variables of the store's
  -- operations hold at the start.
  unfoldable pub tratar_peticion : Tuple Float → Message Float → Disk → Run (Message Float × Disk)
  tratar_peticion vars pr d =
      if int_eq pr.op (pos 1)
      then with_result pr (done (destroy d))
      else if int_eq pr.op (pos 2)
      then with_result pr (set_value fl vars pr.tuple d)
      else if int_eq pr.op (pos 3)
      then with_value pr d (get_value fl pr.tuple.key pr.tuple d)
      else if int_eq pr.op (pos 4)
      then with_result pr (modify_value fl vars pr.tuple d)
      else if int_eq pr.op (pos 5)
      then with_result pr (delete_key fl vars pr.tuple.key d)
      else if int_eq pr.op (pos 6)
      then with_result pr
          (exist fl vars pr.tuple.key d >>= λ there. done (if there then pos 1 else pos 0, d))
      else with_result pr (done (minus_one, d))
