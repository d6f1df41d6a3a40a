-- ===== src/Claves/Store.antt =====
-- The store of tuples of ejercicio_evaluable_1/claves/claves.c, on the file data.txt. What the
-- local variables of a call hold before they are read into is an argument.
pub mod Holds
pub mod Refines
pub mod RoundTrip
use trabajos_sistemas_distri.Base.{
  ℕ, suc, Bool, true, false, Option, none, some, List, [], ◌∷◌, ◌++◌, if◌then◌else◌, Bytes, codes,
  ℤ, pos, minus_one, int_eq, length,
}
use trabajos_sistemas_distri.Stdio.Run.{Run, done, fault, starved, ◌>>=◌}
use trabajos_sistemas_distri.Stdio.Disk.{
  Disk, open_read, open_write, open_append, write, replace_file, unless_null,
}
use trabajos_sistemas_distri.Claves.Floats.{Floats}
use trabajos_sistemas_distri.Claves.Tuples.{Tuple, write_tuple, tuples, find_key}

abbrev pub data_file : Bytes
data_file = codes "data.txt"

unfoldable pub destroy : Disk → ℤ × Disk
destroy d = unless_null (open_write data_file d) (minus_one, d) (λ d1. (pos 0, d1))

module _ (fl : Floats) where
  open fl use {Float}

  -- `exist`, with its 1 and 0 as truth values
  unfoldable pub exist : Tuple Float → ℤ → Disk → Run Bool
  exist vars key d =
      unless_null (open_read data_file d) (done false)
        λ text. find_key fl key (suc (length text)) vars text >>= λ (there, l). done there

  -- What the loop of `delete_key` writes for the variables of each round.
  unfoldable pub keep_loop : ℤ → List (Tuple Float) → Run Bytes
  keep_loop key [] = done []
  keep_loop key (l ∷ ls) =
      let rest = keep_loop key ls in
      if int_eq l.key key
      then rest
      else (write_tuple fl l >>= λ s. rest >>= λ more. done (s ++ more))

  -- `delete_key` after its guard
  unfoldable pub delete_present : Tuple Float → ℤ → Disk → Run (ℤ × Disk)
  unfolding keep_loop
  delete_present vars key d = unless_null (open_read data_file d) (done (minus_one, d)) λ text.
      unless_null (open_write (codes "temp.txt") d) (done (minus_one, d)) λ d1. do
        ls ← tuples fl (suc (length text)) vars text
        kept ← keep_loop key ls
        done (pos 0, replace_file (codes "temp.txt") data_file kept d1)

  unfoldable pub delete_key : Tuple Float → ℤ → Disk → Run (ℤ × Disk)
  delete_key vars key d =
      exist vars key d >>= λ there. if there then delete_present vars key d else done (minus_one, d)

  -- `set_value` after its guard
  unfoldable pub append_tuple : Tuple Float → Disk → Run (ℤ × Disk)
  append_tuple t d =
      unless_null (open_append data_file d) (done (minus_one, d))
        λ d1. write_tuple fl t >>= λ s. done (pos 0, write data_file s d1)

  unfoldable pub set_value : Tuple Float → Tuple Float → Disk → Run (ℤ × Disk)
  set_value vars t d =
      exist vars t.key d >>= λ there. if there then done (minus_one, d) else append_tuple t d

  -- The code and the caller's variables.
  unfoldable pub get_value : ℤ → Tuple Float → Disk → Run (ℤ × Tuple Float)
  get_value key out d = unless_null (open_read data_file d) (done (minus_one, out)) λ text.
      find_key fl key (suc (length text)) out text >>= λ (there, l).
      done (if there then pos 0 else minus_one, l)

  abbrev modify_present : Tuple Float → Tuple Float → Disk → Run (ℤ × Disk)
  modify_present vars t d = do
    (deleted, d1) ← delete_key vars t.key d
    (set, d2) ← set_value vars t d1
    done (pos 0, d2)

  unfoldable pub modify_value : Tuple Float → Tuple Float → Disk → Run (ℤ × Disk)
  modify_value vars t d =
      exist vars t.key d >>= λ there. if there then modify_present vars t d else done (minus_one, d)
