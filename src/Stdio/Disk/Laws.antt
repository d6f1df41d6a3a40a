-- ===== src/Stdio/Disk/Laws.antt =====
-- What the file operations leave on the disk.
use trabajos_sistemas_distri.Base.{
  true, false, Option, none, some, ◌++◌, [], ◌≡◌, Bytes, str_eq, str_eq_iff, str_eq_self, ◌≢◌,
  arith, Bool-cases, inl, inr, sym, ap, ◌∙◌,
}
use mathlib.Core.Path.{fun_ext}
use trabajos_sistemas_distri.Stdio.Disk.{
  Disk, put, open_write, open_append, write, remove, rename, replace_file,
}

-- The disk after `fopen (f, "w")`.
abbrev pub emptied : Bytes → Disk → Disk
emptied f d = record d { files = put d.files f (some []) }

pub open_write_granted :
    (f : Bytes) (d : Disk) → d.writable f ≡ true → open_write f d ≡ some (emptied f d)
unfolding open_write
open_write_granted f d h = rw h

pub str_eq_ne : (a b : Bytes) → a ≢ b → str_eq a b ≡ false
str_eq_ne a b h = elim (Bool-cases (str_eq a b)) [
  | inl e ↦ absurd (h ((str_eq_iff a b).0 e))
  | inr e ↦ e
]

-- The disk with other files, and the same permissions.
abbrev pub with_files : Disk → (Bytes → Option Bytes) → Disk
with_files d files = record d { files = files }

rename_there :
    (f g : Bytes) (d : Disk) (s : Bytes)
    → d.files f ≡ some s
    → rename f g d ≡ with_files d (put (put d.files f none) g (some s))
unfolding rename
rename_there f g d s h = ground arith

replaced_files :
    (temp f s : Bytes) (files : Bytes → Option Bytes) (g : Bytes)
    → put (put (put (put (put files temp (some [])) temp (some s)) f none) temp none) f (some s) g
      ≡ put (put files temp none) f (some s) g
replaced_files temp f s files g = ground arith

-- The file has the new content, the temporary one is gone, and no other has changed.
pub replace_file_lem :
    (temp f s : Bytes) (d : Disk)
    → temp ≢ f
    → replace_file temp f s (emptied temp d) ≡ with_files d (put (put d.files temp none) f (some s))
unfolding replace_file write remove
replace_file_lem temp f s d h =
    rename_there temp f (remove f (write temp s (emptied temp d))) s
      (ground (arith, str_eq_self temp, str_eq_ne f temp (λ e. h (sym e))))
    ∙ ap (with_files d) (fun_ext λ g. ground (arith, str_eq_self temp))

-- Text written behind `fopen (f, "a")`.
pub append_file_lem :
    (f s t : Bytes) (d : Disk)
    → d.writable f ≡ true
    → d.files f ≡ some t
    → (d1 : Disk) × (open_append f d ≡ some d1)
      × (write f s d1 ≡ with_files d (put d.files f (some (t ++ s))))
unfolding open_append write
append_file_lem f s t d h k = (
  with_files d (put d.files f (some t)),
  ground arith,
  ap (with_files d) (fun_ext λ g. ground (arith, str_eq_self f)),
)
