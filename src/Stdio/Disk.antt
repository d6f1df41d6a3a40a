-- ===== src/Stdio/Disk.antt =====
-- Files by name, with `fopen`, `fprintf`, `remove` and `rename`. A write that the system has let
-- begin does not fail.
pub mod Laws
use trabajos_sistemas_distri.Base.{
  Bool, true, false, Option, none, some, ◌++◌, [], ◌≡◌, refl, if◌then◌else◌, Bytes, str_eq,
  str_eq_iff, str_eq_self, ◌≢◌, arith,
}

-- `readable` and `writable` say which opens the system grants, beside the existence of the file.
pub record Disk : Type 0 where
  pub files : Bytes → Option Bytes
  pub readable : Bytes → Bool
  pub writable : Bytes → Bool

abbrev pub put : (Bytes → Option Bytes) → Bytes → Option Bytes → Bytes → Option Bytes
put files f o g = if str_eq f g then o else files g

-- `fopen (f, "r")`: what there is to read, or NULL.
unfoldable pub open_read : Bytes → Disk → Option Bytes
open_read f d = if d.readable f then d.files f else none

-- `fopen (f, "w")`: the file is empty from then on.
unfoldable pub open_write : Bytes → Disk → Option Disk
open_write f d = if d.writable f then some (record d { files = put d.files f (some []) }) else none

abbrev or_empty : Option Bytes → Bytes
or_empty none = []
or_empty (some s) = s

-- `fopen (f, "a")`: the file is there from then on.
unfoldable pub open_append : Bytes → Disk → Option Disk
open_append f d =
    if d.writable f
    then some (record d { files = put d.files f (some (or_empty (d.files f))) })
    else none

-- What a stream opened for writing has put behind the file's end when it is closed.
unfoldable pub write : Bytes → Bytes → Disk → Disk
write f s d = record d { files = put d.files f (some (or_empty (d.files f) ++ s)) }

unfoldable pub remove : Bytes → Disk → Disk
remove f d = record d { files = put d.files f none }

-- Renaming a file that is not there fails and changes nothing.
unfoldable pub rename : Bytes → Bytes → Disk → Disk
rename f g d = elim (d.files f) [
  | none ↦ d
  | some s ↦ record d { files = put (put d.files f none) g (some s) }
]

-- `fclose (temp); remove (f); rename (temp, f)`, with `s` written to `temp`.
unfoldable pub replace_file : Bytes → Bytes → Bytes → Disk → Disk
unfolding write remove rename
replace_file temp f s d = rename temp f (remove f (write temp s d))

-- `if (!fp) return early;` and what follows
abbrev pub unless_null {ℓ κ} : {A : Type ℓ} {B : Type κ} → Option A → B → (A → B) → B
unless_null none early next = early
unless_null (some a) early next = next a
