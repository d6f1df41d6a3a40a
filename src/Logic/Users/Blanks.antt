-- ===== src/Logic/Users/Blanks.antt =====
-- A user name with a blank breaks the users file: the lines from there on are no longer read.
use trabajos_sistemas_distri.Base.{
  ℕ, ◌<◌, true, false, some, List, [], ◌∷◌, ◌++◌, ◌≡◌, refl, if◌then◌else◌, Bytes, codes, pos,
  minus_one, length, All, arith, append_assoc, lt→ltb, ◌^◌,
}
use trabajos_sistemas_distri.Stdio.Decimal.{is_space, is_digit, print_int}
use trabajos_sistemas_distri.Stdio.Run.{done}
use trabajos_sistemas_distri.Stdio.Scan.{stopped, scan_number}
use trabajos_sistemas_distri.Stdio.Scan.Laws.{
  IsWord, scan_word-append, scan_word-space, scan_number-print_int, print_all,
  records-print_all_then,
}
use trabajos_sistemas_distri.Stdio.Disk.{Disk, open_read, remove}
use trabajos_sistemas_distri.Stdio.Disk.Laws.{open_write_granted, replace_file_lem}
use trabajos_sistemas_distri.Logic.Users.{
  max_str, users_file, User, user_line, print_user, scan_user, contents_file, contents_name,
  unregister_user,
}
use trabajos_sistemas_distri.Logic.Users.Print.{
  IsUser, has_name, scan_user-print_user, scan_user-newline, scan_user-nil, length-print_user-pos,
}
use trabajos_sistemas_distri.Logic.Users.Loops.{without, unregister_loop_lem}
use trabajos_sistemas_distri.Logic.Users.Registry.{rewritten}
use trabajos_sistemas_distri.Logic.Users.Lists.{length-contents_file}

-- An address: a number, a dot, and the rest.
abbrev pub address : ℕ → Bytes → Bytes
address first more = print_int (pos first) ++ b'.' ∷ more

-- The line that `registerUser` writes for the name `a b` at such an address.
unfoldable pub blank_line : Bytes → Bytes → ℕ → Bytes → Bytes → Bytes
blank_line a b first more rest =
    user_line (a ++ b' ' ∷ b) (address first more) (pos 0) (codes "0") ++ rest

scan_number-dot : (s : Bytes) → scan_number (b'.' ∷ s) ≡ stopped
unfolding scan_number
scan_number-dot s = refl

scan_blank_line :
    (a b : Bytes) (first : ℕ) (more rest : Bytes)
    → IsWord max_str a
    → IsWord 32 b
    → first < 2 ^ 31
    → scan_user (blank_line a b first more rest) ≡ stopped
unfolding scan_user blank_line user_line is_space is_digit
scan_blank_line a b first more rest va vb h = simp append_assoc (
    rw
      (
        scan_word-append _ va refl,
        scan_word-space,
        scan_word-append _ vb refl,
        scan_number-print_int (pos first) _ h refl,
        scan_number-dot,
      )
      refl)

-- The users file with users before that line, and anything behind it.
abbrev pub broken : List User → Bytes → Bytes → ℕ → Bytes → Bytes → Bytes
broken us a b first more rest = print_all print_user us ++ blank_line a b first more rest

-- Let the users file have the line of a user whose name is two words with a blank between, at an
-- address that begins with a number and a dot. Then `unregisterUser` of any name of less than 256
-- bytes leaves only the users in front of that line, less the one of that name: that line and
-- what stands behind it are lost. It returns 0 if the name is among those users, and -1 if not.
pub unregister_user-broken :
    (user : Bytes) (us : List User) (a b : Bytes) (first : ℕ) (more rest : Bytes) (d : Disk)
    → All IsUser us
    → IsWord max_str a
    → IsWord 32 b
    → first < 2 ^ 31
    → d.readable users_file ≡ true
    → d.files users_file ≡ some (broken us a b first more rest)
    → d.writable (codes "temp.txt") ≡ true
    → length user < max_str
    → unregister_user user d
      ≡ done (
        if has_name user us then pos 0 else minus_one,
        remove (contents_file user) (rewritten (codes "temp.txt") (without user us) d),
      )
unfolding unregister_user open_read contents_name
unregister_user-broken user us a b first more rest d v va vb hf hr he hw hu =
    rw
      (
        hr,
        he,
        open_write_granted (codes "temp.txt") d hw,
        records-print_all_then scan_user IsUser print_user scan_user-print_user scan_user-newline
            scan_user-nil length-print_user-pos us (blank_line a b first more rest) v
            (scan_blank_line a b first more rest va vb hf),
        unregister_loop_lem user us [] false,
        lt→ltb _ _ (length-contents_file user hu),
        replace_file_lem (codes "temp.txt") users_file (print_all print_user (without user us)) d
            (ground arith),
      )
      refl
