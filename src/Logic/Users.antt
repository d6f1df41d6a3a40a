-- ===== src/Logic/Users.antt =====
-- The users file: one line `name ip port connected` for each user. An operation takes the disk and
-- returns its result and the disk that it leaves.
pub mod Print
pub mod Loops
pub mod Registry
pub mod Lists
pub mod Rewritten
pub mod Refines
pub mod Register
pub mod Races
pub mod Blanks
use trabajos_sistemas_distri.Base.{
  ℕ, ◌+◌, ◌-◌, Bool, true, false, Option, none, some, List, [], ◌∷◌, ◌++◌, ◌||◌, not, if◌then◌else◌,
  Bytes, codes, str_eq, ℤ, pos, minus_one, int_eq, length, ltb,
}
use trabajos_sistemas_distri.Stdio.Decimal.{print_int}
use trabajos_sistemas_distri.Stdio.Run.{Run, done, fault, ◌>>=◌}
use trabajos_sistemas_distri.Stdio.Scan.{
  Scanner, pure, ◌>>>=◌, scan_word, scan_number, records, search_records, take_fgets,
}
use trabajos_sistemas_distri.Stdio.Disk.{
  Disk, open_read, open_write, open_append, write, remove, replace_file, unless_null,
}

-- MAXSTR
abbrev pub max_str : ℕ
max_str = 256

abbrev pub users_file : Bytes
users_file = codes "users.txt"

pub record User : Type 0 where
  pub name : Bytes
  pub ip : Bytes
  pub port : ℤ
  pub connected : ℤ

-- `fprintf (fp, "%s %s %d …\n", name, ip, port)`, with the last field as text
unfoldable pub user_line : Bytes → Bytes → ℤ → Bytes → Bytes
user_line name ip port last =
    name ++ b' ' ∷ (ip ++ b' ' ∷ (print_int port ++ b' ' ∷ (last ++ b'\n' ∷ [])))

unfoldable pub print_user : User → Bytes
unfolding user_line
print_user u = user_line u.name u.ip u.port (print_int u.connected)

-- `fscanf (fp, "%s %s %d %d", name, ip, &port, &connected) == 4`
unfoldable pub scan_user : Scanner User
scan_user = scan_word max_str >>>= λ name. scan_word 32 >>>= λ ip. scan_number >>>= λ port.
    scan_number >>>= λ connected.
    pure (record { name = name; ip = ip; port = port; connected = connected })

-- `fscanf (fp, "%s", name)`, and the `fgets` that skips the rest of the line
unfoldable pub scan_name : Scanner Bytes
scan_name = scan_word max_str >>>= λ name s. let (l, r) = take_fgets (max_str - 1) s in pure name r

-- The name of a user's file of contents, in an array of MAXSTR + 64 bytes.
unfoldable pub contents_file : Bytes → Bytes
contents_file user = codes "contents_" ++ user ++ codes ".txt"

unfoldable pub contents_name : Bytes → Run Bytes
unfolding contents_file
contents_name user =
    let fname = contents_file user in
    if ltb (length fname) (max_str + 64) then done fname else fault

-- `exist`, with its 1 and 0 as truth values
unfoldable pub exist : Bytes → Disk → Run Bool
exist user d =
    unless_null (open_read users_file d) (done false)
      (search_records scan_name (λ name. str_eq name user))

-- The loop of `updateUserIPPort`: the temporary file and `found`.
unfoldable pub update_loop : Bytes → Bytes → ℤ → List User → Bytes → Bool → Bytes × Bool
update_loop user ip port [] temp found = (temp, found)
update_loop user ip port (u ∷ us) temp found =
    let same = str_eq u.name user in
    update_loop user ip port us
      (temp ++ (if same then user_line u.name ip port (codes "1") else print_user u))
      (if same then true else found)

unfoldable pub update_user_ip_port : Bytes → Bytes → ℤ → Disk → Run (ℤ × Disk)
unfolding update_loop
update_user_ip_port user ip port d = unless_null (open_read users_file d) (done (pos 1, d)) λ text.
    unless_null (open_write (codes "users_tmp.txt") d) (done (pos 1, d)) λ d1. do
      us ← records scan_user text
      let (temp, found) = update_loop user ip port us [] false
      done (if found then pos 0 else pos 1, replace_file (codes "users_tmp.txt") users_file temp d1)

-- An empty file for the contents, if it can be made.
unfoldable pub create_contents : Bytes → Disk → Disk
create_contents fname d = unless_null (open_write fname d) d (λ d1. d1)

-- `registerUser` after its test of the name
unfoldable pub register_new : Bytes → Bytes → ℤ → Disk → Run (ℤ × Disk)
unfolding create_contents
register_new user ip port d = unless_null (open_append users_file d) (done (minus_one, d)) λ d1. do
  let d2 = write users_file (user_line user ip port (codes "0")) d1
  fname ← contents_name user
  done (pos 0, create_contents fname d2)

unfoldable pub register_user : Bytes → Bytes → ℤ → Disk → Run (ℤ × Disk)
unfolding register_new
register_user user ip port d =
    exist user d >>= λ there. if there then done (pos 1, d) else register_new user ip port d

-- The loop of `unregisterUser`.
unfoldable pub unregister_loop : Bytes → List User → Bytes → Bool → Bytes × Bool
unregister_loop user [] temp found = (temp, found)
unregister_loop user (u ∷ us) temp found =
    let same = str_eq u.name user in
    unregister_loop user us (if same then temp else temp ++ print_user u)
      (if same then true else found)

unfoldable pub unregister_user : Bytes → Disk → Run (ℤ × Disk)
unfolding unregister_loop
unregister_user user d = unless_null (open_read users_file d) (done (minus_one, d)) λ text.
    unless_null (open_write (codes "temp.txt") d) (done (minus_one, d)) λ d1. do
      us ← records scan_user text
      let (temp, found) = unregister_loop user us [] false
      fname ← contents_name user
      done (
        if found then pos 0 else minus_one,
        remove fname (replace_file (codes "temp.txt") users_file temp d1),
      )

-- What a loop over the users has found so far: `found`, and whether the flag was set already.
pub record Search : Type 0 where
  pub found : Bool
  pub already : Bool

-- The loops of `connectUser` (`flag` is 1) and `disconnectUser` (`flag` is 0) are the same text but
-- for that number.
unfoldable pub flag_loop : ℤ → Bytes → List User → Bytes → Search → Bytes × Search
flag_loop flag user [] temp q = (temp, q)
flag_loop flag user (u ∷ us) temp q =
    let same = str_eq u.name user in
    let set = int_eq u.connected flag in
    flag_loop flag user us
      (temp ++ print_user (if same then (if set then u else record u { connected = flag }) else u))
      (if same then record { found = true; already = q.already || set } else q)

-- What follows the loop: the users file is replaced if the user was found.
unfoldable pub finish_flag : Bytes → Bytes × Search → Disk → ℤ × Disk
finish_flag temp_file (temp, q) d =
    if q.found
    then (if q.already then pos 1 else pos 0, replace_file temp_file users_file temp d)
    else (minus_one, remove temp_file (write temp_file temp d))

unfoldable pub set_flag : ℤ → Bytes → Disk → Run (ℤ × Disk)
unfolding flag_loop finish_flag
set_flag flag user d = unless_null (open_read users_file d) (done (minus_one, d)) λ text.
    unless_null (open_write (codes "users_temp.txt") d) (done (minus_one, d)) λ d1. do
      us ← records scan_user text
      let q : Search = record { found = false; already = false }
      done (finish_flag (codes "users_temp.txt") (flag_loop flag user us [] q) d1)

unfoldable pub connect_user : Bytes → Disk → Run (ℤ × Disk)
unfolding set_flag
connect_user = set_flag (pos 1)

unfoldable pub disconnect_user : Bytes → Disk → Run (ℤ × Disk)
unfolding set_flag
disconnect_user = set_flag (pos 0)
