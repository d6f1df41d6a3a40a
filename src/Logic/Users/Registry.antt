-- ===== src/Logic/Users/Registry.antt =====
-- The users file as a registry: a list of users with different names. Each operation of logic.c on
-- users is the operation on that list, and leaves every other file alone.
use trabajos_sistemas_distri.Base.{
  ◌<◌, Bool, true, false, none, some, List, [], ◌∷◌, ◌≡◌, refl, if◌then◌else◌, Bytes, codes, ℤ, pos,
  minus_one, map, length, lt→ltb, All, arith,
}
use trabajos_sistemas_distri.Stdio.Run.{done}
use trabajos_sistemas_distri.Stdio.Scan.Laws.{print_all}
use trabajos_sistemas_distri.Stdio.Disk.{Disk, put, open_read, remove}
use trabajos_sistemas_distri.Stdio.Disk.Laws.{with_files, open_write_granted, replace_file_lem}
use trabajos_sistemas_distri.Logic.Users.{
  users_file, User, print_user, contents_file, contents_name, exist, update_user_ip_port,
  unregister_user, set_flag, finish_flag,
}
use trabajos_sistemas_distri.Logic.Users.Print.{
  IsUser, has_name, records-print_users, search_names-print_users,
}
use trabajos_sistemas_distri.Logic.Users.Loops.{
  without, at_address, with_flag, has_flag, unregister_loop_lem, update_loop_lem, flag_loop_lem,
}

-- No two users have one name.
abbrev pub DistinctNames : List User → Type 0
DistinctNames [] = Unit
DistinctNames (u ∷ us) = (has_name u.name us ≡ false) × DistinctNames us

-- The system lets the server write the users file and the temporary files.
pub record MayWrite (writable : Bytes → Bool) : Type 0 where
  pub users : writable users_file ≡ true
  pub tmp : writable (codes "users_tmp.txt") ≡ true
  pub flags : writable (codes "users_temp.txt") ≡ true
  pub temp : writable (codes "temp.txt") ≡ true

-- The disk holds these users.
pub record Stores (us : List User) (d : Disk) : Type 0 where
  pub file : d.files users_file ≡ some (print_all print_user us)
  pub valid : All IsUser us
  pub distinct : DistinctNames us
  pub readable : d.readable users_file ≡ true
  pub may_write : MayWrite d.writable

-- The disk after the users file has been replaced by way of a temporary file.
abbrev pub rewritten : Bytes → List User → Disk → Disk
rewritten temp us d =
    with_files d (put (put d.files temp none) users_file (some (print_all print_user us)))

-- On a disk that stores users, `exist` finds exactly the names that are stored.
pub exist-has_name :
    (user : Bytes) (us : List User) (d : Disk)
    → Stores us d
    → exist user d ≡ done (has_name user us)
unfolding exist open_read
exist-has_name user us d s = rw (s.readable, s.file) (search_names-print_users user us s.valid)

module _ (user : Bytes) (us : List User) (d : Disk) (s : Stores us d) where
  pub unregister_written :
      length (contents_file user) < 320
      → unregister_user user d
        ≡ done (
          if has_name user us then pos 0 else minus_one,
          remove (contents_file user) (rewritten (codes "temp.txt") (without user us) d),
        )
  unfolding unregister_user open_read contents_name
  unregister_written h =
      rw
        (
          s.readable,
          s.file,
          open_write_granted (codes "temp.txt") d s.may_write.temp,
          records-print_users us s.valid,
          unregister_loop_lem user us [] false,
          lt→ltb _ _ h,
          replace_file_lem (codes "temp.txt") users_file (print_all print_user (without user us)) d
              (ground arith),
        )
        refl

  pub update_written :
      (ip : Bytes) (port : ℤ)
      → update_user_ip_port user ip port d
        ≡ done (
          if has_name user us then pos 0 else pos 1,
          rewritten (codes "users_tmp.txt") (map (at_address user ip port) us) d,
        )
  unfolding update_user_ip_port open_read
  update_written ip port =
      rw
        (
          s.readable,
          s.file,
          open_write_granted (codes "users_tmp.txt") d s.may_write.tmp,
          records-print_users us s.valid,
          update_loop_lem user ip port us [] false,
          replace_file_lem (codes "users_tmp.txt") users_file
              (print_all print_user (map (at_address user ip port) us)) d (ground arith),
        )
        refl

  -- The users file as the flag loop leaves it.
  pub flag_written :
      (flag : ℤ)
      → has_name user us ≡ true
      → set_flag flag user d
        ≡ done (
          if has_flag flag user us then pos 1 else pos 0,
          rewritten (codes "users_temp.txt") (map (with_flag flag user) us) d,
        )
  unfolding set_flag open_read
  flag_written flag h =
      rw
        (
          s.readable,
          s.file,
          open_write_granted (codes "users_temp.txt") d s.may_write.flags,
          records-print_users us s.valid,
          flag_loop_lem flag user us [] _,
          finish_flag,
          h,
          replace_file_lem (codes "users_temp.txt") users_file
              (print_all print_user (map (with_flag flag user) us)) d (ground arith),
        )
        refl
