-- ===== src/Logic/Users/Register.antt =====
-- `registerUser` as an operation on the list that the users file stores.
use trabajos_sistemas_distri.Base.{
  ◌<◌, true, false, some, List, [], ◌∷◌, ◌++◌, ◌≡◌, refl, if◌then◌else◌, Bytes, codes, str_eq_self,
  ℤ, pos, IsInt, length, arith, Bool-cases, inl, inr, All-append, lt→ltb,
}
use trabajos_sistemas_distri.Stdio.Decimal.{print_int}
use trabajos_sistemas_distri.Stdio.Run.{done}
use trabajos_sistemas_distri.Stdio.Scan.Laws.{IsWord, print_all}
use trabajos_sistemas_distri.Stdio.Disk.{Disk, put}
use trabajos_sistemas_distri.Stdio.Disk.Laws.{
  with_files, emptied, open_write_granted, append_file_lem, str_eq_ne,
}
use trabajos_sistemas_distri.Logic.Users.{
  max_str, users_file, User, user_line, print_user, contents_file, contents_name, register_new,
  register_user,
}
use trabajos_sistemas_distri.Logic.Users.Print.{IsUser, has_name}
use trabajos_sistemas_distri.Logic.Users.Registry.{Stores, exist-has_name}
use trabajos_sistemas_distri.Logic.Users.Lists.{length-contents_file, DistinctNames-append}
use trabajos_sistemas_distri.Logic.Users.Rewritten.{
  SameBut, print_all-append, SameBut-self, contents_ne_users,
}
use trabajos_sistemas_distri.Logic.Users.Refines.{new_user}

module _ (user : Bytes) (us : List User) (d : Disk) (s : Stores us d) where
  print_new_user :
      (ip : Bytes) (port : ℤ)
      → user_line user ip port (codes "0") ≡ print_user (new_user user ip port)
  unfolding print_user print_int
  print_new_user ip port = refl

  -- The disk with the new user and the empty file of contents.
  registered_disk : Bytes → ℤ → Disk
  registered_disk ip port = emptied (contents_file user) (
      with_files d (
        put d.files users_file
          (some (print_all print_user us ++ print_user (new_user user ip port)))))

  register_new_written :
      (ip : Bytes) (port : ℤ)
      → length user < max_str
      → d.writable (contents_file user) ≡ true
      → register_new user ip port d ≡ done (pos 0, registered_disk ip port)
  unfolding register_new contents_name registered_disk
  register_new_written ip port k w =
      let (d1, opened, written) =
        append_file_lem users_file (print_user (new_user user ip port)) (print_all print_user us) d
          s.may_write.users s.file in
      rw
        (
          opened,
          print_new_user ip port,
          written,
          lt→ltb _ _ (length-contents_file user k),
          open_write_granted (contents_file user)
              (with_files d (
                put d.files users_file
                  (some (print_all print_user us ++ print_user (new_user user ip port)))))
              w,
        )
        refl

  -- What the users file is afterwards, whether the name was new or not.
  pub register_new_lem :
      (ip : Bytes) (port : ℤ)
      → length user < max_str
      → d.writable (contents_file user) ≡ true
      → (d' : Disk) × (register_new user ip port d ≡ done (pos 0, d'))
        × (d'.files users_file ≡ some (print_all print_user (us ++ new_user user ip port ∷ [])))
  unfolding registered_disk
  register_new_lem ip port k w = (
    registered_disk ip port,
    register_new_written ip port k w,
    rw (print_all-append us (new_user user ip port))
        (ground (arith, contents_ne_users user, str_eq_self users_file)),
  )

  register_written :
      (ip : Bytes) (port : ℤ)
      → has_name user us ≡ false
      → length user < max_str
      → d.writable (contents_file user) ≡ true
      → register_user user ip port d ≡ done (pos 0, registered_disk ip port)
  unfolding register_user
  register_written ip port h k w =
      rw (exist-has_name user us d s, h) (register_new_written ip port k w)

  register_again :
      (ip : Bytes) (port : ℤ)
      → has_name user us ≡ true
      → register_user user ip port d ≡ done (pos 1, d)
  unfolding register_user
  register_again ip port h = rw (exist-has_name user us d s, h) refl

  -- On a disk that stores users, `registerUser` of a name and an address without blanks adds the
  -- user at the end, not connected, with an empty file of contents, and returns 0, if that file
  -- can be written. If the name is there already it returns 1 and no file has changed.
  pub register_user_lem :
      (ip : Bytes) (port : ℤ)
      → IsWord max_str user
      → IsWord 32 ip
      → IsInt port
      → d.writable (contents_file user) ≡ true
      → (d' : Disk) × (register_user user ip port d
          ≡ done (if has_name user us then pos 1 else pos 0, d'))
        × Stores (if has_name user us then us else us ++ new_user user ip port ∷ []) d'
        × (d'.files (contents_file user)
            ≡ (if has_name user us then d.files (contents_file user) else some []))
        × SameBut (users_file ∷ contents_file user ∷ []) d d'
  unfolding registered_disk
  register_user_lem ip port hu hi hp w = elim (Bool-cases (has_name user us)) [
    | inl e ↦ (d, rw (e, register_again ip port e), rw e s, rw e refl, SameBut-self _ d)
    | inr e ↦ (
      registered_disk ip port,
      rw (e, register_written ip port e hu.fits w),
      rw e (record {
        file =
            rw (print_all-append us (new_user user ip port))
              (ground (arith, contents_ne_users user, str_eq_self users_file));
        valid =
            All-append IsUser us (new_user user ip port ∷ []) s.valid
              (record { name = hu; ip = hi; port = hp; connected = omega arith }, tt);
        distinct = DistinctNames-append us (new_user user ip port) s.distinct e;
        readable = s.readable;
        may_write = s.may_write;
      }),
      rw e (ground (arith, str_eq_self (contents_file user))),
      record {
        files = λ g k.
            ground (arith, str_eq_ne users_file g k.0, str_eq_ne (contents_file user) g k.1.0);
        readable = refl;
        writable = refl;
      },
    )
  ]
