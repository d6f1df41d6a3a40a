-- ===== src/Logic/Users/Refines.antt =====
-- The operations of logic.c on users, as operations on the list that the users file stores.
use trabajos_sistemas_distri.Base.{
  ◌<◌, false, none, List, [], ◌∷◌, ◌≡◌, refl, if◌then◌else◌, Bytes, codes, str_eq, str_eq_self, ℤ,
  pos, minus_one, map, IsInt, length, arith, Bool-cases, inl, inr,
}
use trabajos_sistemas_distri.Stdio.Run.{done}
use trabajos_sistemas_distri.Stdio.Scan.Laws.{IsWord, print_all}
use trabajos_sistemas_distri.Stdio.Disk.{Disk, open_read, write, remove}
use trabajos_sistemas_distri.Stdio.Disk.Laws.{emptied, open_write_granted, str_eq_ne}
use trabajos_sistemas_distri.Logic.Users.{
  max_str, users_file, User, print_user, contents_file, update_user_ip_port, unregister_user,
  set_flag, connect_user, disconnect_user, finish_flag,
}
use trabajos_sistemas_distri.Logic.Users.Print.{has_name, records-print_users}
use trabajos_sistemas_distri.Logic.Users.Loops.{
  without, at_address, with_flag, has_flag, flag_loop_lem,
}
use trabajos_sistemas_distri.Logic.Users.Registry.{
  Stores, rewritten, unregister_written, update_written, flag_written,
}
use trabajos_sistemas_distri.Logic.Users.Rewritten.{
  SameBut, contents_ne_users, Stores-rewritten, SameBut-rewritten,
}
use trabajos_sistemas_distri.Logic.Users.Lists.{
  length-contents_file, All-without, All-at_address, All-with_flag, DistinctNames-without,
  DistinctNames-map, name-at_address, name-with_flag, map-with_flag_absent,
}

-- The user that `registerUser` adds.
abbrev pub new_user : Bytes → Bytes → ℤ → User
new_user user ip port = record { name = user; ip = ip; port = port; connected = pos 0 }

module _ (user : Bytes) (us : List User) (d : Disk) (s : Stores us d) where
  -- On a disk that stores users, `updateUserIPPort` sets the address and the port of the user of
  -- that name and marks it connected, and returns 0 if there is such a user and 1 if not. No
  -- other file but the temporary one has changed.
  pub update_user_ip_port_lem :
      (ip : Bytes) (port : ℤ)
      → IsWord 32 ip
      → IsInt port
      → (d' : Disk) × (update_user_ip_port user ip port d
          ≡ done (if has_name user us then pos 0 else pos 1, d'))
        × Stores (map (at_address user ip port) us) d'
        × SameBut (users_file ∷ codes "users_tmp.txt" ∷ []) d d'
  update_user_ip_port_lem ip port hi hp = (
    rewritten (codes "users_tmp.txt") (map (at_address user ip port) us) d,
    update_written user us d s ip port,
    Stores-rewritten _ us _ d s (All-at_address user ip port hi hp us s.valid)
        (DistinctNames-map (at_address user ip port) (name-at_address user ip port) us s.distinct),
    SameBut-rewritten _ _ d,
  )

  -- On a disk that stores users, `unregisterUser` of a name of less than 256 bytes takes the user
  -- of that name out, if there is one, and returns 0 if there was and -1 if not. The contents
  -- file of that name is gone in either case, and no other file but the temporary one has
  -- changed.
  pub unregister_user_lem :
      length user < max_str
      → (d' : Disk) × (unregister_user user d
          ≡ done (if has_name user us then pos 0 else minus_one, d'))
        × Stores (without user us) d'
        × (d'.files (contents_file user) ≡ none)
        × SameBut (users_file ∷ codes "temp.txt" ∷ contents_file user ∷ []) d d'
  unfolding remove
  unregister_user_lem h = (
    remove (contents_file user) (rewritten (codes "temp.txt") (without user us) d),
    unregister_written user us d s (length-contents_file user h),
    record {
      file = ground (arith, contents_ne_users user, str_eq_self users_file);
      valid = All-without user us s.valid;
      distinct = DistinctNames-without user us s.distinct;
      readable = s.readable;
      may_write = s.may_write;
    },
    ground (arith, str_eq_self (contents_file user)),
    record {
      files = λ g k. ground (
        arith,
        str_eq_ne users_file g k.0,
        str_eq_ne (codes "temp.txt") g k.1.0,
        str_eq_ne (contents_file user) g k.1.1.0,
      );
      readable = refl;
      writable = refl;
    },
  )

  flag_absent :
      (flag : ℤ)
      → has_name user us ≡ false
      → set_flag flag user d
        ≡ done (
          minus_one,
          remove (codes "users_temp.txt") (
              write
                (codes "users_temp.txt")
                (print_all print_user us)
                (emptied (codes "users_temp.txt") d)),
        )
  unfolding set_flag open_read
  flag_absent flag h =
      rw
        (
          s.readable,
          s.file,
          open_write_granted (codes "users_temp.txt") d s.may_write.flags,
          records-print_users us s.valid,
          flag_loop_lem flag user us [] _,
          finish_flag,
          h,
          map-with_flag_absent flag user us h,
        )
        refl

  set_flag_lem :
      (flag : ℤ)
      → IsInt flag
      → (d' : Disk) × (set_flag flag user d
          ≡ done (
            if has_name user us
                then (if has_flag flag user us then pos 1 else pos 0)
                else minus_one,
            d',
          ))
        × Stores (map (with_flag flag user) us) d'
        × SameBut (users_file ∷ codes "users_temp.txt" ∷ []) d d'
  unfolding remove write
  set_flag_lem flag hf = elim (Bool-cases (has_name user us)) [
    | inl e ↦ (
      rewritten (codes "users_temp.txt") (map (with_flag flag user) us) d,
      rw (e, flag_written user us d s flag e),
      Stores-rewritten _ us _ d s (All-with_flag flag user hf us s.valid)
          (DistinctNames-map (with_flag flag user) (name-with_flag flag user) us s.distinct),
      SameBut-rewritten _ _ d,
    )
    | inr e ↦ (
      remove (codes "users_temp.txt") (
          write (codes "users_temp.txt") (print_all print_user us)
            (emptied (codes "users_temp.txt") d)),
      rw (e, flag_absent flag e),
      rw (map-with_flag_absent flag user us e) (record {
        file = unfold str_eq in s.file;
        valid = s.valid;
        distinct = s.distinct;
        readable = s.readable;
        may_write = s.may_write;
      }),
      record {
        files = λ g k. ground (arith, str_eq_ne (codes "users_temp.txt") g k.1.0);
        readable = refl;
        writable = refl;
      },
    )
  ]

  -- On a disk that stores users, `connectUser` sets the user's flag to 1. It returns 0 if the
  -- user was there with another flag, 1 if the flag was 1 already, and -1 if the user is not
  -- there. No other file but the temporary one has changed.
  pub connect_user_lem :
      (d' : Disk) × (connect_user user d
        ≡ done (
          if has_name user us
              then (if has_flag (pos 1) user us then pos 1 else pos 0)
              else minus_one,
          d',
        ))
      × Stores (map (with_flag (pos 1) user) us) d'
      × SameBut (users_file ∷ codes "users_temp.txt" ∷ []) d d'
  unfolding connect_user
  connect_user_lem = set_flag_lem (pos 1) (omega arith)

  -- On a disk that stores users, `disconnectUser` sets the user's flag to 0. It returns 0 if the
  -- user was there with another flag, 1 if the flag was 0 already, and -1 if the user is not
  -- there. No other file but the temporary one has changed.
  pub disconnect_user_lem :
      (d' : Disk) × (disconnect_user user d
        ≡ done (
          if has_name user us
              then (if has_flag (pos 0) user us then pos 1 else pos 0)
              else minus_one,
          d',
        ))
      × Stores (map (with_flag (pos 0) user) us) d'
      × SameBut (users_file ∷ codes "users_temp.txt" ∷ []) d d'
  unfolding disconnect_user
  disconnect_user_lem = set_flag_lem (pos 0) (omega arith)
