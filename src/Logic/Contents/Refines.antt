-- ===== src/Logic/Contents/Refines.antt =====
-- `publishContent` and `deleteContent` as operations on the list of contents of a user.
use trabajos_sistemas_distri.Base.{
  ◌<◌, true, false, none, some, List, [], ◌∷◌, ◌++◌, ◌≡◌, refl, ◌≢◌, if◌then◌else◌, Bytes, codes,
  str_eq, str_eq_self, pos, length, All, All-append, arith, append_assoc, append-nil, Bool-cases,
  inl, inr, lt→ltb,
}
use trabajos_sistemas_distri.Stdio.Run.{done}
use trabajos_sistemas_distri.Stdio.Scan.Laws.{print_all}
use trabajos_sistemas_distri.Stdio.Disk.{Disk, put, open_read}
use trabajos_sistemas_distri.Stdio.Disk.Laws.{
  with_files, open_write_granted, replace_file_lem, append_file_lem, str_eq_ne,
}
use trabajos_sistemas_distri.Logic.Users.{max_str, User, contents_file, contents_name}
use trabajos_sistemas_distri.Logic.Users.Print.{has_name}
use trabajos_sistemas_distri.Logic.Users.Registry.{Stores, exist-has_name}
use trabajos_sistemas_distri.Logic.Users.Lists.{length-contents_file}
use trabajos_sistemas_distri.Logic.Users.Rewritten.{SameBut, SameBut-self, contents_ne_users}
use trabajos_sistemas_distri.Logic.Contents.{
  Content, print_content, publish_registered, publish_content, delete_registered, delete_content,
}
use trabajos_sistemas_distri.Logic.Contents.Print.{
  IsContent, records-print_contents, has_file, search_files-print_contents, without_file,
  delete_loop_lem, All-without_file,
}

-- The user's file of contents holds these, and the system lets the server read and write it.
pub record Publishes (user : Bytes) (cs : List Content) (d : Disk) : Type 0 where
  pub file : d.files (contents_file user) ≡ some (print_all print_content cs)
  pub valid : All IsContent cs
  pub readable : d.readable (contents_file user) ≡ true
  pub writable : d.writable (contents_file user) ≡ true
  pub tmp : d.writable (codes "tmp_content.txt") ≡ true

tmp_ne_contents : (user : Bytes) → codes "tmp_content.txt" ≢ contents_file user
unfolding contents_file
tmp_ne_contents user = λ e. ground arith

print_all-append :
    (cs : List Content) (c : Content)
    → print_all print_content (cs ++ c ∷ []) ≡ print_all print_content cs ++ print_content c
print_all-append [] c = append-nil (print_content c)
print_all-append (x ∷ cs) c = rw (print_all-append cs c, append_assoc) refl

module _ (user : Bytes) (us : List User) (cs : List Content) (d : Disk) (s : Stores us d)
    (p : Publishes user cs d) (short : length user < max_str) where
  -- The disk with another list of contents for the user.
  abbrev contents_written : List Content → Disk
  contents_written cs' =
      with_files d (put d.files (contents_file user) (some (print_all print_content cs')))

  publish_registered_lem :
      (c : Content)
      → publish_registered user c.file c.description d ≡ (
          if has_file c.file cs
          then done (pos 3, d)
          else done (pos 0, contents_written (cs ++ c ∷ [])))
  unfolding publish_registered contents_name open_read
  publish_registered_lem c =
      let (d1, opened, written) =
        append_file_lem (contents_file user) (print_content c) (print_all print_content cs) d
          p.writable p.file in
      rw
        (
          lt→ltb _ _ (length-contents_file user short),
          p.readable,
          p.file,
          search_files-print_contents c.file cs p.valid,
          opened,
          written,
          print_all-append cs c,
        )
        refl

  Publishes-written :
      (cs' : List Content) → All IsContent cs' → Publishes user cs' (contents_written cs')
  Publishes-written cs' v = record {
    file = ground (arith, str_eq_self (contents_file user));
    valid = v;
    readable = p.readable;
    writable = p.writable;
    tmp = p.tmp;
  }

  Stores-written : (cs' : List Content) → Stores us (contents_written cs')
  Stores-written cs' = record {
    file = rw (contents_ne_users user) s.file;
    valid = s.valid;
    distinct = s.distinct;
    readable = s.readable;
    may_write = s.may_write;
  }

  SameBut-written :
      (cs' : List Content) → SameBut (contents_file user ∷ []) d (contents_written cs')
  SameBut-written cs' = record {
    files = λ g k. rw (str_eq_ne (contents_file user) g k.0) refl;
    readable = refl;
    writable = refl;
  }

  -- On a disk that stores users and the contents of a user, `publishContent` of a well-formed
  -- content adds it at the end and returns 0. It returns 3 if the file name is there already, and
  -- 1 if the user is not registered; then the contents are the same. No other file changes.
  pub publish_content_lem :
      (c : Content)
      → IsContent c
      → (d' : Disk) × (publish_content user c.file c.description d
          ≡ done (
            if has_name user us then (if has_file c.file cs then pos 3 else pos 0) else pos 1,
            d',
          ))
        × Publishes user
            (if has_name user us then (if has_file c.file cs then cs else cs ++ c ∷ []) else cs)
            d'
        × Stores us d'
        × SameBut (contents_file user ∷ []) d d'
  unfolding publish_content
  publish_content_lem c vc = elim (Bool-cases (has_name user us)) [
    | inr e ↦ (d, rw (exist-has_name user us d s, e) refl, rw e p, s, SameBut-self _ d)
    | inl e ↦ elim (Bool-cases (has_file c.file cs)) [
      | inl there ↦ (
        d,
        rw (exist-has_name user us d s, e, publish_registered_lem c, there) refl,
        rw (e, there) p,
        s,
        SameBut-self _ d,
      )
      | inr new ↦ (
        contents_written (cs ++ c ∷ []),
        rw (exist-has_name user us d s, e, publish_registered_lem c, new) refl,
        rw (e, new)
            (Publishes-written (cs ++ c ∷ []) (All-append IsContent cs (c ∷ []) p.valid (vc, tt))),
        Stores-written (cs ++ c ∷ []),
        SameBut-written (cs ++ c ∷ []),
      )
    ]
  ]

  -- The disk that `deleteContent` leaves: the temporary file is gone.
  abbrev deleted_disk : Bytes → Disk
  deleted_disk file = with_files d (
      put (put d.files (codes "tmp_content.txt") none) (contents_file user)
        (some (print_all print_content (without_file file cs))))

  delete_registered_lem :
      (file : Bytes)
      → delete_registered user file d
        ≡ done (if has_file file cs then pos 0 else pos 3, deleted_disk file)
  unfolding delete_registered contents_name open_read
  delete_registered_lem file =
      rw
        (
          lt→ltb _ _ (length-contents_file user short),
          p.readable,
          p.file,
          open_write_granted (codes "tmp_content.txt") d p.tmp,
          records-print_contents cs p.valid,
          delete_loop_lem file cs [] false,
          replace_file_lem (codes "tmp_content.txt") (contents_file user)
              (print_all print_content (without_file file cs)) d (tmp_ne_contents user),
        )
        refl

  -- On a disk that stores users and the contents of a user, `deleteContent` takes out what is
  -- published under the file name, and returns 0 if there was such a content and 3 if not. It
  -- returns 1 if the user is not registered, and then the contents are the same. No other file
  -- but the temporary one changes.
  pub delete_content_lem :
      (file : Bytes)
      → (d' : Disk) × (delete_content user file d
          ≡ done
              (if has_name user us then (if has_file file cs then pos 0 else pos 3) else pos 1, d'))
        × Publishes user (if has_name user us then without_file file cs else cs) d'
        × Stores us d'
        × SameBut (contents_file user ∷ codes "tmp_content.txt" ∷ []) d d'
  unfolding delete_content
  delete_content_lem file = elim (Bool-cases (has_name user us)) [
    | inr e ↦ (d, rw (exist-has_name user us d s, e) refl, rw e p, s, SameBut-self _ d)
    | inl e ↦ (
      deleted_disk file,
      rw (exist-has_name user us d s, e, delete_registered_lem file) refl,
      rw e (record {
        file = ground (arith, str_eq_self (contents_file user));
        valid = All-without_file file cs p.valid;
        readable = p.readable;
        writable = p.writable;
        tmp = p.tmp;
      }),
      record {
        file = rw (contents_ne_users user) (unfold str_eq in s.file);
        valid = s.valid;
        distinct = s.distinct;
        readable = s.readable;
        may_write = s.may_write;
      },
      record {
        files = λ g k. ground (
          arith,
          str_eq_ne (contents_file user) g k.0,
          str_eq_ne (codes "tmp_content.txt") g k.1.0,
        );
        readable = refl;
        writable = refl;
      },
    )
  ]
