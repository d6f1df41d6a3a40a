-- ===== src/Server/Replies/Lists.antt =====
-- The replies of LIST_USERS, GET_FILE and LIST_CONTENT.
use trabajos_sistemas_distri.Base.{
  true, some, List, [], ◌∷◌, ◌++◌, ◌≡◌, refl, Bytes, codes, str_eq, length, All, map, arith,
  append-nil, append_assoc, lt→ltb,
}
use trabajos_sistemas_distri.Stdio.Decimal.{decimal, print_int}
use trabajos_sistemas_distri.Stdio.Run.{done}
use trabajos_sistemas_distri.Stdio.Scan.Laws.{print_all}
use trabajos_sistemas_distri.Stdio.Disk.{open_read}
use trabajos_sistemas_distri.Logic.Users.{User, users_file, contents_name}
use trabajos_sistemas_distri.Logic.Users.Print.{has_name, records-print_users}
use trabajos_sistemas_distri.Logic.Users.Registry.{Stores, exist-has_name}
use trabajos_sistemas_distri.Logic.Users.Lists.{length-contents_file}
use trabajos_sistemas_distri.Logic.Contents.{Content, print_content}
use trabajos_sistemas_distri.Logic.Contents.Print.{IsContent}
use trabajos_sistemas_distri.Logic.Contents.Refines.{Publishes}
use trabajos_sistemas_distri.Server.World.{World, defined, send, close, ask}
use trabajos_sistemas_distri.Server.Requests.{announced}
use trabajos_sistemas_distri.Server.Listing.Lines.{
  IsShort, line_of, first_word-line, fgets_lines-print_all, length-map,
}
use trabajos_sistemas_distri.Server.Listing.{
  c_string, send_each_user, send_users, list_users, get_file, send_each_file, send_contents,
  list_content,
}
use trabajos_sistemas_distri.Server.{dispatch, tratar_peticion}
use trabajos_sistemas_distri.Server.Replies.Dialogue.{
  IsField, receiving, read_text_field, tratar_peticion-dispatch,
}

-- Name, address and port of each user, each as a C string.
abbrev pub users_listing : List User → Bytes
users_listing [] = []
users_listing (u ∷ us) =
    c_string u.name ++ (c_string u.ip ++ (c_string (print_int u.port) ++ users_listing us))

abbrev pub names_listing : List Content → Bytes
names_listing [] = []
names_listing (c ∷ cs) = c_string c.file ++ names_listing cs

send_each_user_lem :
    (us : List User) (w : World)
    → send_each_user us w ≡ done (tt, record w { output = w.output ++ users_listing us })
unfolding send_each_user send
send_each_user_lem [] w = rw append-nil refl
send_each_user_lem (u ∷ us) w = rw (send_each_user_lem us) (simp append_assoc)

-- The end of a request for a list.
abbrev pub listed : World → Bytes → World
listed w s = record w { input = []; output = w.output ++ 0 ∷ s; closed = true }

module _ (w : World) (us : List User) (s : Stores us w.disk) (fecha_hora user : Bytes)
    (fecha_field : IsField fecha_hora) (user_field : IsField user) where
  send_users_lem :
      (v : World)
      → v.disk ≡ w.disk
      → send_users (open_read users_file w.disk) v
        ≡ done (
          tt,
          record v {
            output = v.output ++ 0 ∷ (c_string (decimal (length us)) ++ users_listing us);
          },
        )
  unfolding send_users open_read send ask
  send_users_lem v h =
      rw (s.readable, s.file, records-print_users us s.valid, send_each_user_lem us)
        (simp append_assoc)

  -- LIST_USERS and GET_FILE requests are answered by 0, the number of users, and of each user
  -- stored the name, the address and the port, whoever asks; nothing stored changes.
  pub list_users_request :
      (tratar_peticion (receiving w (codes "LIST_USERS" ∷ fecha_hora ∷ user ∷ []))
        ≡ done (tt, listed w (c_string (decimal (length us)) ++ users_listing us)))
      × (tratar_peticion (receiving w (codes "GET_FILE" ∷ fecha_hora ∷ user ∷ []))
          ≡ done (tt, listed w (c_string (decimal (length us)) ++ users_listing us)))
  unfolding dispatch list_users get_file announced defined close ask str_eq
  list_users_request = (
    rw
        (
          tratar_peticion-dispatch w (codes "LIST_USERS") (fecha_hora ∷ user ∷ []) (omega arith),
          read_text_field w fecha_hora (user ∷ []) fecha_field,
          read_text_field w user [] user_field,
          send_users_lem (receiving w []) refl,
        )
        refl,
    rw
        (
          tratar_peticion-dispatch w (codes "GET_FILE") (fecha_hora ∷ user ∷ []) (omega arith),
          read_text_field w fecha_hora (user ∷ []) fecha_field,
          read_text_field w user [] user_field,
          send_users_lem (receiving w []) refl,
        )
        refl,
  )

send_each_file_lem :
    (cs : List Content) (w : World)
    → All IsContent cs
    → send_each_file (map (λ c. line_of c ++ 10 ∷ []) cs) w
      ≡ done (tt, record w { output = w.output ++ names_listing cs })
unfolding send_each_file send
send_each_file_lem [] w v = rw append-nil refl
send_each_file_lem (c ∷ cs) w (vc, v) =
    rw (first_word-line c vc, send_each_file_lem cs _ v) (simp append_assoc)

module _ (w : World) (us : List User) (cs : List Content) (s : Stores us w.disk)
    (fecha_hora user target : Bytes) (p : Publishes target cs w.disk)
    (fecha_field : IsField fecha_hora) (user_field : IsField user)
    (target_field : IsField target) where
  send_contents_lem :
      (v : World)
      → v.disk ≡ w.disk
      → All IsShort cs
      → send_contents (some (print_all print_content cs)) v
        ≡ done (
          tt,
          record v {
            output = v.output ++ 0 ∷ (c_string (decimal (length cs)) ++ names_listing cs);
          },
        )
  unfolding send_contents send ask
  send_contents_lem v h k =
      rw
        (
          fgets_lines-print_all cs p.valid k,
          length-map (λ (c : Content). line_of c ++ 10 ∷ []) cs,
          send_each_file_lem cs _ p.valid,
        )
        (simp append_assoc)

  -- A LIST_CONTENT request between registered users is answered by 0, the number of contents that
  -- the target has published, and their file names in the order of publication, if each line of
  -- the contents file has less than 255 characters; nothing stored changes. So is one for a target
  -- that has published nothing, with the count 0: the code 2 is not sent for it.
  pub list_content_request :
      has_name user us ≡ true
      → has_name target us ≡ true
      → All IsShort cs
      → tratar_peticion (receiving w (codes "LIST_CONTENT" ∷ fecha_hora ∷ user ∷ target ∷ []))
        ≡ done (tt, listed w (c_string (decimal (length cs)) ++ names_listing cs))
  unfolding dispatch list_content announced defined close ask contents_name open_read str_eq
  list_content_request hu ht k =
      rw
        (
          tratar_peticion-dispatch w (codes "LIST_CONTENT") (fecha_hora ∷ user ∷ target ∷ [])
              (omega arith),
          read_text_field w fecha_hora (user ∷ target ∷ []) fecha_field,
          read_text_field w user (target ∷ []) user_field,
          read_text_field w target [] target_field,
          exist-has_name user us w.disk s,
          hu,
          exist-has_name target us w.disk s,
          ht,
          lt→ltb _ _ (length-contents_file target target_field.fits),
          p.readable,
          p.file,
          send_contents_lem (receiving w []) refl k,
        )
        refl
