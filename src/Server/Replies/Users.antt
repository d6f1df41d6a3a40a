-- ===== src/Server/Replies/Users.antt =====
-- The requests on users, from the first byte read to the close of the connection.
use trabajos_sistemas_distri.Base.{
  ℕ, none, some, true, List, [], ◌∷◌, ◌++◌, ◌≡◌, if◌then◌else◌, Bytes, codes, str_eq, pos, map,
  arith,
}
use trabajos_sistemas_distri.Stdio.Run.{done}
use trabajos_sistemas_distri.Stdio.Scan.Laws.{IsWord}
use trabajos_sistemas_distri.Stdio.Disk.{Disk}
use trabajos_sistemas_distri.Logic.Users.{max_str, users_file, User, contents_file}
use trabajos_sistemas_distri.Logic.Users.Print.{has_name}
use trabajos_sistemas_distri.Logic.Users.Loops.{without, with_flag, has_flag}
use trabajos_sistemas_distri.Logic.Users.Registry.{Stores}
use trabajos_sistemas_distri.Logic.Users.Rewritten.{SameBut}
use trabajos_sistemas_distri.Logic.Users.Refines.{unregister_user_lem, disconnect_user_lem}
use trabajos_sistemas_distri.Logic.Users.Register.{register_user_lem}
use trabajos_sistemas_distri.Server.World.{World, defined, send, close, on_disk, peer_address}
use trabajos_sistemas_distri.Server.Requests.{
  announced, register, register_code, unregister, disconnect, disconnect_code,
}
use trabajos_sistemas_distri.Server.{dispatch, tratar_peticion}
use trabajos_sistemas_distri.Server.Replies.Dialogue.{
  IsField, receiving, read_text_field, tratar_peticion-dispatch,
}

-- The end of a request: one byte has been sent, the disk is another, the connection is closed.
abbrev pub replied : World → ℕ → Disk → World
replied w code d = record w { disk = d; input = []; output = w.output ++ code ∷ []; closed = true }

module _ (w : World) (us : List User) (s : Stores us w.disk) (fecha_hora user : Bytes)
    (fecha_field : IsField fecha_hora) (user_field : IsField user) where
  -- A REGISTER request, of a user name without blanks and with a contents file that can be
  -- written, adds the user at the client's address, not connected, and replies 0; if the name is
  -- taken it replies 1 and the users stored are the same. The new user's contents file is empty, and
  -- no file but that and the users file changes.
  pub register_request :
      IsWord max_str user
      → IsWord 32 w.peer
      → w.disk.writable (contents_file user) ≡ true
      → (d : Disk) × (tratar_peticion (receiving w (codes "REGISTER" ∷ fecha_hora ∷ user ∷ []))
          ≡ done (tt, replied w (if has_name user us then 1 else 0) d))
        × Stores
            (if has_name user us
              then us
              else us
                ++ (record { name = user; ip = w.peer; port = pos 0; connected = pos 0 }) ∷ [])
            d
        × (d.files (contents_file user)
            ≡ (if has_name user us then w.disk.files (contents_file user) else some []))
        × SameBut (users_file ∷ contents_file user ∷ []) w.disk d
  unfolding dispatch register register_code announced defined send close on_disk peer_address str_eq
  register_request hu hi hw =
      let (d, ran, stored, made, same) =
        register_user_lem user us w.disk s w.peer (pos 0) hu hi (omega arith) hw in
      (
        d,
        rw
            (
              tratar_peticion-dispatch w (codes "REGISTER") (fecha_hora ∷ user ∷ []) (omega arith),
              read_text_field w fecha_hora (user ∷ []) fecha_field,
              read_text_field w user [] user_field,
              ran,
            )
            (ground arith),
        stored,
        made,
        same,
      )

  -- An UNREGISTER request takes the user out and replies 0, or replies 1 if there is none of that
  -- name. Afterwards there is no contents file of that name, and no file but that, the users
  -- file and the temporary one has changed.
  pub unregister_request :
      (d : Disk) × (tratar_peticion (receiving w (codes "UNREGISTER" ∷ fecha_hora ∷ user ∷ []))
        ≡ done (tt, replied w (if has_name user us then 0 else 1) d))
      × Stores (without user us) d
      × (d.files (contents_file user) ≡ none)
      × SameBut (users_file ∷ codes "temp.txt" ∷ contents_file user ∷ []) w.disk d
  unfolding dispatch unregister announced defined send close on_disk str_eq
  unregister_request =
      let (d, ran, stored, gone, same) = unregister_user_lem user us w.disk s user_field.fits in
      (
        d,
        rw
            (
              tratar_peticion-dispatch w (codes "UNREGISTER") (fecha_hora ∷ user ∷ [])
                  (omega arith),
              read_text_field w fecha_hora (user ∷ []) fecha_field,
              read_text_field w user [] user_field,
              ran,
            )
            (ground arith),
        stored,
        gone,
        same,
      )

  -- A DISCONNECT request clears the user's flag, and replies 0 if it was set, 2 if it was 0 and 1
  -- if there is no such user. No file but the users file and the temporary one changes.
  pub disconnect_request :
      (d : Disk) × (tratar_peticion (receiving w (codes "DISCONNECT" ∷ fecha_hora ∷ user ∷ []))
        ≡ done (
          tt,
          replied w (if has_name user us then (if has_flag (pos 0) user us then 2 else 0) else 1) d,
        ))
      × Stores (map (with_flag (pos 0) user) us) d
      × SameBut (users_file ∷ codes "users_temp.txt" ∷ []) w.disk d
  unfolding dispatch disconnect disconnect_code announced defined send close on_disk str_eq
  disconnect_request =
      let (d, ran, stored, same) = disconnect_user_lem user us w.disk s in
      (
        d,
        rw
            (
              tratar_peticion-dispatch w (codes "DISCONNECT") (fecha_hora ∷ user ∷ [])
                  (omega arith),
              read_text_field w fecha_hora (user ∷ []) fecha_field,
              read_text_field w user [] user_field,
              ran,
            )
            (ground arith),
        stored,
        same,
      )
