-- ===== src/Server/Replies/Connect.antt =====
-- CONNECT, from the first byte read to the close of the connection.
use trabajos_sistemas_distri.Base.{
  ℕ, true, ◌∙◌, ◌&&◌, not, List, [], ◌∷◌, ◌++◌, ◌≡◌, refl, if◌then◌else◌, Bytes, codes, str_eq, ℤ,
  pos, map, arith, Bool-cases, inl, inr, IsInt,
}
use trabajos_sistemas_distri.Stdio.Run.{done}
use trabajos_sistemas_distri.Stdio.Decimal.{atoi}
use trabajos_sistemas_distri.Stdio.Scan.Laws.{IsWord}
use trabajos_sistemas_distri.Stdio.Disk.{Disk}
use trabajos_sistemas_distri.Logic.Users.{users_file, User}
use trabajos_sistemas_distri.Logic.Users.Print.{has_name}
use trabajos_sistemas_distri.Logic.Users.Loops.{at_address, with_flag, has_flag}
use trabajos_sistemas_distri.Logic.Users.Registry.{Stores, exist-has_name}
use trabajos_sistemas_distri.Logic.Users.Lists.{map-with_flag_again, map-at_address-with_flag}
use trabajos_sistemas_distri.Logic.Users.Rewritten.{SameBut, SameBut-self}
use trabajos_sistemas_distri.Logic.Users.Refines.{connect_user_lem, update_user_ip_port_lem}
use trabajos_sistemas_distri.Server.World.{World, defined, send, close, on_disk, ask, peer_address}
use trabajos_sistemas_distri.Server.Requests.{announced, connect, connect_existing}
use trabajos_sistemas_distri.Server.{dispatch, tratar_peticion}
use trabajos_sistemas_distri.Server.Replies.Dialogue.{
  IsField, receiving, read_text_field, tratar_peticion-dispatch,
}
use trabajos_sistemas_distri.Server.Replies.Users.{replied}

-- The files that CONNECT writes.
abbrev pub connect_files : List Bytes
connect_files = users_file ∷ codes "users_temp.txt" ∷ codes "users_tmp.txt" ∷ []

SameBut-more :
    {d d' : Disk}
    → SameBut (users_file ∷ codes "users_temp.txt" ∷ []) d d'
    → SameBut connect_files d d'
SameBut-more h = record {
  files = λ g k. h.files g (k.0, (k.1.0, tt));
  readable = h.readable;
  writable = h.writable;
}

SameBut-then :
    {d d' d'' : Disk}
    → SameBut (users_file ∷ codes "users_temp.txt" ∷ []) d d'
    → SameBut (users_file ∷ codes "users_tmp.txt" ∷ []) d' d''
    → SameBut connect_files d d''
SameBut-then h k = record {
  files = λ g n. k.files g (n.0, (n.1.1.0, tt)) ∙ h.files g (n.0, (n.1.0, tt));
  readable = k.readable ∙ h.readable;
  writable = k.writable ∙ h.writable;
}

module _ (w : World) (us : List User) (s : Stores us w.disk) (fecha_hora user : Bytes)
    (fecha_field : IsField fecha_hora) (user_field : IsField user) where
  -- What CONNECT replies.
  abbrev connect_reply : ℕ
  connect_reply = if has_name user us then (if has_flag (pos 1) user us then 2 else 0) else 1

  -- What is stored after CONNECT.
  abbrev connected_users : ℤ → List User
  connected_users port =
      if has_name user us && not (has_flag (pos 1) user us)
      then map (at_address user w.peer port) us
      else us

  connect_existing_lem :
      (port : ℤ)
      → IsWord 32 w.peer
      → IsInt port
      → has_name user us ≡ true
      → (d : Disk) × (connect_existing user w.peer port (receiving w [])
          ≡ done (tt, record w { disk = d; input = []; output = w.output ++ connect_reply ∷ [] }))
        × Stores (connected_users port) d
        × SameBut connect_files w.disk d
  unfolding connect_existing on_disk send
  connect_existing_lem port hi hp h =
      let (d, ran, stored, same) = connect_user_lem user us w.disk s in
      elim (Bool-cases (has_flag (pos 1) user us)) [
        | inl already ↦ (
          d,
          rw (ran, h, already) refl,
          rw (h, already) (rw (map-with_flag_again (pos 1) user us s.distinct already) at stored),
          SameBut-more same,
        )
        | inr new ↦
            let (d', ran', stored', same') =
              update_user_ip_port_lem user (map (with_flag (pos 1) user) us) d stored w.peer port hi
                hp in
            (
              d',
              rw (ran, h, new, ran') refl,
              rw (h, new) (rw (map-at_address-with_flag user w.peer port (pos 1) us) at stored'),
              SameBut-then same same',
            )
      ]

  -- A CONNECT request of fields that are lines of less than 256 bytes, the port among them a
  -- number that an `int` holds, on a disk that stores users: if the user is there and not
  -- connected, the client's address and the port are stored, the flag is set and the reply is 0.
  -- Else the reply is 2 for a user that is connected and 1 for one that is not there, and the
  -- users stored are the same. No file but the users file and two temporary ones changes.
  pub connect_request :
      (port : Bytes)
      → IsField port
      → IsInt (atoi port)
      → IsWord 32 w.peer
      → (d : Disk) × (tratar_peticion
            (receiving w (codes "CONNECT" ∷ fecha_hora ∷ user ∷ port ∷ []))
          ≡ done (tt, replied w connect_reply d))
        × Stores (connected_users (atoi port)) d
        × SameBut connect_files w.disk d
  unfolding dispatch connect announced defined send close ask peer_address str_eq
  connect_request port hf hp hi = elim (Bool-cases (has_name user us)) [
    | inl there ↦
        let (d, ran, stored, same) = connect_existing_lem (atoi port) hi hp there in
        (
          d,
          rw
              (
                tratar_peticion-dispatch w (codes "CONNECT") (fecha_hora ∷ user ∷ port ∷ [])
                    (omega arith),
                read_text_field w fecha_hora (user ∷ port ∷ []) fecha_field,
                read_text_field w user (port ∷ []) user_field,
                read_text_field w port [] hf,
                exist-has_name user us w.disk s,
                there,
                ran,
              )
              (rw there refl),
          stored,
          same,
        )
    | inr absent ↦ (
      w.disk,
      rw
          (
            tratar_peticion-dispatch w (codes "CONNECT") (fecha_hora ∷ user ∷ port ∷ [])
                (omega arith),
            read_text_field w fecha_hora (user ∷ port ∷ []) fecha_field,
            read_text_field w user (port ∷ []) user_field,
            read_text_field w port [] hf,
            exist-has_name user us w.disk s,
            absent,
          )
          refl,
      rw absent s,
      SameBut-self connect_files w.disk,
    )
  ]
