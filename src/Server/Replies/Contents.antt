-- ===== src/Server/Replies/Contents.antt =====
-- PUBLISH and DELETE, from the first byte read to the close of the connection.
use trabajos_sistemas_distri.Base.{
  true, false, List, [], ◌∷◌, ◌++◌, ◌≡◌, refl, if◌then◌else◌, Bytes, codes, str_eq, arith,
}
use trabajos_sistemas_distri.Stdio.Run.{done}
use trabajos_sistemas_distri.Stdio.Disk.{Disk}
use trabajos_sistemas_distri.Logic.Users.{User, contents_file}
use trabajos_sistemas_distri.Logic.Users.Print.{has_name}
use trabajos_sistemas_distri.Logic.Users.Registry.{Stores, exist-has_name}
use trabajos_sistemas_distri.Logic.Users.Rewritten.{SameBut}
use trabajos_sistemas_distri.Logic.Contents.{Content}
use trabajos_sistemas_distri.Logic.Contents.Print.{IsContent, has_file, without_file}
use trabajos_sistemas_distri.Logic.Contents.Refines.{
  Publishes, publish_content_lem, delete_content_lem,
}
use trabajos_sistemas_distri.Server.World.{World, defined, send, close, on_disk, ask}
use trabajos_sistemas_distri.Server.Requests.{
  announced, publish, publish_existing, delete, delete_existing, content_code,
}
use trabajos_sistemas_distri.Server.Listing.{list_content}
use trabajos_sistemas_distri.Server.{dispatch, tratar_peticion}
use trabajos_sistemas_distri.Server.Replies.Dialogue.{
  IsField, receiving, read_text_field, tratar_peticion-dispatch,
}
use trabajos_sistemas_distri.Server.Replies.Users.{replied}

module _ (w : World) (us : List User) (cs : List Content) (fecha_hora user : Bytes)
    (s : Stores us w.disk) (p : Publishes user cs w.disk) (there : has_name user us ≡ true)
    (fecha_field : IsField fecha_hora) (user_field : IsField user) where
  -- A PUBLISH request by a registered user whose contents file can be read and written adds the
  -- content and replies 0. It replies 3 if the user has published that file name, and then the
  -- contents stored are the same. The user may be connected or not, the users stored stay,
  -- and no file but the contents file changes.
  pub publish_request :
      (c : Content)
      → IsContent c
      → IsField c.file
      → IsField c.description
      → (d : Disk) × (tratar_peticion
            (receiving w (codes "PUBLISH" ∷ fecha_hora ∷ user ∷ c.file ∷ c.description ∷ []))
          ≡ done (tt, replied w (if has_file c.file cs then 3 else 0) d))
        × Publishes user (if has_file c.file cs then cs else cs ++ c ∷ []) d
        × Stores us d
        × SameBut (contents_file user ∷ []) w.disk d
  unfolding dispatch publish publish_existing content_code announced defined send close ask on_disk
      str_eq
  publish_request c vc ff fd =
      let (d, ran, published, stored, same) =
        publish_content_lem user us cs w.disk s p user_field.fits c vc in
      (
        d,
        rw
            (
              tratar_peticion-dispatch w (codes "PUBLISH")
                  (fecha_hora ∷ user ∷ c.file ∷ c.description ∷ []) (omega arith),
              read_text_field w fecha_hora (user ∷ c.file ∷ c.description ∷ []) fecha_field,
              read_text_field w user (c.file ∷ c.description ∷ []) user_field,
              read_text_field w c.file (c.description ∷ []) ff,
              read_text_field w c.description [] fd,
              exist-has_name user us w.disk s,
              there,
              ran,
              there,
            )
            (ground arith),
        rw there at published,
        stored,
        same,
      )

  -- A DELETE request by a registered user whose contents file can be read and written takes out
  -- what is published under the file name and replies 0, or replies 3 if there is nothing. The users
  -- stored stay, and no file but the contents file and the temporary one changes.
  pub delete_request :
      (file : Bytes)
      → IsField file
      → (d : Disk) × (tratar_peticion (receiving w (codes "DELETE" ∷ fecha_hora ∷ user ∷ file ∷ []))
          ≡ done (tt, replied w (if has_file file cs then 0 else 3) d))
        × Publishes user (without_file file cs) d
        × Stores us d
        × SameBut (contents_file user ∷ codes "tmp_content.txt" ∷ []) w.disk d
  unfolding dispatch delete delete_existing content_code announced defined send close ask on_disk
      str_eq
  delete_request file ff =
      let (d, ran, published, stored, same) =
        delete_content_lem user us cs w.disk s p user_field.fits file in
      (
        d,
        rw
            (
              tratar_peticion-dispatch w (codes "DELETE") (fecha_hora ∷ user ∷ file ∷ [])
                  (omega arith),
              read_text_field w fecha_hora (user ∷ file ∷ []) fecha_field,
              read_text_field w user (file ∷ []) user_field,
              read_text_field w file [] ff,
              exist-has_name user us w.disk s,
              there,
              ran,
              there,
            )
            (ground arith),
        rw there at published,
        stored,
        same,
      )

module _ (w : World) (us : List User) (fecha_hora user : Bytes) (s : Stores us w.disk)
    (absent : has_name user us ≡ false) (fecha_field : IsField fecha_hora)
    (user_field : IsField user) where
  -- PUBLISH, DELETE and LIST_CONTENT requests by a user that is not registered reply 1, whatever
  -- the other fields are, and the disk stays as it is.
  pub content_requests_absent :
      (file description : Bytes)
      → IsField file
      → IsField description
      → (tratar_peticion
            (receiving w (codes "PUBLISH" ∷ fecha_hora ∷ user ∷ file ∷ description ∷ []))
          ≡ done (tt, replied w 1 w.disk))
        × (tratar_peticion (receiving w (codes "DELETE" ∷ fecha_hora ∷ user ∷ file ∷ []))
            ≡ done (tt, replied w 1 w.disk))
        × (tratar_peticion (receiving w (codes "LIST_CONTENT" ∷ fecha_hora ∷ user ∷ file ∷ []))
            ≡ done (tt, replied w 1 w.disk))
  unfolding dispatch publish delete list_content announced defined send close ask str_eq
  content_requests_absent file description ff fd = (
    rw
        (
          tratar_peticion-dispatch w (codes "PUBLISH") (fecha_hora ∷ user ∷ file ∷ description ∷ [])
              (omega arith),
          read_text_field w fecha_hora (user ∷ file ∷ description ∷ []) fecha_field,
          read_text_field w user (file ∷ description ∷ []) user_field,
          read_text_field w file (description ∷ []) ff,
          read_text_field w description [] fd,
          exist-has_name user us w.disk s,
          absent,
        )
        refl,
    rw
        (
          tratar_peticion-dispatch w (codes "DELETE") (fecha_hora ∷ user ∷ file ∷ []) (omega arith),
          read_text_field w fecha_hora (user ∷ file ∷ []) fecha_field,
          read_text_field w user (file ∷ []) user_field,
          read_text_field w file [] ff,
          exist-has_name user us w.disk s,
          absent,
        )
        refl,
    rw
        (
          tratar_peticion-dispatch w (codes "LIST_CONTENT") (fecha_hora ∷ user ∷ file ∷ [])
              (omega arith),
          read_text_field w fecha_hora (user ∷ file ∷ []) fecha_field,
          read_text_field w user (file ∷ []) user_field,
          read_text_field w file [] ff,
          exist-has_name user us w.disk s,
          absent,
        )
        refl,
  )
