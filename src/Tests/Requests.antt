-- ===== src/Tests/Requests.antt =====
-- Requests of the server at concrete fields.
use trabajos_sistemas_distri.Base.{
  [], ◌∷◌, ◌++◌, ◌≡◌, ◌≢◌, refl, some, codes, str_eq, IsInt, pos, map, arith,
}
use trabajos_sistemas_distri.Stdio.Run.{done, starved}
use trabajos_sistemas_distri.Stdio.Decimal.{decimal, atoi, is_digit}
use trabajos_sistemas_distri.Stdio.Disk.{Disk, put}
use trabajos_sistemas_distri.Logic.Users.{users_file, contents_file}
use trabajos_sistemas_distri.Logic.Users.Loops.{at_address}
use trabajos_sistemas_distri.Logic.Users.Registry.{Stores}
use trabajos_sistemas_distri.Logic.Users.Rewritten.{SameBut}
use trabajos_sistemas_distri.Logic.Contents.Refines.{Publishes}
use trabajos_sistemas_distri.Logic.Contents.Print.{without_file}
use trabajos_sistemas_distri.Server.{tratar_peticion}
use trabajos_sistemas_distri.Server.Ends.Dispatch.{tratar_peticion-ne-starved}
use trabajos_sistemas_distri.Server.Listing.{c_string}
use trabajos_sistemas_distri.Server.Replies.Dialogue.{receiving}
use trabajos_sistemas_distri.Server.Replies.Users.{replied, register_request}
use trabajos_sistemas_distri.Server.Replies.Connect.{connect_files, connect_request}
use trabajos_sistemas_distri.Server.Replies.Contents.{publish_request, delete_request}
use trabajos_sistemas_distri.Server.Replies.Lists.{
  listed, users_listing, names_listing, list_users_request, list_content_request,
}
use trabajos_sistemas_distri.Tests.Data.{
  ana, luis, eva, home, date, users, song, poem, contents, disk, world, IsWord-eva, IsWord-home,
  IsContent-poem, Stores-users, Publishes-song, IsField-ana, IsField-luis, IsField-eva,
  IsField-date, ana_there,
}

register_request_example :
    (d : Disk) × (tratar_peticion (receiving world (codes "REGISTER" ∷ date ∷ eva ∷ []))
      ≡ done (tt, replied world 0 d))
    × Stores (users ++ record { name = eva; ip = home; port = pos 0; connected = pos 0 } ∷ []) d
    × (d.files (contents_file eva) ≡ some [])
    × SameBut (users_file ∷ contents_file eva ∷ []) disk d
unfolding str_eq
register_request_example =
    register_request world users Stores-users date eva IsField-date IsField-eva IsWord-eva
      IsWord-home refl

port_number : atoi (codes "5000") ≡ pos 5000
unfolding atoi is_digit
port_number = refl

port_IsInt : IsInt (atoi (codes "5000"))
port_IsInt = rw port_number (omega arith)

connect_request_example :
    (d : Disk) × (tratar_peticion
        (receiving world (codes "CONNECT" ∷ date ∷ luis ∷ codes "5000" ∷ []))
      ≡ done (tt, replied world 0 d))
    × Stores (map (at_address luis home (atoi (codes "5000"))) users) d
    × SameBut connect_files disk d
unfolding str_eq
connect_request_example =
    connect_request world users Stores-users date luis IsField-date IsField-luis (codes "5000")
      (omega arith) port_IsInt IsWord-home

publish_request_example :
    (d : Disk) × (tratar_peticion
        (receiving world (codes "PUBLISH" ∷ date ∷ ana ∷ poem.file ∷ poem.description ∷ []))
      ≡ done (tt, replied world 0 d))
    × Publishes ana (contents ++ poem ∷ []) d
    × Stores users d
    × SameBut (contents_file ana ∷ []) disk d
unfolding str_eq
publish_request_example =
    publish_request world users contents date ana Stores-users Publishes-song ana_there IsField-date
      IsField-ana poem IsContent-poem (omega arith) (omega arith)

delete_request_example :
    (d : Disk) × (tratar_peticion (receiving world (codes "DELETE" ∷ date ∷ ana ∷ song.file ∷ []))
      ≡ done (tt, replied world 0 d))
    × Publishes ana (without_file song.file contents) d
    × Stores users d
    × SameBut (contents_file ana ∷ codes "tmp_content.txt" ∷ []) disk d
unfolding str_eq
delete_request_example =
    delete_request world users contents date ana Stores-users Publishes-song ana_there IsField-date
      IsField-ana song.file (omega arith)

list_users_request_example :
    (tratar_peticion (receiving world (codes "LIST_USERS" ∷ date ∷ eva ∷ []))
      ≡ done (tt, listed world (c_string (decimal 2) ++ users_listing users)))
    × (tratar_peticion (receiving world (codes "GET_FILE" ∷ date ∷ eva ∷ []))
        ≡ done (tt, listed world (c_string (decimal 2) ++ users_listing users)))
list_users_request_example =
    list_users_request world users Stores-users date eva IsField-date IsField-eva

list_content_request_example :
    tratar_peticion (receiving world (codes "LIST_CONTENT" ∷ date ∷ luis ∷ ana ∷ []))
    ≡ done (tt, listed world (c_string (decimal 1) ++ names_listing contents))
unfolding str_eq
list_content_request_example =
    list_content_request world users contents Stores-users date luis ana Publishes-song IsField-date
      IsField-luis IsField-ana refl refl (omega arith)

-- A users file whose first record has no port, and a list of it that is asked for.
abbrev torn : Disk
torn = record disk { files = put disk.files users_file (some (codes "ana 10.0.0.1")) }

tratar_peticion-ne-starved_example :
    tratar_peticion
      (receiving (record world { disk = torn }) (codes "LIST_USERS" ∷ date ∷ ana ∷ []))
    ≢ starved
tratar_peticion-ne-starved_example =
    tratar_peticion-ne-starved
      (receiving (record world { disk = torn }) (codes "LIST_USERS" ∷ date ∷ ana ∷ []))
