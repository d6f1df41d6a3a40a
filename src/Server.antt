-- ===== src/Server.antt =====
-- Práctica_Final/server.c: the treatment of one request. `Server/World` has the state that a request
-- sees, `Server/Requests` a handler for each command, `Server/Listing` those that send lists.
pub mod World
pub mod Main
pub mod Requests
pub mod Listing
pub mod Replies
pub mod Service
pub mod Ends
use trabajos_sistemas_distri.Base.{ℕ, [], ◌∷◌, if◌then◌else◌, Bytes, codes, str_eq}
use trabajos_sistemas_distri.Server.World.{Serve, ◌>>=◌, ◌>>◌, read_text, defined, send, close}
use trabajos_sistemas_distri.Server.Requests.{
  register, unregister, connect, disconnect, publish, delete,
}
use trabajos_sistemas_distri.Server.Listing.{list_users, list_content, get_file}

-- The `if` ladder of `tratar_peticion`
unfoldable pub dispatch : Bytes → Serve Unit
dispatch command =
    if str_eq command (codes "REGISTER")
    then register
    else if str_eq command (codes "UNREGISTER")
    then unregister
    else if str_eq command (codes "CONNECT")
    then connect
    else if str_eq command (codes "DISCONNECT")
    then disconnect
    else if str_eq command (codes "PUBLISH")
    then publish
    else if str_eq command (codes "DELETE")
    then delete
    else if str_eq command (codes "LIST_USERS")
    then list_users
    else if str_eq command (codes "LIST_CONTENT")
    then list_content
    else if str_eq command (codes "GET_FILE")
    then get_file
    else send (9 ∷ [])

-- `tratar_peticion`, from the first `readLine` on
unfoldable pub tratar_peticion : Serve Unit
unfolding dispatch
tratar_peticion = do line ← read_text; command ← defined line; dispatch command; close
