-- ===== src/Server/Service/Refines.antt =====
-- server.c serves requests as the service does.
use trabajos_sistemas_distri.Base.{false, List, [], ◌∷◌, ◌≡◌, refl, Bytes, All, arith}
use trabajos_sistemas_distri.Stdio.Run.{Run, done, ◌>>=◌}
use trabajos_sistemas_distri.Stdio.Disk.{Disk}
use trabajos_sistemas_distri.Server.{tratar_peticion, dispatch}
use trabajos_sistemas_distri.Server.World.{World, send, close}
use trabajos_sistemas_distri.Server.Replies.Dialogue.{
  IsField, request, receiving, tratar_peticion-dispatch,
}
use trabajos_sistemas_distri.Server.Replies.Lists.{list_users_request}
use trabajos_sistemas_distri.Server.Service.{
  Service, Request, registers, unregisters, connects, disconnects, publishes, deletes, asks_users,
  asks_contents, asks_file, unknown, fields, serve, serve_all,
}
use trabajos_sistemas_distri.Server.Service.Represents.{Represents}
use trabajos_sistemas_distri.Server.Service.Requests.{answered, IsCommand, WellFormed, Served}
use trabajos_sistemas_distri.Sockets.{Event}
use trabajos_sistemas_distri.Server.Service.Users.{
  register-Served, unregister-Served, disconnect-Served, connect-Served,
}
use trabajos_sistemas_distri.Server.Service.Contents.{
  publish-Served, delete-Served, list_content-Served,
}

unknown-Served :
    (w : World) (r : Service)
    → Represents r w.disk
    → (command : Bytes) → IsField command
    → (IsCommand command → ⊥)
    → Served w (unknown command) r
unfolding dispatch send close
unknown-Served w r rep command fc h =
    (w.disk, rw (tratar_peticion-dispatch w command [] fc) (ground arith), rep)

-- On a disk that holds the state of the service, where the server may open the users file, its
-- copies and the contents file of every user whose name gives a file name, a well-formed request of
-- any kind is treated as the service does, whether its users are registered or not: the client gets
-- its reply, the connection is closed, and the disk holds the state that the service has then. Of a
-- user with nothing published the service lists the count 0 behind a reply 0. A user who registers
-- has a name that gives a file name.
pub tratar_peticion-serves :
    (w : World) (q : Request) (r : Service)
    → Represents r w.disk
    → WellFormed w.peer q
    → (d : Disk) × (tratar_peticion (receiving w (fields q))
        ≡ done (tt, answered w (serve w.peer q r).0 d))
      × Represents (serve w.peer q r).1 d
tratar_peticion-serves w (registers date user) r rep (fd, fu, hu, hn, hi) =
    register-Served w r rep date fd user fu hu hn hi
tratar_peticion-serves w (unregisters date user) r rep (fd, fu) =
    unregister-Served w r rep date fd user fu
tratar_peticion-serves w (connects date user port) r rep (fd, fu, fp, hp, hi) =
    connect-Served w r rep date fd user fu port fp hp hi
tratar_peticion-serves w (disconnects date user) r rep (fd, fu) =
    disconnect-Served w r rep date fd user fu
tratar_peticion-serves w (publishes date user c) r rep (fd, fu, vc, ff, ft, short) =
    publish-Served w r rep date fd user fu c vc ff ft short
tratar_peticion-serves w (deletes date user file) r rep (fd, fu, ff) =
    delete-Served w r rep date fd user fu file ff
tratar_peticion-serves w (asks_users date user) r rep (fd, fu) =
    (w.disk, (list_users_request w r.users rep.stores date user fd fu).0, rep)
tratar_peticion-serves w (asks_contents date user target) r rep (fd, fu, ft) =
    list_content-Served w r rep date fd user fu target ft
tratar_peticion-serves w (asks_file date user) r rep (fd, fu) =
    (w.disk, (list_users_request w r.users rep.stores date user fd fu).1, rep)
tratar_peticion-serves w (unknown command) r rep (fc, h) = unknown-Served w r rep command fc h

-- The requests of clients one after the other: what each gets, and the disk.
unfoldable pub serve_clients : List (Bytes × List Event) → Disk → Run (List Bytes × Disk)
serve_clients [] d = done ([], d)
serve_clients ((peer, input) ∷ qs) d =
    tratar_peticion (record { disk = d; input = input; output = []; peer = peer; closed = false })
    >>= λ (_, w). serve_clients qs w.disk >>= λ (ss, d1). done (w.output ∷ ss, d1)

abbrev pub sent : List (Bytes × Request) → List (Bytes × List Event)
sent [] = []
sent ((peer, q) ∷ qs) = (peer, request (fields q)) ∷ sent qs

-- Any sequence of well-formed requests, served one after the other from a disk that holds the state
-- of the service, where the server may open the users file, its copies and the contents file of
-- every user whose name gives a file name, is served as the service does: every client gets its
-- reply, and the disk holds the state that the service has then. Of a user with nothing published
-- the service lists the count 0 behind a reply 0. A user who registers has a name that gives a file
-- name.
pub serve_clients-serves :
    (qs : List (Bytes × Request)) (r : Service) (d : Disk)
    → Represents r d
    → All (λ (peer, q). WellFormed peer q) qs
    → (d' : Disk) × (serve_clients (sent qs) d ≡ done ((serve_all qs r).0, d'))
      × Represents (serve_all qs r).1 d'
unfolding serve_clients serve_all
serve_clients-serves [] r d rep v = (d, refl, rep)
serve_clients-serves ((peer, q) ∷ qs) r d rep (vq, v) =
    let w : World = record { disk = d; input = []; output = []; peer = peer; closed = false } in
    let (d1, ran, rep1) = tratar_peticion-serves w q r rep vq in
    let (d2, ran2, rep2) = serve_clients-serves qs (serve peer q r).1 d1 rep1 v in
    (d2, rw (ran, ran2) refl, rep2)
