-- ===== src/Server/Service/Requests.antt =====
-- What a request to server.c has to be, and what it means to serve it as the service does.
use trabajos_sistemas_distri.Base.{true, [], ◌++◌, ◌≡◌, ◌≢◌, Bytes, codes, str_eq, ◌||◌, IsInt}
use trabajos_sistemas_distri.Stdio.Run.{done}
use trabajos_sistemas_distri.Stdio.Decimal.{atoi}
use trabajos_sistemas_distri.Stdio.Scan.Laws.{IsWord}
use trabajos_sistemas_distri.Stdio.Disk.{Disk}
use trabajos_sistemas_distri.Logic.Users.{max_str, contents_file}
use trabajos_sistemas_distri.Logic.Contents.Print.{IsContent}
use trabajos_sistemas_distri.Server.{tratar_peticion}
use trabajos_sistemas_distri.Server.World.{World}
use trabajos_sistemas_distri.Server.Listing.Lines.{IsShort}
use trabajos_sistemas_distri.Server.Replies.Dialogue.{IsField, receiving}
use trabajos_sistemas_distri.Server.Service.{
  Service, Request, registers, unregisters, connects, disconnects, publishes, deletes, asks_users,
  asks_contents, asks_file, unknown, fields, serve,
}
use trabajos_sistemas_distri.Server.Service.Represents.{IsFileName, Represents, contents_file-inj}

-- The end of a request: `s` has been sent, and the connection is closed.
abbrev pub answered : World → Bytes → Disk → World
answered w s d = record w { disk = d; input = []; output = w.output ++ s; closed = true }

abbrev pub IsCommand : Bytes → Type 0
IsCommand s =
    (str_eq s (codes "REGISTER")
      || (str_eq s (codes "UNREGISTER")
          || (str_eq s (codes "CONNECT")
              || (str_eq s (codes "DISCONNECT")
                  || (str_eq s (codes "PUBLISH")
                      || (str_eq s (codes "DELETE")
                          || (str_eq s (codes "LIST_USERS")
                              || (str_eq s (codes "LIST_CONTENT")
                                  || str_eq s (codes "GET_FILE")))))))))
    ≡ true

-- What the fields of a request of a client at `peer` have to be. The name of a user who registers
-- gives the name of a file: registerUser takes no notice where it cannot make the contents file.
abbrev pub WellFormed : Bytes → Request → Type 0
WellFormed peer (registers date user) =
    IsField date
    × IsField user
    × IsWord max_str user
    × IsFileName (contents_file user)
    × IsWord 32 peer
WellFormed peer (unregisters date user) = IsField date × IsField user
WellFormed peer (connects date user port) =
    IsField date × IsField user × IsField port × IsInt (atoi port) × IsWord 32 peer
WellFormed peer (disconnects date user) = IsField date × IsField user
WellFormed peer (publishes date user c) =
    IsField date × IsField user × IsContent c × IsField c.file × IsField c.description × IsShort c
WellFormed peer (deletes date user file) = IsField date × IsField user × IsField file
WellFormed peer (asks_users date user) = IsField date × IsField user
WellFormed peer (asks_contents date user target) = IsField date × IsField user × IsField target
WellFormed peer (asks_file date user) = IsField date × IsField user
WellFormed peer (unknown command) = IsField command × (IsCommand command → ⊥)

abbrev pub Served : World → Request → Service → Type 0
Served w q r =
    (d : Disk) × (tratar_peticion (receiving w (fields q))
      ≡ done (tt, answered w (serve w.peer q r).0 d))
    × Represents (serve w.peer q r).1 d

pub other_files : (user : Bytes) (n : Bytes) → user ≢ n → contents_file user ≢ contents_file n
other_files user n h e = h (contents_file-inj user n e)
