-- ===== src/Tests/Service.antt =====
-- A sequence of requests to the server.
use trabajos_sistemas_distri.Base.{
  ℕ, Bool, false, not, ◌&&◌, ◌==◌, ltb, length, any, ◌≢◌, true, List, [], ◌∷◌, ◌++◌, ◌≡◌, refl,
  Bytes, codes, str_eq, arith, Bool-cases, inl, inr, subst, str_eq_iff, some, if◌then◌else◌, All,
}
use trabajos_sistemas_distri.Stdio.Run.{done}
use trabajos_sistemas_distri.Stdio.Disk.{Disk, put}
use trabajos_sistemas_distri.Logic.Users.{contents_file}
use trabajos_sistemas_distri.Logic.Users.Print.{has_name}
use trabajos_sistemas_distri.Logic.Contents.Refines.{Publishes}
use trabajos_sistemas_distri.Stdio.Decimal.{decimal}
use trabajos_sistemas_distri.Server.Listing.Lines.{IsShort}
use trabajos_sistemas_distri.Server.{tratar_peticion}
use trabajos_sistemas_distri.Server.Replies.Dialogue.{receiving}
use trabajos_sistemas_distri.Server.Service.{
  Service, Request, registers, publishes, disconnects, asks_contents, fields, serve, serve_all,
}
use trabajos_sistemas_distri.Server.Service.Represents.{IsFileName, Represents}
use trabajos_sistemas_distri.Server.Service.Requests.{answered}
use trabajos_sistemas_distri.Server.Service.Refines.{
  tratar_peticion-serves, serve_clients, sent, serve_clients-serves,
}
use trabajos_sistemas_distri.Tests.Data.{
  ana, luis, eva, home, date, users, poem, contents, disk, world, IsWord-eva, IsWord-home,
  IsContent-song, IsContent-poem, valid_users, Stores-users, IsField-ana, IsField-eva, IsField-date,
}

-- ana has published a song, luis nothing.
abbrev service : Service
service = record { users = users; contents = λ n. if str_eq n ana then contents else [] }

abbrev is_slash : ℕ → Bool
is_slash c = c == b'/'

-- The files that a file system lets a program open.
abbrev is_file_name : Bytes → Bool
is_file_name f = ltb (length f) 256 && not (any is_slash f)

no_slash : (f : Bytes) → All (λ c. c ≢ b'/') f → any is_slash f ≡ false
no_slash [] h = refl
no_slash (c ∷ f) (h, k) = ground (arith, no_slash f k)

IsFileName-is_file_name : (f : Bytes) → IsFileName f → is_file_name f ≡ true
IsFileName-is_file_name f (h, k) = ground (arith, no_slash f k)

abbrev stored : Disk
stored = record {
  files = put disk.files (contents_file luis) (some []);
  readable = is_file_name;
  writable = is_file_name;
}

Publishes-ana : Publishes ana contents stored
unfolding str_eq contents_file
Publishes-ana = record {
  file = refl;
  valid = (IsContent-song, tt);
  readable = refl;
  writable = refl;
  tmp = refl;
}

Publishes-luis : Publishes luis [] stored
unfolding str_eq contents_file
Publishes-luis = record { file = refl; valid = tt; readable = refl; writable = refl; tmp = refl }

-- What holds for ana and for luis holds for every user.
by_name : (P : Bytes → Type 0) → P ana → P luis → (n : Bytes) → has_name n users ≡ true → P n
by_name P a l n h = elim (Bool-cases (str_eq ana n)) [
  | inl e ↦ subst P ((str_eq_iff ana n).0 e) a
  | inr e ↦ elim (Bool-cases (str_eq luis n)) [
    | inl f ↦ subst P ((str_eq_iff luis n).0 f) l
    | inr f ↦ absurd (ground arith)
  ]
]

Represents-service : Represents service stored
unfolding str_eq contents_file
Represents-service = record {
  stores = record {
    file = refl;
    valid = valid_users;
    distinct = Stores-users.distinct;
    readable = refl;
    may_write = record { users = refl; tmp = refl; flags = refl; temp = refl };
  };
  publishes = by_name (λ n. Publishes n (service.contents n) stored) Publishes-ana Publishes-luis;
  short = by_name (λ n. All IsShort (service.contents n)) (omega arith) tt;
  readable = λ n. IsFileName-is_file_name (contents_file n);
  writable = λ n. IsFileName-is_file_name (contents_file n);
  tmp = refl;
}

-- eva registers and publishes, ana asks for what eva has published and leaves.
abbrev dialogue : List (Bytes × Request)
dialogue =
    (home, registers date eva)
    ∷ (home, publishes date eva poem)
    ∷ (home, asks_contents date ana eva)
    ∷ (home, disconnects date ana)
    ∷ []

tratar_peticion-serves_example :
    (d : Disk) × (tratar_peticion
        (receiving (record world { disk = stored }) (fields (publishes date ana poem)))
      ≡ done (tt, answered (record world { disk = stored }) (0 ∷ []) d))
    × Represents (serve home (publishes date ana poem) service).1 d
unfolding str_eq
tratar_peticion-serves_example =
    tratar_peticion-serves (record world { disk = stored }) (publishes date ana poem) service
      Represents-service
      (IsField-date, IsField-ana, IsContent-poem, omega arith, omega arith, omega arith)

serve_clients-serves_example :
    (d : Disk) × (serve_clients (sent dialogue) stored
      ≡ done ((0 ∷ []) ∷ (0 ∷ []) ∷ (0 ∷ codes "1" ++ 0 ∷ poem.file ++ 0 ∷ []) ∷ (0 ∷ []) ∷ [], d))
    × Represents (serve_all dialogue service).1 d
unfolding str_eq serve_all decimal contents_file
serve_clients-serves_example = serve_clients-serves dialogue service stored Represents-service (
  (IsField-date, IsField-eva, IsWord-eva, omega arith, IsWord-home),
  (
    (IsField-date, IsField-eva, IsContent-poem, omega arith, omega arith, omega arith),
    ((IsField-date, IsField-ana, IsField-eva), ((IsField-date, IsField-ana), tt)),
  ),
)
