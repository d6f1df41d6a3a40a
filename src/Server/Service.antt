-- ===== src/Server/Service.antt =====
-- What server.c offers its clients, without files and bytes: a list of users and what each has
-- published, and for each request the reply and the state after it.
pub mod Represents
pub mod Requests
pub mod Users
pub mod Contents
pub mod Refines
use trabajos_sistemas_distri.Base.{
  ℕ, List, [], ◌∷◌, ◌++◌, if◌then◌else◌, Bytes, codes, str_eq, pos, map, length,
}
use trabajos_sistemas_distri.Stdio.Decimal.{decimal, atoi}
use trabajos_sistemas_distri.Logic.Users.{User}
use trabajos_sistemas_distri.Logic.Users.Print.{has_name}
use trabajos_sistemas_distri.Logic.Users.Loops.{without, at_address, with_flag, has_flag}
use trabajos_sistemas_distri.Logic.Contents.{Content}
use trabajos_sistemas_distri.Logic.Contents.Print.{has_file, without_file}
use trabajos_sistemas_distri.Server.Listing.{c_string}
use trabajos_sistemas_distri.Server.Replies.Lists.{users_listing, names_listing}

-- `contents` counts for the names of users only.
pub record Service : Type 0 where
  pub users : List User
  pub contents : Bytes → List Content

-- A request, with the date and the user that each but an unknown one begins with.
pub data Request : Type 0 where
  registers : (date user : Bytes) → Request
  unregisters : (date user : Bytes) → Request
  connects : (date user port : Bytes) → Request
  disconnects : (date user : Bytes) → Request
  publishes : (date user : Bytes) → Content → Request
  deletes : (date user file : Bytes) → Request
  asks_users : (date user : Bytes) → Request
  asks_contents : (date user target : Bytes) → Request
  asks_file : (date user : Bytes) → Request
  unknown : (command : Bytes) → Request

-- The fields of a request, in the order in which the client sends them.
abbrev pub fields : Request → List Bytes
fields (registers date user) = codes "REGISTER" ∷ date ∷ user ∷ []
fields (unregisters date user) = codes "UNREGISTER" ∷ date ∷ user ∷ []
fields (connects date user port) = codes "CONNECT" ∷ date ∷ user ∷ port ∷ []
fields (disconnects date user) = codes "DISCONNECT" ∷ date ∷ user ∷ []
fields (publishes date user c) = codes "PUBLISH" ∷ date ∷ user ∷ c.file ∷ c.description ∷ []
fields (deletes date user file) = codes "DELETE" ∷ date ∷ user ∷ file ∷ []
fields (asks_users date user) = codes "LIST_USERS" ∷ date ∷ user ∷ []
fields (asks_contents date user target) = codes "LIST_CONTENT" ∷ date ∷ user ∷ target ∷ []
fields (asks_file date user) = codes "GET_FILE" ∷ date ∷ user ∷ []
fields (unknown command) = command ∷ []

abbrev pub publishing : Bytes → List Content → Service → Bytes → List Content
publishing user cs r name = if str_eq user name then cs else r.contents name

abbrev pub users_reply : List User → Bytes
users_reply us = 0 ∷ (c_string (decimal (length us)) ++ users_listing us)

-- What a client at the address `peer` gets for a request, and the state afterwards.
abbrev pub serve : Bytes → Request → Service → Bytes × Service
serve peer (registers date user) r = if has_name user r.users then (1 ∷ [], r) else (
  0 ∷ [],
  record {
    users = r.users ++ record { name = user; ip = peer; port = pos 0; connected = pos 0 } ∷ [];
    contents = publishing user [] r;
  },
)
serve peer (unregisters date user) r = (
  (if has_name user r.users then 0 else 1) ∷ [],
  record { users = without user r.users; contents = publishing user [] r },
)
serve peer (connects date user port) r =
    if has_name user r.users
    then (if has_flag (pos 1) user r.users
        then (2 ∷ [], r)
        else (0 ∷ [], record r { users = map (at_address user peer (atoi port)) r.users }))
    else (1 ∷ [], r)
serve peer (disconnects date user) r = (
  (if has_name user r.users then (if has_flag (pos 0) user r.users then 2 else 0) else 1) ∷ [],
  record r { users = map (with_flag (pos 0) user) r.users },
)
serve peer (publishes date user c) r =
    if has_name user r.users
    then (if has_file c.file (r.contents user)
        then (3 ∷ [], r)
        else (0 ∷ [], record r { contents = publishing user (r.contents user ++ c ∷ []) r }))
    else (1 ∷ [], r)
serve peer (deletes date user file) r =
    if has_name user r.users
    then (
      (if has_file file (r.contents user) then 0 else 3) ∷ [],
      record r { contents = publishing user (without_file file (r.contents user)) r },
    )
    else (1 ∷ [], r)
serve peer (asks_users date user) r = (users_reply r.users, r)
serve peer (asks_contents date user target) r =
    if has_name user r.users
    then (if has_name target r.users
        then (
          0
              ∷ (c_string (decimal (length (r.contents target)))
                  ++ names_listing (r.contents target)),
          r,
        )
        else (1 ∷ [], r))
    else (1 ∷ [], r)
serve peer (asks_file date user) r = (users_reply r.users, r)
serve peer (unknown command) r = (9 ∷ [], r)

abbrev also : Bytes → List Bytes × Service → List Bytes × Service
also s (ss, r) = (s ∷ ss, r)

-- Requests one after the other, each from an address.
unfoldable pub serve_all : List (Bytes × Request) → Service → List Bytes × Service
serve_all [] r = ([], r)
serve_all ((peer, q) ∷ qs) r = let (s, r1) = serve peer q r in also s (serve_all qs r1)
