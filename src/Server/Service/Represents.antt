-- ===== src/Server/Service/Represents.antt =====
-- When a disk holds the state of the service, and what keeps it.
use trabajos_sistemas_distri.Base.{
  ◌≤◌, length, true, false, some, List, [], ◌∷◌, ◌≡◌, ◌≢◌, subst, Bytes, codes, str_eq, str_eq_iff,
  All, arith, Bool-cases, inl, inr,
}
use mathlib.Core.List.{append_cancel_left, append_cancel_right}
use trabajos_sistemas_distri.Stdio.Scan.Laws.{print_all}
use trabajos_sistemas_distri.Stdio.Disk.{Disk}
use trabajos_sistemas_distri.Logic.Users.{users_file, contents_file, User}
use trabajos_sistemas_distri.Logic.Users.Print.{has_name}
use trabajos_sistemas_distri.Logic.Users.Registry.{Stores}
use trabajos_sistemas_distri.Logic.Users.Rewritten.{SameBut}
use trabajos_sistemas_distri.Logic.Contents.{Content, print_content}
use trabajos_sistemas_distri.Logic.Contents.Print.{IsContent}
use trabajos_sistemas_distri.Logic.Contents.Refines.{Publishes}
use trabajos_sistemas_distri.Server.Listing.Lines.{IsShort}
use trabajos_sistemas_distri.Server.Service.{Service, publishing}

-- What a file system takes for the name of a file: at most 255 bytes (NAME_MAX), none of them a
-- slash.
abbrev pub IsFileName : Bytes → Type 0
IsFileName f = (length f ≤ 255) × All (λ c. c ≢ b'/') f

-- The users file holds the users, and the contents file of each what that user has published, in
-- lines that LIST_CONTENT reads whole; the system lets the server read and write the users file and
-- its copies, and a contents file for every user whose name gives the name of a file.
pub record Represents (r : Service) (d : Disk) : Type 0 where
  pub stores : Stores r.users d
  pub publishes : (n : Bytes) → has_name n r.users ≡ true → Publishes n (r.contents n) d
  pub short : (n : Bytes) → has_name n r.users ≡ true → All IsShort (r.contents n)
  pub readable : (n : Bytes) → IsFileName (contents_file n) → d.readable (contents_file n) ≡ true
  pub writable : (n : Bytes) → IsFileName (contents_file n) → d.writable (contents_file n) ≡ true
  pub tmp : d.writable (codes "tmp_content.txt") ≡ true

pub contents_file-inj : (n m : Bytes) → contents_file n ≡ contents_file m → n ≡ m
unfolding contents_file
contents_file-inj n m e =
    append_cancel_right n m (codes ".txt") (append_cancel_left (codes "contents_") _ _ e)

pub contents_ne_others :
    (n : Bytes)
    → All
        (λ f. f ≢ contents_file n)
        (users_file
          ∷ codes "temp.txt"
          ∷ codes "users_tmp.txt"
          ∷ codes "users_temp.txt"
          ∷ codes "tmp_content.txt"
          ∷ [])
unfolding contents_file
contents_ne_others n = (
  λ e. ground arith,
  (λ e. ground arith, (λ e. ground arith, (λ e. ground arith, (λ e. ground arith, tt)))),
)

-- What a user has published stays, if no change touches that file.
pub Publishes-SameBut :
    (n : Bytes) (cs : List Content) (fs : List Bytes) (d d' : Disk)
    → Publishes n cs d
    → SameBut fs d d'
    → All (λ f. f ≢ contents_file n) fs
    → Publishes n cs d'
Publishes-SameBut n cs fs d d' p same k = record {
  file = rw (same.files (contents_file n) k) p.file;
  valid = p.valid;
  readable = rw same.readable p.readable;
  writable = rw same.writable p.writable;
  tmp = rw same.writable p.tmp;
}

is : (user n : Bytes) → str_eq user n ≡ true → user ≡ n
is user n e = (str_eq_iff user n).0 e

other : (user n : Bytes) → str_eq user n ≡ false → user ≢ n
other user n e = λ i. ground (arith, str_eq_iff user n)

module _ {r : Service} {d d' : Disk} (rep : Represents r d) (us : List User) (s : Stores us d')
    (fs : List Bytes) (same : SameBut fs d d') where
  -- A contents file is where the server may read and write it.
  pub Publishes-now :
      (n : Bytes) (cs : List Content)
      → IsFileName (contents_file n)
      → d'.files (contents_file n) ≡ some (print_all print_content cs)
      → All IsContent cs
      → Publishes n cs d'
  Publishes-now n cs k e v = record {
    file = e;
    valid = v;
    readable = rw same.readable (rep.readable n k);
    writable = rw same.writable (rep.writable n k);
    tmp = rw same.writable rep.tmp;
  }

  -- A change of the users that adds no name, and leaves the contents files alone.
  pub Represents-users :
      ((n : Bytes) → has_name n us ≡ true → has_name n r.users ≡ true)
      → ((n : Bytes) → All (λ f. f ≢ contents_file n) fs)
      → Represents (record r { users = us }) d'
  Represents-users there others = record {
    stores = s;
    publishes = λ n h.
        Publishes-SameBut n (r.contents n) fs d d' (rep.publishes n (there n h)) same (others n);
    short = λ n h. rep.short n (there n h);
    readable = λ n k. rw same.readable (rep.readable n k);
    writable = λ n k. rw same.writable (rep.writable n k);
    tmp = rw same.writable rep.tmp;
  }

  -- A change for one user: no other name is added, and no other contents file touched.
  pub Represents-one :
      (user : Bytes) (cs : List Content)
      → ((n : Bytes) → user ≢ n → has_name n us ≡ true → has_name n r.users ≡ true)
      → ((n : Bytes) → user ≢ n → All (λ f. f ≢ contents_file n) fs)
      → (has_name user us ≡ true → Publishes user cs d' × All IsShort cs)
      → Represents (record { users = us; contents = publishing user cs r }) d'
  Represents-one user cs there others own = record {
    stores = s;
    publishes = λ n h. elim (Bool-cases (str_eq user n)) [
      | inl e ↦ rw e (subst (λ m. Publishes m cs d') (is user n e) (own (rw (is user n e) h)).0)
      | inr e ↦ rw e (
          Publishes-SameBut n (r.contents n) fs d d' (rep.publishes n (there n (other user n e) h))
            same (others n (other user n e)))
    ];
    short = λ n h. elim (Bool-cases (str_eq user n)) [
      | inl e ↦ rw e (own (rw (is user n e) h)).1
      | inr e ↦ rw e (rep.short n (there n (other user n e) h))
    ];
    readable = λ n k. rw same.readable (rep.readable n k);
    writable = λ n k. rw same.writable (rep.writable n k);
    tmp = rw same.writable rep.tmp;
  }

  -- A change for one user after which the users and what is published are the same.
  pub Represents-kept :
      (user : Bytes)
      → us ≡ r.users
      → ((n : Bytes) → user ≢ n → All (λ f. f ≢ contents_file n) fs)
      → (has_name user us ≡ true → Publishes user (r.contents user) d')
      → Represents r d'
  Represents-kept user e others own = record {
    stores = rw e at s;
    publishes = λ n h. elim (Bool-cases (str_eq user n)) [
      | inl t ↦
          subst (λ m. Publishes m (r.contents m) d') (is user n t) (own (rw (e, is user n t) h))
      | inr t ↦
          Publishes-SameBut n (r.contents n) fs d d' (rep.publishes n h) same
            (others n (other user n t))
    ];
    short = rep.short;
    readable = λ n k. rw same.readable (rep.readable n k);
    writable = λ n k. rw same.writable (rep.writable n k);
    tmp = rw same.writable rep.tmp;
  }
