-- ===== src/Logic/Users/Rewritten.antt =====
-- What changes on a disk, and what does not, when the users file is written again.
use trabajos_sistemas_distri.Base.{
  false, List, [], ◌∷◌, ◌++◌, ◌≡◌, refl, ◌≢◌, Bytes, str_eq, arith, All, append_assoc, append-nil,
}
use trabajos_sistemas_distri.Stdio.Scan.Laws.{print_all}
use trabajos_sistemas_distri.Stdio.Disk.{Disk}
use trabajos_sistemas_distri.Stdio.Disk.Laws.{str_eq_ne}
use trabajos_sistemas_distri.Logic.Users.{users_file, User, print_user, contents_file}
use trabajos_sistemas_distri.Logic.Users.Print.{IsUser}
use trabajos_sistemas_distri.Logic.Users.Registry.{DistinctNames, Stores, rewritten}

pub print_all-append :
    (us : List User) (u : User)
    → print_all print_user (us ++ u ∷ []) ≡ print_all print_user us ++ print_user u
print_all-append [] u = append-nil (print_user u)
print_all-append (v ∷ us) u = rw (print_all-append us u, append_assoc) refl

-- No file but those of the list has changed, and what may be read and written is the same.
pub record SameBut (fs : List Bytes) (d d' : Disk) : Type 0 where
  pub files : (g : Bytes) → All (λ f. f ≢ g) fs → d'.files g ≡ d.files g
  pub readable : d'.readable ≡ d.readable
  pub writable : d'.writable ≡ d.writable

pub SameBut-self : (fs : List Bytes) (d : Disk) → SameBut fs d d
SameBut-self fs d = record { files = λ g k. refl; readable = refl; writable = refl }

pub contents_ne_users : (user : Bytes) → str_eq (contents_file user) users_file ≡ false
unfolding contents_file str_eq
contents_ne_users user = refl

pub Stores-rewritten :
    (temp : Bytes) (us us' : List User) (d : Disk)
    → Stores us d
    → All IsUser us'
    → DistinctNames us'
    → Stores us' (rewritten temp us' d)
unfolding str_eq
Stores-rewritten temp us us' d s v n = record {
  file = refl;
  valid = v;
  distinct = n;
  readable = s.readable;
  may_write = s.may_write;
}

pub SameBut-rewritten :
    (temp : Bytes) (us : List User) (d : Disk)
    → SameBut (users_file ∷ temp ∷ []) d (rewritten temp us d)
SameBut-rewritten temp us d = record {
  files = λ g h. ground (arith, str_eq_ne users_file g h.0, str_eq_ne temp g h.1.0);
  readable = refl;
  writable = refl;
}
