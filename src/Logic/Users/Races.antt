-- ===== src/Logic/Users/Races.antt =====
-- Two clients of server.c at a time: the threads that serve them share the files, and logic.c takes no
-- lock.
use trabajos_sistemas_distri.Base.{
  true, false, some, List, [], ◌∷◌, ◌++◌, ◌≡◌, refl, Bytes, str_eq_iff, pos, arith, sym, ap, ◌∙◌,
  subst, All, All-append, str_eq_self,
}
use mathlib.Core.Option.{some-injective}
use trabajos_sistemas_distri.Stdio.Run.{done}
use trabajos_sistemas_distri.Stdio.Scan.{records}
use trabajos_sistemas_distri.Stdio.Scan.Laws.{IsWord, print_all}
use trabajos_sistemas_distri.Stdio.Disk.{Disk}
use trabajos_sistemas_distri.Logic.Users.{
  max_str, users_file, User, print_user, scan_user, contents_file, exist, register_new,
  register_user,
}
use trabajos_sistemas_distri.Logic.Users.Print.{IsUser, has_name, records-print_users}
use trabajos_sistemas_distri.Logic.Users.Registry.{DistinctNames, Stores, exist-has_name}
use trabajos_sistemas_distri.Logic.Users.Lists.{has_name-append}
use trabajos_sistemas_distri.Logic.Users.Refines.{new_user}
use trabajos_sistemas_distri.Logic.Users.Register.{register_user_lem, register_new_lem}

has_name-DistinctNames :
    (us : List User) (u : User) → DistinctNames (us ++ u ∷ []) → has_name u.name us ≡ false
has_name-DistinctNames [] u h = refl
has_name-DistinctNames (v ∷ us) u (hv, h) = ground (
  arith,
  has_name-append v.name us u,
  has_name-DistinctNames us u h,
  str_eq_iff v.name u.name,
  str_eq_iff u.name v.name,
)

-- A users file stores one list.
file-inj :
    (us vs : List User) (d : Disk)
    → d.files users_file ≡ some (print_all print_user us)
    → All IsUser us
    → Stores vs d
    → vs ≡ us
file-inj us vs d e v t =
    let same : print_all print_user vs ≡ print_all print_user us =
      some-injective _ _ (sym t.file ∙ e) in
    let read : done vs ≡ done us =
      sym (records-print_users vs t.valid)
      ∙ (ap (records scan_user) same ∙ records-print_users us v) in
    cc

module _ (user : Bytes) (us : List User) (d : Disk) (s : Stores us d)
    (new : has_name user us ≡ false) (hu : IsWord max_str user)
    (w : d.writable (contents_file user) ≡ true) where
  -- Of two threads that register one new name, the first tests the name, then the second registers it, then the first
  -- goes on: both return 0, the name is in the file twice, and no list of users with different names is stored.
  pub register_user-race :
      (ip1 ip2 : Bytes)
      → IsWord 32 ip1
      → IsWord 32 ip2
      → (d1 d2 : Disk) × (exist user d ≡ done false)
        × (register_user user ip2 (pos 0) d ≡ done (pos 0, d1))
        × (register_new user ip1 (pos 0) d1 ≡ done (pos 0, d2))
        × (d2.files users_file
            ≡ some (
                print_all print_user
                  ((us ++ new_user user ip2 (pos 0) ∷ []) ++ new_user user ip1 (pos 0) ∷ [])))
        × ((vs : List User) → Stores vs d2 → ⊥)
  register_user-race ip1 ip2 h1 h2 =
      let (d1, ran, stored, made, same) =
        register_user_lem user us d s ip2 (pos 0) hu h2 (omega arith) w in
      let s1 : Stores (us ++ new_user user ip2 (pos 0) ∷ []) d1 = rw new at stored in
      let w1 : d1.writable (contents_file user) ≡ true = rw same.writable w in
      let (d2, ran2, file) =
        register_new_lem user (us ++ new_user user ip2 (pos 0) ∷ []) d1 s1 ip1 (pos 0) hu.fits w1 in
      (
        d1,
        d2,
        rw (exist-has_name user us d s) (rw new refl),
        rw new at ran,
        ran2,
        file,
        λ vs t.
            let all : All IsUser
                ((us ++ new_user user ip2 (pos 0) ∷ []) ++ new_user user ip1 (pos 0) ∷ []) =
              All-append IsUser _ _ s1.valid
                (record { name = hu; ip = h1; port = omega arith; connected = omega arith }, tt) in
            let twice : DistinctNames
                ((us ++ new_user user ip2 (pos 0) ∷ []) ++ new_user user ip1 (pos 0) ∷ []) =
              subst DistinctNames (file-inj _ vs d2 file all t) t.distinct in
            let once =
              has_name-DistinctNames (us ++ new_user user ip2 (pos 0) ∷ [])
                (new_user user ip1 (pos 0)) twice in
            ground (arith, has_name-append user us (new_user user ip2 (pos 0)), str_eq_self user),
      )
