-- ===== src/Tests/Users.antt =====
-- The operations of logic.c at concrete users and contents.
use trabajos_sistemas_distri.Base.{
  true, false, List, [], ◌∷◌, ◌++◌, ◌≡◌, refl, none, some, codes, str_eq, pos, arith,
}
use trabajos_sistemas_distri.Stdio.Run.{done}
use trabajos_sistemas_distri.Stdio.Decimal.{is_space}
use trabajos_sistemas_distri.Stdio.Disk.{Disk, remove}
use trabajos_sistemas_distri.Stdio.Scan.Laws.{print_all}
use trabajos_sistemas_distri.Logic.Users.{
  users_file, contents_file, print_user, User, exist, register_new, register_user, unregister_user,
}
use trabajos_sistemas_distri.Logic.Users.Loops.{without}
use trabajos_sistemas_distri.Logic.Users.Registry.{Stores, rewritten}
use trabajos_sistemas_distri.Logic.Users.Rewritten.{SameBut}
use trabajos_sistemas_distri.Logic.Users.Refines.{new_user, unregister_user_lem}
use trabajos_sistemas_distri.Logic.Users.Register.{register_user_lem}
use trabajos_sistemas_distri.Logic.Users.Races.{register_user-race}
use trabajos_sistemas_distri.Logic.Users.Blanks.{broken, unregister_user-broken}
use trabajos_sistemas_distri.Tests.Data.{
  ana, luis, eva, eva_absent, IsWord-eva, home, users, disk, is_word, IsWord-ana, IsWord-home,
  valid_users, Stores-users,
}

register_user_lem_example :
    (d : Disk) × (register_user ana home (pos 0) disk ≡ done (pos 1, d))
    × Stores users d
    × (d.files (contents_file ana) ≡ disk.files (contents_file ana))
    × SameBut (users_file ∷ contents_file ana ∷ []) disk d
unfolding str_eq
register_user_lem_example =
    register_user_lem ana users disk Stores-users home (pos 0) IsWord-ana IsWord-home (omega arith)
      refl

unregister_user_lem_example :
    (d : Disk) × (unregister_user luis disk ≡ done (pos 0, d))
    × Stores (without luis users) d
    × (d.files (contents_file luis) ≡ none)
    × SameBut (users_file ∷ codes "temp.txt" ∷ contents_file luis ∷ []) disk d
unfolding str_eq
unregister_user_lem_example = unregister_user_lem luis users disk Stores-users (omega arith)

-- The disk after `a b` has registered, in front of luis.
abbrev broken_disk : Disk
broken_disk = record {
  files = λ f. some (broken users (codes "a") (codes "b") 10 (codes "0.0.1") (codes "luis"));
  readable = λ _. true;
  writable = λ _. true;
}

unregister_user-broken_example :
    unregister_user luis broken_disk
    ≡ done (
      pos 0,
      remove (contents_file luis) (rewritten (codes "temp.txt") (without luis users) broken_disk),
    )
unfolding str_eq is_space
unregister_user-broken_example =
    unregister_user-broken luis users (codes "a") (codes "b") 10 (codes "0.0.1") (codes "luis")
      broken_disk valid_users (is_word 256 (codes "a") (λ e. cc) refl (omega arith))
      (is_word 32 (codes "b") (λ e. cc) refl (omega arith)) (omega arith) refl refl refl
      (omega arith)

register_user-race_example :
    (d1 d2 : Disk) × (exist eva disk ≡ done false)
    × (register_user eva home (pos 0) disk ≡ done (pos 0, d1))
    × (register_new eva (codes "10.0.0.2") (pos 0) d1 ≡ done (pos 0, d2))
    × (d2.files users_file
        ≡ some (
            print_all print_user (
              (users ++ new_user eva home (pos 0) ∷ [])
              ++ new_user eva (codes "10.0.0.2") (pos 0) ∷ [])))
    × ((vs : List User) → Stores vs d2 → ⊥)
unfolding is_space
register_user-race_example =
    register_user-race eva users disk Stores-users eva_absent IsWord-eva refl (codes "10.0.0.2")
      home (is_word 32 (codes "10.0.0.2") (λ e. cc) refl (omega arith)) IsWord-home
