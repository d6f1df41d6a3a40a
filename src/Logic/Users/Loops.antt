-- ===== src/Logic/Users/Loops.antt =====
-- What the loops over the users write and find, as functions of the list of users.
use trabajos_sistemas_distri.Base.{
  Bool, List, [], ◌∷◌, ◌++◌, ◌≡◌, refl, ◌||◌, ◌&&◌, if◌then◌else◌, Bytes, codes, str_eq, ℤ, pos,
  int_eq, int_eq_iff, map, any, arith, append_assoc, append-nil, Bool-cases, inl, inr,
}
use trabajos_sistemas_distri.Stdio.Scan.Laws.{print_all}
use trabajos_sistemas_distri.Stdio.Decimal.{print_int}
use trabajos_sistemas_distri.Logic.Users.{
  User, Search, user_line, print_user, update_loop, unregister_loop, flag_loop,
}
use trabajos_sistemas_distri.Logic.Users.Print.{has_name}

-- The users without those of one name.
unfoldable pub without : Bytes → List User → List User
without user [] = []
without user (u ∷ us) = let rest = without user us in if str_eq u.name user then rest else u ∷ rest

-- A user of that name gets the address, and counts as connected.
unfoldable pub at_address : Bytes → Bytes → ℤ → User → User
at_address user ip port u =
    if str_eq u.name user
    then record { name = u.name; ip = ip; port = port; connected = pos 1 }
    else u

unfoldable pub with_flag : ℤ → Bytes → User → User
with_flag flag user u = if str_eq u.name user then record u { connected = flag } else u

-- Whether a user of that name has the flag.
abbrev pub has_flag : ℤ → Bytes → List User → Bool
has_flag flag user us = any (λ u. str_eq u.name user && int_eq u.connected flag) us

pub unregister_loop_lem :
    (user : Bytes) (us : List User) (temp : Bytes) (found : Bool)
    → unregister_loop user us temp found
      ≡ (temp ++ print_all print_user (without user us), found || has_name user us)
unfolding unregister_loop without
unregister_loop_lem user [] temp found = ground (arith, append-nil temp)
unregister_loop_lem user (u ∷ us) temp found = elim (Bool-cases (str_eq u.name user)) [
  | inl e ↦ rw (e, unregister_loop_lem user us) (ground arith)
  | inr e ↦ rw (e, unregister_loop_lem user us, append_assoc) refl
]

print_connected :
    (name ip : Bytes) (port : ℤ)
    → user_line name ip port (codes "1")
      ≡ print_user (record { name = name; ip = ip; port = port; connected = pos 1 })
unfolding print_user print_int
print_connected name ip port = refl

pub update_loop_lem :
    (user ip : Bytes) (port : ℤ) (us : List User) (temp : Bytes) (found : Bool)
    → update_loop user ip port us temp found
      ≡ (temp ++ print_all print_user (map (at_address user ip port) us), found || has_name user us)
unfolding update_loop at_address
update_loop_lem user ip port [] temp found = ground (arith, append-nil temp)
update_loop_lem user ip port (u ∷ us) temp found = elim (Bool-cases (str_eq u.name user)) [
  | inl e ↦ rw (e, update_loop_lem user ip port us, append_assoc, print_connected) (ground arith)
  | inr e ↦ rw (e, update_loop_lem user ip port us, append_assoc) refl
]

-- Setting a flag that is set already changes nothing.
set_again :
    (flag : ℤ) (u : User)
    → (if int_eq u.connected flag then u else record u { connected = flag })
      ≡ record u { connected = flag }
set_again flag u = ground (arith, int_eq_iff u.connected flag)

or_assoc : (a b c : Bool) → ((a || b) || c) ≡ (a || (b || c))
or_assoc a b c = ground arith

pub flag_loop_lem :
    (flag : ℤ) (user : Bytes) (us : List User) (temp : Bytes) (q : Search)
    → flag_loop flag user us temp q ≡ (
      temp ++ print_all print_user (map (with_flag flag user) us),
      record { found = q.found || has_name user us; already = q.already || has_flag flag user us },
    )
unfolding flag_loop with_flag
flag_loop_lem flag user [] temp q = ground (arith, append-nil temp)
flag_loop_lem flag user (u ∷ us) temp q = elim (Bool-cases (str_eq u.name user)) [
  | inl e ↦
      rw (e, set_again flag u, flag_loop_lem flag user us, append_assoc, or_assoc) (ground arith)
  | inr e ↦ rw (e, flag_loop_lem flag user us, append_assoc) refl
]
