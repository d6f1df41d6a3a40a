-- ===== src/Logic/Users/Lists.antt =====
-- The operations on the list of users keep it well formed and its names different.
use trabajos_sistemas_distri.Base.{
  ◌<◌, true, false, List, [], ◌∷◌, ◌++◌, ◌≡◌, refl, ◌||◌, Bytes, codes, str_eq, str_eq_iff, ℤ,
  int_eq_iff, map, IsInt, length, length-append, All, arith, Bool-cases, inl, inr,
}
use trabajos_sistemas_distri.Stdio.Scan.Laws.{IsWord}
use trabajos_sistemas_distri.Logic.Users.{max_str, User, contents_file}
use trabajos_sistemas_distri.Logic.Users.Print.{IsUser, has_name}
use trabajos_sistemas_distri.Logic.Users.Loops.{without, at_address, with_flag, has_flag}
use trabajos_sistemas_distri.Logic.Users.Registry.{DistinctNames}

pub length-contents_file :
    (user : Bytes) → length user < max_str → length (contents_file user) < 320
unfolding contents_file
length-contents_file user h = omega (arith, length-append user (codes ".txt"))

pub All-without : (user : Bytes) (us : List User) → All IsUser us → All IsUser (without user us)
unfolding without
All-without user [] v = tt
All-without user (u ∷ us) (vu, v) = elim (Bool-cases (str_eq u.name user)) [
  | inl e ↦ rw e (All-without user us v)
  | inr e ↦ rw e (vu, All-without user us v)
]

pub has_name-without :
    (name user : Bytes) (us : List User)
    → has_name name us ≡ false
    → has_name name (without user us) ≡ false
unfolding without
has_name-without name user [] h = refl
has_name-without name user (u ∷ us) h = ground (arith, has_name-without name user us)

-- An unregistered name is no longer there.
pub has_name-without_self :
    (user : Bytes) (us : List User) → has_name user (without user us) ≡ false
unfolding without
has_name-without_self user [] = refl
has_name-without_self user (u ∷ us) = ground (arith, has_name-without_self user us)

pub DistinctNames-without :
    (user : Bytes) (us : List User) → DistinctNames us → DistinctNames (without user us)
unfolding without
DistinctNames-without user [] h = tt
DistinctNames-without user (u ∷ us) (hu, h) = elim (Bool-cases (str_eq u.name user)) [
  | inl e ↦ rw e (DistinctNames-without user us h)
  | inr e ↦ rw e (has_name-without u.name user us hu, DistinctNames-without user us h)
]

-- A map that keeps every name keeps the names different.
module _ (f : User → User) (keeps : (u : User) → (f u).name ≡ u.name) where
  pub has_name-map : (name : Bytes) (us : List User) → has_name name (map f us) ≡ has_name name us
  has_name-map name [] = refl
  has_name-map name (u ∷ us) = rw (keeps u, has_name-map name us)

  pub DistinctNames-map : (us : List User) → DistinctNames us → DistinctNames (map f us)
  DistinctNames-map [] h = tt
  DistinctNames-map (u ∷ us) (hu, h) =
      (rw (keeps u, has_name-map u.name us) hu, DistinctNames-map us h)

pub name-at_address :
    (user ip : Bytes) (port : ℤ) (u : User) → (at_address user ip port u).name ≡ u.name
unfolding at_address
name-at_address user ip port u = ground arith

pub name-with_flag : (flag : ℤ) (user : Bytes) (u : User) → (with_flag flag user u).name ≡ u.name
unfolding with_flag
name-with_flag flag user u = ground arith

pub All-at_address :
    (user ip : Bytes) (port : ℤ)
    → IsWord 32 ip
    → IsInt port
    → (us : List User) → All IsUser us
    → All IsUser (map (at_address user ip port) us)
unfolding at_address
All-at_address user ip port hi hp [] v = tt
All-at_address user ip port hi hp (u ∷ us) (vu, v) = elim (Bool-cases (str_eq u.name user)) [
  | inl e ↦ rw e (
    record { name = vu.name; ip = hi; port = hp; connected = omega arith },
    All-at_address user ip port hi hp us v,
  )
  | inr e ↦ rw e (vu, All-at_address user ip port hi hp us v)
]

pub All-with_flag :
    (flag : ℤ) (user : Bytes)
    → IsInt flag
    → (us : List User) → All IsUser us
    → All IsUser (map (with_flag flag user) us)
unfolding with_flag
All-with_flag flag user hf [] v = tt
All-with_flag flag user hf (u ∷ us) (vu, v) = elim (Bool-cases (str_eq u.name user)) [
  | inl e ↦ rw e (
    record { name = vu.name; ip = vu.ip; port = vu.port; connected = hf },
    All-with_flag flag user hf us v,
  )
  | inr e ↦ rw e (vu, All-with_flag flag user hf us v)
]

pub map-with_flag_absent :
    (flag : ℤ) (user : Bytes) (us : List User)
    → has_name user us ≡ false
    → map (with_flag flag user) us ≡ us
unfolding with_flag
map-with_flag_absent flag user [] h = refl
map-with_flag_absent flag user (u ∷ us) h = ground (arith, map-with_flag_absent flag user us)

str_eq_sym : (a b : Bytes) → str_eq a b ≡ false → str_eq b a ≡ false
str_eq_sym a b h = ground (arith, str_eq_iff a b, str_eq_iff b a)

pub has_name-append :
    (name : Bytes) (us : List User) (u : User)
    → has_name name (us ++ u ∷ []) ≡ (has_name name us || str_eq u.name name)
has_name-append name [] u = ground arith
has_name-append name (v ∷ us) u = ground (arith, has_name-append name us u)

pub DistinctNames-append :
    (us : List User) (u : User)
    → DistinctNames us
    → has_name u.name us ≡ false
    → DistinctNames (us ++ u ∷ [])
DistinctNames-append [] u h k = (refl, tt)
DistinctNames-append (v ∷ us) u (hv, h) k = (
  ground (arith, has_name-append v.name us u, str_eq_sym v.name u.name),
  DistinctNames-append us u h (ground arith),
)

same_name :
    (user : Bytes) (us : List User) (u : User)
    → has_name u.name us ≡ false
    → str_eq u.name user ≡ true
    → has_name user us ≡ false
same_name user us u h e = rw ((str_eq_iff u.name user).0 e) at h

no_flag :
    (flag : ℤ) (user : Bytes) (us : List User)
    → has_name user us ≡ false
    → has_flag flag user us ≡ false
no_flag flag user [] h = refl
no_flag flag user (u ∷ us) h = ground (arith, no_flag flag user us)

-- Setting a flag that is set already changes nothing, since names are different.
pub map-with_flag_again :
    (flag : ℤ) (user : Bytes) (us : List User)
    → DistinctNames us
    → has_flag flag user us ≡ true
    → map (with_flag flag user) us ≡ us
unfolding with_flag
map-with_flag_again flag user [] n h = refl
map-with_flag_again flag user (u ∷ us) (nu, n) h = elim (Bool-cases (str_eq u.name user)) [
  | inl e ↦
      rw (e, map-with_flag_absent flag user us (same_name user us u nu e))
        (ground
          (arith, int_eq_iff u.connected flag, no_flag flag user us (same_name user us u nu e)))
  | inr e ↦ rw (e, map-with_flag_again flag user us n (ground arith)) refl
]

-- Setting the address sets the flag, whatever it was.
pub map-at_address-with_flag :
    (user ip : Bytes) (port flag : ℤ) (us : List User)
    → map (at_address user ip port) (map (with_flag flag user) us)
      ≡ map (at_address user ip port) us
unfolding at_address with_flag
map-at_address-with_flag user ip port flag [] = refl
map-at_address-with_flag user ip port flag (u ∷ us) =
    ground (arith, map-at_address-with_flag user ip port flag us)
