-- ===== src/Logic/Users/Print.antt =====
-- The users file is read back as it was written.
use trabajos_sistemas_distri.Base.{
  ℕ, ◌<◌, Bool, false, List, [], ◌∷◌, ◌++◌, ◌≡◌, refl, ◌≢◌, Bytes, str_eq, IsInt, length, All,
  All-append, All-map, any, arith, append_assoc, length-append,
}
use trabajos_sistemas_distri.Stdio.Decimal.{is_space, is_digit, print_int}
use trabajos_sistemas_distri.Stdio.Decimal.RoundTrip.{length-print_int-le, All-print_int}
use trabajos_sistemas_distri.Stdio.Run.{done}
use trabajos_sistemas_distri.Stdio.Scan.{got, stopped, records, search_records}
use trabajos_sistemas_distri.Stdio.Scan.Laws.{
  IsWord, scan_word-append, scan_word-space, scan_word-newline, scan_word-nil,
  scan_number-print_int, print_all, records-print_all, search_records-print_all, take_fgets-line,
}
use trabajos_sistemas_distri.Logic.Users.{max_str, User, print_user, scan_user, scan_name}

pub record IsUser (u : User) : Type 0 where
  pub name : IsWord max_str u.name
  pub ip : IsWord 32 u.ip
  pub port : IsInt u.port
  pub connected : IsInt u.connected

print_user-append :
    (u : User) (rest : Bytes)
    → print_user u ++ rest
      ≡ u.name
        ++ 32 ∷ (u.ip ++ 32 ∷ (print_int u.port ++ 32 ∷ (print_int u.connected ++ 10 ∷ rest)))
unfolding print_user
print_user-append u rest = simp append_assoc

pub scan_user-print_user :
    (u : User) (rest : Bytes) → IsUser u → scan_user (print_user u ++ rest) ≡ got u (10 ∷ rest)
unfolding scan_user is_space is_digit
scan_user-print_user u rest v = rw (
  print_user-append u rest,
  scan_word-append _ v.name refl,
  scan_word-space,
  scan_word-append _ v.ip refl,
  scan_number-print_int u.port _ v.port refl,
  scan_number-print_int u.connected _ v.connected refl,
)

pub scan_user-newline : (s : Bytes) → scan_user (10 ∷ s) ≡ scan_user s
unfolding scan_user
scan_user-newline s = rw (scan_word-newline max_str s)

pub scan_user-nil : scan_user [] ≡ stopped
unfolding scan_user
scan_user-nil = rw (scan_word-nil max_str)

pub length-print_user-pos : (u : User) → 0 < length (print_user u)
unfolding print_user
length-print_user-pos u = omega (
  arith,
  length-append u.name
      (32 ∷ (u.ip ++ 32 ∷ (print_int u.port ++ 32 ∷ (print_int u.connected ++ 10 ∷ [])))),
)

-- The lines of well-formed users are read back, by the loops that scan the users file, as those
-- users.
pub records-print_users :
    (us : List User) → All IsUser us → records scan_user (print_all print_user us) ≡ done us
records-print_users =
    records-print_all scan_user IsUser print_user scan_user-print_user scan_user-newline
      scan_user-nil length-print_user-pos

not_newline : (c : ℕ) → is_space c ≡ false → c ≢ 10
unfolding is_space
not_newline c h = ground arith

-- What `fgets` skips behind the name: shorter than its buffer.
rest_of_line : User → Bytes
rest_of_line u = 32 ∷ (u.ip ++ 32 ∷ (print_int u.port ++ 32 ∷ print_int u.connected))

rest_of_line-append :
    (u : User) (rest : Bytes)
    → rest_of_line u ++ 10 ∷ rest
      ≡ 32 ∷ (u.ip ++ 32 ∷ (print_int u.port ++ 32 ∷ (print_int u.connected ++ 10 ∷ rest)))
unfolding rest_of_line
rest_of_line-append u rest = simp append_assoc

All-rest_of_line : (u : User) → IsUser u → All (λ c. c ≢ 10) (rest_of_line u)
unfolding rest_of_line
All-rest_of_line u v = (
  omega arith,
  All-append _ u.ip _ (All-map not_newline u.ip v.ip.no_space) (
    omega arith,
    All-append _ (print_int u.port) _ (All-print_int u.port)
        (omega arith, All-print_int u.connected),
  ),
)

length-rest_of_line : (u : User) → IsUser u → length (rest_of_line u) < 255
unfolding rest_of_line
length-rest_of_line u v = omega (
  arith,
  length-append u.ip (32 ∷ (print_int u.port ++ 32 ∷ print_int u.connected)),
  length-append (print_int u.port) (32 ∷ print_int u.connected),
  length-print_int-le u.port v.port,
  length-print_int-le u.connected v.connected,
  v.ip.fits,
)

scan_name-print_user :
    (u : User) (rest : Bytes) → IsUser u → scan_name (print_user u ++ rest) ≡ got u.name rest
unfolding scan_name is_space
scan_name-print_user u rest v = rw (
  print_user-append u rest,
  scan_word-append _ v.name refl,
  ← rest_of_line-append u rest,
  take_fgets-line 255 (rest_of_line u) rest (All-rest_of_line u v) (length-rest_of_line u v),
)

-- Whether `user` is the name of one of the users.
abbrev pub has_name : Bytes → List User → Bool
has_name user us = any (λ u. str_eq u.name user) us

pub search_names-print_users :
    (user : Bytes) (us : List User)
    → All IsUser us
    → search_records scan_name (λ name. str_eq name user) (print_all print_user us)
      ≡ done (has_name user us)
search_names-print_users user us v =
    search_records-print_all scan_name IsUser print_user (λ u. u.name) (λ s. s) scan_name-print_user
      (λ s. refl) (unfold scan_name in rw (scan_word-nil max_str)) (λ name. str_eq name user)
      length-print_user-pos us v
