-- ===== src/Sock/Texts.antt =====
-- Texts over a connection: what one side sends, the other reads whole.
use trabajos_sistemas_distri.Base.{
  ℕ, zero, suc, ◌-◌, ◌≤◌, ◌<◌, Bool, true, false, Option, none, [], ◌∷◌, ◌++◌, ◌≡◌, refl, lt→ltb,
  if◌then◌else◌, Bytes, codes, ℤ, pos, minus_one, IsInt, length, map, take, arith, append-nil,
}
use trabajos_sistemas_distri.Stdio.Run.{Run, done, ◌>>=◌}
use trabajos_sistemas_distri.Stdio.Decimal.{print_int, atoi, is_digit}
use trabajos_sistemas_distri.Stdio.Decimal.RoundTrip.{
  scan_int-print_int, All-print_int-nul, length-print_int-le,
}
use trabajos_sistemas_distri.Stdio.Disk.{Disk}
use trabajos_sistemas_distri.Sockets.{byte, buffer_after}
use trabajos_sistemas_distri.Sockets.Reading.{IsLine, read_line-line}
use trabajos_sistemas_distri.Claves.Floats.{Floats}
use trabajos_sistemas_distri.Claves.Tuples.{max_str, Tuple}
use trabajos_sistemas_distri.Sock.Fields.{read_into, printed}
use trabajos_sistemas_distri.Sock.Server.{reply, operation, tratar_peticion}
use trabajos_sistemas_distri.Sock.Proxy.{read_result, Peer}

pub map-append : (s t : Bytes) → map byte (s ++ t) ≡ map byte s ++ map byte t
map-append [] t = refl
map-append (c ∷ s) t = rw (map-append s t) refl

pub take-all : (n : ℕ) (s : Bytes) → length s ≤ n → take n s ≡ s
take-all zero [] h = refl
take-all zero (c ∷ s) h = absurd (omega arith)
take-all (suc n) [] h = refl
take-all (suc n) (c ∷ s) h = rw (take-all n s (omega arith)) refl

-- A text that has been sent with its NUL is read whole.
pub read_into-text :
    (n : ℕ) (old : Option Bytes) (s rest : Bytes)
    → IsLine s
    → length s < n
    → read_into n old (map byte (s ++ 0 ∷ rest)) ≡ done (s, map byte rest)
unfolding read_into buffer_after
read_into-text n old s rest v h =
    rw
      (
        map-append s (0 ∷ rest),
        read_line-line n s 0 (map byte rest) v refl (omega arith),
        take-all (n - 1) s (omega arith),
      )
      refl

pub atoi-print_int : (z : ℤ) → IsInt z → atoi (print_int z) ≡ z
unfolding atoi
atoi-print_int z h = rw (← append-nil (print_int z), scan_int-print_int z [] h tt) refl

pub length-print_int : (z : ℤ) → IsInt z → length (print_int z) < max_str
length-print_int z h = omega (arith, length-print_int-le z h)

pub printed-print_int : (z : ℤ) → IsInt z → printed (print_int z) ≡ done (print_int z ++ 0 ∷ [])
unfolding printed
printed-print_int z h = rw (lt→ltb _ _ (length-print_int z h)) refl

pub read_into-int :
    (old : Option Bytes) (z : ℤ) (rest : Bytes)
    → IsInt z
    → read_into max_str old (map byte (print_int z ++ 0 ∷ rest)) ≡ done (print_int z, map byte rest)
read_into-int old z rest h =
    read_into-text max_str old (print_int z) rest (All-print_int-nul z) (length-print_int z h)

pub read_result-print_int :
    (z : ℤ) → IsInt z → read_result (map byte (print_int z ++ 0 ∷ [])) ≡ done z
unfolding read_result
read_result-print_int z h = rw (read_into-int none z [] h, atoi-print_int z h) refl

pub atoi_set : atoi (codes "2") ≡ pos 2
unfolding atoi is_digit
atoi_set = refl

pub atoi_modify : atoi (codes "4") ≡ pos 4
unfolding atoi is_digit
atoi_modify = refl

pub atoi_delete : atoi (codes "5") ≡ pos 5
unfolding atoi is_digit
atoi_delete = refl

pub atoi_exist : atoi (codes "6") ≡ pos 6
unfolding atoi is_digit
atoi_exist = refl

pub IsInt-if : (b : Bool) → IsInt (if b then pos 1 else pos 0)
IsInt-if true = omega arith
IsInt-if false = omega arith

pub IsInt-code : (b : Bool) → IsInt (if b then pos 0 else minus_one)
IsInt-code true = omega arith
IsInt-code false = omega arith

pub IsInt-refused : (b : Bool) → IsInt (if b then minus_one else pos 0)
IsInt-refused true = omega arith
IsInt-refused false = omega arith

module _ (fl : Floats) where
  open fl use {Float}

  pub reply_lem :
      (m : Run (ℤ × Disk)) (z : ℤ) (d : Disk)
      → IsInt z
      → m ≡ done (z, d)
      → reply fl m ≡ done (print_int z ++ 0 ∷ [], d)
  unfolding reply
  reply_lem m z d h e = rw (e, printed-print_int z h) refl

  -- The number of the operation is read first.
  pub tratar_peticion-operation :
      (vars : Tuple Float) (op rest : Bytes) (d : Disk)
      → IsLine op
      → length op < 2
      → tratar_peticion fl vars (map byte (op ++ 0 ∷ rest)) d
        ≡ operation fl vars (atoi op) op (map byte rest) d
  unfolding tratar_peticion
  tratar_peticion-operation vars op rest d v h = rw (read_into-text 2 none op rest v h) refl

  -- The other side of the connection is the server, on this disk.
  abbrev pub store_server : Tuple Float → Peer Disk
  store_server vars req d =
      tratar_peticion fl vars (map byte req) d >>= λ (s, d'). done (map byte s, d')
