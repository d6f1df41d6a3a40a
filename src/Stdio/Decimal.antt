-- ===== src/Stdio/Decimal.antt =====
-- `%d` both ways: `sprintf`, `strtol` as `fscanf` and `atoi` use it.
pub mod RoundTrip
use trabajos_sistemas_distri.Base.{
  ℕ, zero, suc, ◌+◌, ◌-◌, ◌*◌, ◌/◌, ◌%◌, ◌^◌, min, Bool, true, false, ◌&&◌, ◌||◌, Option, none,
  some, [], ◌∷◌, ltb, leb, ◌==◌, if◌then◌else◌, Bytes, ℤ, pos, negsuc,
}

-- `isspace` in the C locale
unfoldable pub is_space : ℕ → Bool
is_space c = c == 32 || leb 9 c && leb c 13

unfoldable pub is_digit : ℕ → Bool
is_digit c = leb b'0' c && leb c b'9'

unfoldable pub skip_space : Bytes → Bytes
unfolding is_space
skip_space [] = []
skip_space (c ∷ s) = if is_space c then skip_space s else c ∷ s

-- The digits of `n` in front of `out`; one unit of fuel for each digit.
emit : ℕ → ℕ → Bytes → Bytes
emit zero n out = out
emit (suc f) n out =
    let d = b'0' + n % 10 in
    let rest = emit f (n / 10) (d ∷ out) in if ltb n 10 then d ∷ out else rest

unfoldable pub decimal : ℕ → Bytes
unfolding emit
decimal n = emit (suc n) n []

-- `sprintf ("%d")`
unfoldable pub print_int : ℤ → Bytes
unfolding decimal
print_int (pos n) = decimal n
print_int (negsuc n) = b'-' ∷ decimal (n + 1)

unfoldable pub scan_digits : ℕ → Bytes → ℕ × Bytes
unfolding is_digit
scan_digits acc [] = (acc, [])
scan_digits acc (c ∷ s) = if is_digit c then scan_digits (acc * 10 + (c - b'0')) s else (acc, c ∷ s)

-- The bit pattern `u` as a signed 32-bit integer.
unfoldable pub of_bits : ℕ → ℤ
of_bits u = if ltb u (2 ^ 31) then pos u else negsuc (2 ^ 32 - 1 - u)

-- `strtol` saturates at the ends of `long`, and the store into an `int` keeps the low 32 bits.
unfoldable pub to_int : Bool → ℕ → ℤ
unfolding of_bits
to_int false n = of_bits (min n (2 ^ 63 - 1) % 2 ^ 32)
to_int true n = of_bits ((2 ^ 32 - min n (2 ^ 63) % 2 ^ 32) % 2 ^ 32)

unfoldable pub scan_magnitude : Bool → Bytes → Option (ℤ × Bytes)
unfolding scan_digits to_int
scan_magnitude neg [] = none
scan_magnitude neg (c ∷ s) =
    if is_digit c
    then (let (n, rest) = scan_digits 0 (c ∷ s) in some (to_int neg n, rest))
    else none

unfoldable pub scan_sign : Bytes → Option (ℤ × Bytes)
unfolding scan_magnitude
scan_sign [] = none
scan_sign (c ∷ s) =
    if c == b'-'
    then scan_magnitude true s
    else if c == b'+'
    then scan_magnitude false s
    else scan_magnitude false (c ∷ s)

-- `%d` of `fscanf`; `none` is a matching failure.
unfoldable pub scan_int : Bytes → Option (ℤ × Bytes)
unfolding scan_sign skip_space
scan_int s = scan_sign (skip_space s)

abbrev value_or_zero : Option (ℤ × Bytes) → ℤ
value_or_zero none = pos 0
value_or_zero (some (z, rest)) = z

unfoldable pub atoi : Bytes → ℤ
unfolding scan_int
atoi s = value_or_zero (scan_int s)
