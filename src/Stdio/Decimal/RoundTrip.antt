-- ===== src/Stdio/Decimal/RoundTrip.antt =====
-- What `print_int` writes, `scan_int` reads back; and how long it is.
use trabajos_sistemas_distri.Base.{
  Bool-cases, inl, inr, ℕ, zero, suc, ◌+◌, ◌*◌, ◌/◌, ◌%◌, ◌^◌, ◌≤◌, ◌<◌, Bool, true, false, some,
  [], ◌∷◌, ◌++◌, ◌≡◌, refl, ◌≢◌, ltb, Bytes, ℤ, pos, negsuc, IsInt, arith, length, All, codes,
}
use trabajos_sistemas_distri.Stdio.Decimal.{
  is_space, is_digit, skip_space, emit, decimal, print_int, scan_digits, to_int, scan_magnitude,
  scan_int,
}

-- What follows a number does not go on with a digit.
abbrev pub Stops : Bytes → Type 0
Stops [] = Unit
Stops (c ∷ _) = is_digit c ≡ false

test_scan : scan_int (codes "  -42 x") ≡ some (negsuc 41, codes " x")
unfolding scan_int
test_scan = refl

scan_digits-emit :
    (f n : ℕ) (out : Bytes) → n < f → scan_digits 0 (emit f n out) ≡ scan_digits n out
unfolding emit scan_digits
scan_digits-emit zero n out h = elim h [ ]
scan_digits-emit (suc f) n out h =
    ground (arith, scan_digits-emit f (n / 10) ((b'0' + n % 10) ∷ out))

emit-append : (f n : ℕ) (out rest : Bytes) → emit f n out ++ rest ≡ emit f n (out ++ rest)
unfolding emit
emit-append zero n out rest = refl
emit-append (suc f) n out rest = ground (arith, emit-append f (n / 10) ((b'0' + n % 10) ∷ out) rest)

abbrev StartsDigit : Bytes → Type 0
StartsDigit [] = ⊥
StartsDigit (c ∷ _) = is_digit c ≡ true

digit-is_digit : (n : ℕ) → is_digit (b'0' + n % 10) ≡ true
unfolding is_digit
digit-is_digit n = ground arith

emit-StartsDigit : (f n : ℕ) (out : Bytes) → StartsDigit out → StartsDigit (emit f n out)
unfolding emit
emit-StartsDigit zero n out h = h
emit-StartsDigit (suc f) n out h = elim (Bool-cases (ltb n 10)) [
  | inl e ↦ rw e (digit-is_digit n)
  | inr e ↦ rw e (emit-StartsDigit f (n / 10) _ (digit-is_digit n))
]

decimal-StartsDigit : (n : ℕ) → StartsDigit (decimal n)
unfolding decimal emit
decimal-StartsDigit n = elim (Bool-cases (ltb n 10)) [
  | inl e ↦ rw e (digit-is_digit n)
  | inr e ↦ rw e (emit-StartsDigit n (n / 10) _ (digit-is_digit n))
]

scan_digits_stop : (n : ℕ) (rest : Bytes) → Stops rest → scan_digits n rest ≡ (n, rest)
unfolding scan_digits
scan_digits_stop n [] h = refl
scan_digits_stop n (c ∷ rest) h = ground arith

pub scan_digits-decimal :
    (n : ℕ) (rest : Bytes) → Stops rest → scan_digits 0 (decimal n ++ rest) ≡ (n, rest)
unfolding decimal
scan_digits-decimal n rest h =
    rw (emit-append (suc n) n [] rest, scan_digits-emit (suc n) n rest (omega arith))
      (scan_digits_stop n rest h)

to_int-pos : (n : ℕ) → n < 2 ^ 31 → to_int false n ≡ pos n
unfolding to_int
to_int-pos n h = ground arith

to_int-neg : (n : ℕ) → n < 2 ^ 31 → to_int true (n + 1) ≡ negsuc n
unfolding to_int
to_int-neg n h = ground arith

scan_magnitude-StartsDigit :
    (neg : Bool) (s rest : Bytes)
    → StartsDigit s
    → scan_magnitude neg (s ++ rest)
      ≡ (let (n, r) = scan_digits 0 (s ++ rest) in some (to_int neg n, r))
unfolding scan_magnitude
scan_magnitude-StartsDigit neg [] rest h = absurd h
scan_magnitude-StartsDigit neg (c ∷ s) rest h = rw h

scan_magnitude-decimal :
    (neg : Bool) (n : ℕ) (rest : Bytes)
    → Stops rest
    → scan_magnitude neg (decimal n ++ rest) ≡ some (to_int neg n, rest)
scan_magnitude-decimal neg n rest h = rw (
  scan_magnitude-StartsDigit neg (decimal n) rest (decimal-StartsDigit n),
  scan_digits-decimal n rest h,
)

scan_int-StartsDigit :
    (s rest : Bytes) → StartsDigit s → scan_int (s ++ rest) ≡ scan_magnitude false (s ++ rest)
unfolding scan_int is_digit is_space
scan_int-StartsDigit [] rest h = absurd h
scan_int-StartsDigit (c ∷ s) rest h = ground arith

skip_space-StartsDigit : (s rest : Bytes) → StartsDigit s → skip_space (s ++ rest) ≡ s ++ rest
unfolding skip_space is_space is_digit
skip_space-StartsDigit [] rest h = absurd h
skip_space-StartsDigit (c ∷ s) rest h = ground arith

scan_int-minus : (s : Bytes) → scan_int (b'-' ∷ s) ≡ scan_magnitude true s
unfolding scan_int
scan_int-minus s = refl

-- Printing an `int` and scanning it gives it back, and leaves what follows.
pub scan_int-print_int :
    (z : ℤ) (rest : Bytes) → IsInt z → Stops rest → scan_int (print_int z ++ rest) ≡ some (z, rest)
unfolding print_int
scan_int-print_int (pos n) rest h k = rw (
  scan_int-StartsDigit (decimal n) rest (decimal-StartsDigit n),
  scan_magnitude-decimal false n rest k,
  to_int-pos n h,
)
scan_int-print_int (negsuc n) rest h k = rw (
  scan_int-minus (decimal (n + 1) ++ rest),
  scan_magnitude-decimal true (n + 1) rest k,
  to_int-neg n h,
)

-- A space in front of a number is skipped.
pub scan_int-space : (s : Bytes) → scan_int (32 ∷ s) ≡ scan_int s
unfolding scan_int is_space
scan_int-space s = refl

pow10 : ℕ → ℕ
pow10 zero = 1
pow10 (suc k) = 10 * pow10 k

length-emit-le :
    (k f n : ℕ) (out : Bytes) → n < pow10 (suc k) → length (emit f n out) ≤ suc k + length out
unfolding emit pow10
length-emit-le k zero n out h = omega arith
length-emit-le zero (suc f) n out h = ground arith
length-emit-le (suc k) (suc f) n out h =
    ground (arith, length-emit-le k f (n / 10) ((b'0' + n % 10) ∷ out))

-- An `int` is printed in eleven characters at most.
pub length-print_int-le : (z : ℤ) → IsInt z → length (print_int z) ≤ 11
unfolding print_int decimal pow10
length-print_int-le (pos n) h = omega (arith, length-emit-le 9 (suc n) n [] (omega arith))
length-print_int-le (negsuc n) h =
    omega (arith, length-emit-le 9 (suc (n + 1)) (n + 1) [] (omega arith))

All-emit :
    (P : ℕ → Type 0)
    → ((n : ℕ) → P (b'0' + n % 10))
    → (f n : ℕ) (out : Bytes) → All P out
    → All P (emit f n out)
unfolding emit
All-emit P d zero n out h = h
All-emit P d (suc f) n out h = elim (Bool-cases (ltb n 10)) [
  | inl e ↦ rw e (d n, h)
  | inr e ↦ rw e (All-emit P d f (n / 10) _ (d n, h))
]

-- A printed number holds no line end.
pub All-print_int : (z : ℤ) → All (λ c. c ≢ 10) (print_int z)
unfolding print_int decimal
All-print_int (pos n) = All-emit (λ c. c ≢ 10) (λ k. omega arith) (suc n) n [] tt
All-print_int (negsuc n) =
    (omega arith, All-emit (λ c. c ≢ 10) (λ k. omega arith) (suc (n + 1)) (n + 1) [] tt)

pub All-print_int-nul : (z : ℤ) → All (λ c. (c ≢ 10) × (c ≢ 0)) (print_int z)
unfolding print_int decimal
All-print_int-nul (pos n) = All-emit (λ c. (c ≢ 10) × (c ≢ 0)) (λ k. omega arith) (suc n) n [] tt
All-print_int-nul (negsuc n) =
    (omega arith, All-emit (λ c. (c ≢ 10) × (c ≢ 0)) (λ k. omega arith) (suc (n + 1)) (n + 1) [] tt)

-- A printed number does not begin with white space.
pub skip_space-print_int :
    (z : ℤ) (rest : Bytes) → skip_space (print_int z ++ rest) ≡ print_int z ++ rest
unfolding print_int
skip_space-print_int (pos n) rest = skip_space-StartsDigit (decimal n) rest (decimal-StartsDigit n)
skip_space-print_int (negsuc n) rest = unfold skip_space is_space in refl
