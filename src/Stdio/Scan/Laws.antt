-- ===== src/Stdio/Scan/Laws.antt =====
-- What the conversions make of well-formed text. Loops has the loops over a whole file.
pub mod Loops
pub use trabajos_sistemas_distri.Stdio.Scan.Laws.Loops.{
  print_all, length-le-print_all, records-print_all_then, records-print_all,
  search_records-print_all,
}
use trabajos_sistemas_distri.Base.{
  ℕ, zero, suc, ◌<◌, true, false, [], ◌∷◌, ◌++◌, ◌≡◌, refl, ◌≢◌, Bytes, ℤ, IsInt, length, All,
  arith,
}
use trabajos_sistemas_distri.Stdio.Decimal.{is_space, skip_space, scan_int, print_int}
use trabajos_sistemas_distri.Stdio.Decimal.RoundTrip.{Stops, scan_int-print_int}
use trabajos_sistemas_distri.Stdio.Scan.{
  got, stopped, take_word, take_line, store, scan_word, scan_line, scan_number, take_fgets,
}

-- A text that `%s` reads whole, into an array of `cap` bytes.
pub record IsWord (cap : ℕ) (w : Bytes) : Type 0 where
  pub ne_nil : w ≢ []
  pub no_space : All (λ c. is_space c ≡ false) w
  pub fits : length w < cap

-- White space or the end of the file.
abbrev pub EndsWord : Bytes → Type 0
EndsWord [] = Unit
EndsWord (c ∷ _) = is_space c ≡ true

abbrev pub StartsText : Bytes → Type 0
StartsText [] = ⊥
StartsText (c ∷ _) = is_space c ≡ false

take_word-append :
    (w rest : Bytes)
    → All (λ c. is_space c ≡ false) w
    → EndsWord rest
    → take_word (w ++ rest) ≡ (w, rest)
unfolding take_word
take_word-append [] [] h k = refl
take_word-append [] (c ∷ rest) h k = rw k
take_word-append (c ∷ w) rest (hc, h) k = rw (hc, take_word-append w rest h k)

skip_space-word :
    (w rest : Bytes) → w ≢ [] → All (λ c. is_space c ≡ false) w → skip_space (w ++ rest) ≡ w ++ rest
unfolding skip_space
skip_space-word [] rest h k = absurd (h refl)
skip_space-word (c ∷ w) rest h (hc, k) = rw hc

store-fits : (cap : ℕ) (w rest : Bytes) → w ≢ [] → length w < cap → store cap (w, rest) ≡ got w rest
unfolding store
store-fits cap [] rest h k = absurd (h refl)
store-fits cap (c ∷ w) rest h k = ground arith

pub scan_word-append :
    {cap : ℕ} {w : Bytes} (rest : Bytes)
    → IsWord cap w
    → EndsWord rest
    → scan_word cap (w ++ rest) ≡ got w rest
unfolding scan_word
scan_word-append {cap} {w} rest v k =
    rw (skip_space-word w rest v.ne_nil v.no_space, take_word-append w rest v.no_space k)
      (store-fits cap w rest v.ne_nil v.fits)

pub scan_word-space : (cap : ℕ) (s : Bytes) → scan_word cap (32 ∷ s) ≡ scan_word cap s
unfolding scan_word skip_space is_space
scan_word-space cap s = refl

pub scan_word-newline : (cap : ℕ) (s : Bytes) → scan_word cap (10 ∷ s) ≡ scan_word cap s
unfolding scan_word skip_space is_space
scan_word-newline cap s = refl

pub scan_word-nil : (cap : ℕ) → scan_word cap [] ≡ stopped
unfolding scan_word
scan_word-nil cap = refl

pub scan_number-print_int :
    (z : ℤ) (rest : Bytes)
    → IsInt z
    → Stops rest
    → scan_number (32 ∷ (print_int z ++ rest)) ≡ got z rest
unfolding scan_number scan_int skip_space is_space
scan_number-print_int z rest h k = rw (scan_int-print_int z rest h k)

-- A text that ` %[^\n]` reads whole behind a blank, into an array of `cap` bytes.
pub record IsText (cap : ℕ) (w : Bytes) : Type 0 where
  pub starts : StartsText w
  pub no_newline : All (λ c. c ≢ 10) w
  pub fits : length w < cap

pub take_line-append :
    (w rest : Bytes) → All (λ c. c ≢ 10) w → take_line (w ++ 10 ∷ rest) ≡ (w, 10 ∷ rest)
unfolding take_line
take_line-append [] rest h = refl
take_line-append (c ∷ w) rest (hc, h) = rw (take_line-append w rest h) (ground arith)

pub skip_space-text : (w rest : Bytes) → StartsText w → skip_space (w ++ rest) ≡ w ++ rest
unfolding skip_space
skip_space-text [] rest h = absurd h
skip_space-text (c ∷ w) rest h = rw h

store-text :
    (cap : ℕ) (w rest : Bytes) → StartsText w → length w < cap → store cap (w, rest) ≡ got w rest
unfolding store
store-text cap [] rest h k = absurd h
store-text cap (c ∷ w) rest h k = ground arith

pub scan_line-append :
    {cap : ℕ} {w : Bytes} (rest : Bytes)
    → IsText cap w
    → scan_line cap (w ++ 10 ∷ rest) ≡ got w (10 ∷ rest)
unfolding scan_line
scan_line-append {cap} {w} rest v =
    rw (skip_space-text w (10 ∷ rest) v.starts, take_line-append w rest v.no_newline)
      (store-text cap w (10 ∷ rest) v.starts v.fits)

pub scan_line-space : (cap : ℕ) (s : Bytes) → scan_line cap (32 ∷ s) ≡ scan_line cap s
unfolding scan_line skip_space is_space
scan_line-space cap s = refl

pub scan_line-newline : (cap : ℕ) (s : Bytes) → scan_line cap (10 ∷ s) ≡ scan_line cap s
unfolding scan_line skip_space is_space
scan_line-newline cap s = refl

-- `fgets` reads a line that fits, with its end.
pub take_fgets-line :
    (n : ℕ) (l rest : Bytes)
    → All (λ c. c ≢ 10) l
    → length l < n
    → take_fgets n (l ++ 10 ∷ rest) ≡ (l ++ 10 ∷ [], rest)
unfolding take_fgets
take_fgets-line zero l rest h k = absurd (omega arith)
take_fgets-line (suc n) [] rest h k = refl
take_fgets-line (suc n) (c ∷ l) rest (hc, h) k =
    rw (take_fgets-line n l rest h (omega arith)) (ground arith)
