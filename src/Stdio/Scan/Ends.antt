-- ===== src/Stdio/Scan/Ends.antt =====
-- The loops that read record after record come to their end, whatever the file holds: a conversion
-- that succeeds takes at least one byte.
use trabajos_sistemas_distri.Base.{
  ℕ, zero, suc, ◌==◌, ◌+◌, ◌-◌, ◌*◌, ◌≤◌, ◌<◌, Bool, true, false, Option, none, some, List, [], ◌∷◌,
  ◌≡◌, ◌≢◌, refl, Bytes, ℤ, length, ltb, Bool-cases, inl, inr, arith,
}
use trabajos_sistemas_distri.Stdio.Decimal.{
  is_digit, skip_space, scan_digits, scan_magnitude, scan_sign, scan_int,
}
use trabajos_sistemas_distri.Stdio.Run.{Run, starved, >>=-ne-starved}
use trabajos_sistemas_distri.Stdio.Scan.{
  of_option, and_then, Conversion, got, stopped, overrun, Scanner, ◌>>>=◌, take_word, take_line,
  store, scan_word, scan_line, scan_number, round, scan_all, pure, records, search_round,
  search_all, search_records, take_fgets,
}

-- No more is left than there was, or less.
abbrev pub LeavesAtMost {ℓ} : {A : Type ℓ} → ℕ → Conversion A → Type 0
LeavesAtMost n (got a r) = length r ≤ n
LeavesAtMost n stopped = Unit
LeavesAtMost n overrun = Unit

pub record Takes {ℓ} {A : Type ℓ} (m : Scanner A) : Type 0 where
  pub left : (s : Bytes) → LeavesAtMost (length s) (m s)

-- It takes a byte at least, where there is one.
pub record Shrinks {ℓ} {A : Type ℓ} (m : Scanner A) : Type 0 where
  pub left : (c : ℕ) (s : Bytes) → LeavesAtMost (length s) (m (c ∷ s))

LeavesAtMost-le {ℓ} :
    {A : Type ℓ} (n k : ℕ) (q : Conversion A) → LeavesAtMost n q → n ≤ k → LeavesAtMost k q
LeavesAtMost-le n k (got a r) h l = omega arith
LeavesAtMost-le n k stopped h l = tt
LeavesAtMost-le n k overrun h l = tt

length-skip_space : (s : Bytes) → length (skip_space s) ≤ length s
unfolding skip_space
length-skip_space [] = omega arith
length-skip_space (c ∷ s) = ground (arith, length-skip_space s)

length-take_word : (s : Bytes) → length (take_word s).0 + length (take_word s).1 ≡ length s
unfolding take_word
length-take_word [] = refl
length-take_word (c ∷ s) = ground (arith, length-take_word s)

length-take_line : (s : Bytes) → length (take_line s).0 + length (take_line s).1 ≡ length s
unfolding take_line
length-take_line [] = refl
length-take_line (c ∷ s) = ground (arith, length-take_line s)

store-LeavesAtMost :
    (cap n : ℕ) (p : Bytes × Bytes) → length p.0 + length p.1 ≤ suc n → LeavesAtMost n (store cap p)
unfolding store
store-LeavesAtMost cap n ([], r) h = tt
store-LeavesAtMost cap n ((c ∷ w), r) h = elim (Bool-cases (ltb (length (c ∷ w)) cap)) [
  | inl e ↦ rw e (omega arith)
  | inr e ↦ rw e tt
]

pub scan_word-Shrinks : (cap : ℕ) → Shrinks (scan_word cap)
unfolding scan_word
scan_word-Shrinks cap = record {
  left = λ c s.
      store-LeavesAtMost cap (length s) (take_word (skip_space (c ∷ s)))
        (omega (arith, length-take_word (skip_space (c ∷ s)), length-skip_space (c ∷ s)));
}

pub scan_line-Takes : (cap : ℕ) → Takes (scan_line cap)
unfolding scan_line
scan_line-Takes cap = record {
  left = λ s.
      store-LeavesAtMost cap (length s) (take_line (skip_space s))
        (omega (arith, length-take_line (skip_space s), length-skip_space s));
}

abbrev Left : ℕ → Option (ℤ × Bytes) → Type 0
Left n none = Unit
Left n (some (z, r)) = length r ≤ n

Left-le : (n k : ℕ) (o : Option (ℤ × Bytes)) → Left n o → n ≤ k → Left k o
Left-le n k none h l = tt
Left-le n k (some (z, r)) h l = omega arith

length-scan_digits : (acc : ℕ) (s : Bytes) → length (scan_digits acc s).1 ≤ length s
unfolding scan_digits
length-scan_digits acc [] = omega arith
length-scan_digits acc (c ∷ s) = ground (arith, length-scan_digits (acc * 10 + (c - b'0')) s)

scan_magnitude-Left : (neg : Bool) (s : Bytes) → Left (length s) (scan_magnitude neg s)
unfolding scan_magnitude
scan_magnitude-Left neg [] = tt
scan_magnitude-Left neg (c ∷ s) = elim (Bool-cases (is_digit c)) [
  | inl e ↦ rw e (omega (arith, length-scan_digits (0 + (c - b'0')) s))
  | inr e ↦ rw e tt
]

scan_sign-Left : (s : Bytes) → Left (length s) (scan_sign s)
unfolding scan_sign
scan_sign-Left [] = tt
scan_sign-Left (c ∷ s) = elim (Bool-cases (c == b'-')) [
  | inl e ↦
      rw e (Left-le (length s) _ (scan_magnitude true s) (scan_magnitude-Left true s) (omega arith))
  | inr e ↦ elim (Bool-cases (c == b'+')) [
    | inl f ↦
        rw (e, f)
          (Left-le (length s) _ (scan_magnitude false s) (scan_magnitude-Left false s)
            (omega arith))
    | inr f ↦ rw (e, f) (scan_magnitude-Left false (c ∷ s))
  ]
]

number-LeavesAtMost : (n : ℕ) (o : Option (ℤ × Bytes)) → Left n o → LeavesAtMost n (of_option o)
number-LeavesAtMost n none h = tt
number-LeavesAtMost n (some (z, r)) h = h

pub scan_number-Takes : Takes scan_number
unfolding scan_number scan_int
scan_number-Takes = record {
  left = λ s. number-LeavesAtMost (length s) (scan_int s) (
      Left-le _ _ (scan_sign (skip_space s)) (scan_sign-Left (skip_space s)) (length-skip_space s));
}

-- A scanner behind another takes from what that one has left.
module _ {ℓ κ} {A : Type ℓ} {B : Type κ} (f : A → Scanner B) (takes : (a : A) → Takes (f a)) where
  and_then-LeavesAtMost :
      (n : ℕ) (q : Conversion A) → LeavesAtMost n q → LeavesAtMost n (and_then q f)
  and_then-LeavesAtMost n (got a r) h = LeavesAtMost-le (length r) n (f a r) ((takes a).left r) h
  and_then-LeavesAtMost n stopped h = tt
  and_then-LeavesAtMost n overrun h = tt

  pub >>>=-Shrinks : (m : Scanner A) → Shrinks m → Shrinks (m >>>= f)
  >>>=-Shrinks m h = record {
    left = λ c s. and_then-LeavesAtMost (length s) (m (c ∷ s)) (h.left c s);
  }

  pub >>>=-Takes : (m : Scanner A) → Takes m → Takes (m >>>= f)
  >>>=-Takes m h = record { left = λ s. and_then-LeavesAtMost (length s) (m s) (h.left s) }

pub length-take_fgets : (n : ℕ) (s : Bytes) → length (take_fgets n s).1 ≤ length s
unfolding take_fgets
length-take_fgets zero s = omega arith
length-take_fgets (suc n) [] = omega arith
length-take_fgets (suc n) (c ∷ s) = ground (arith, length-take_fgets n s)

module _ {ℓ} {A : Type ℓ} (m : Scanner A) (empty : m [] ≡ stopped) (shrinks : Shrinks m) where
  round-ne-starved :
      (n : ℕ) (q : Conversion A) (next : Bytes → Run (List A))
      → LeavesAtMost n q
      → ((r : Bytes) → length r ≤ n → next r ≢ starved)
      → round q next ≢ starved
  unfolding round
  round-ne-starved n (got a r) next h go = >>=-ne-starved (next r) _ (go r h) (λ rest e. cc)
  round-ne-starved n stopped next h go = λ e. cc
  round-ne-starved n overrun next h go = λ e. cc

  round-stopped : (next : Bytes → Run (List A)) → round stopped next ≢ starved
  unfolding round
  round-stopped next = λ e. cc

  scan_all-ne-starved : (f : ℕ) (s : Bytes) → length s < f → scan_all m f s ≢ starved
  unfolding scan_all
  scan_all-ne-starved zero s h = absurd (omega arith)
  scan_all-ne-starved (suc f) [] h = rw empty (round-stopped (scan_all m f))
  scan_all-ne-starved (suc f) (c ∷ s) h =
      round-ne-starved (length s) (m (c ∷ s)) (scan_all m f) (shrinks.left c s)
        (λ r l. scan_all-ne-starved f r (omega arith))

  pub records-ne-starved : (s : Bytes) → records m s ≢ starved
  unfolding records
  records-ne-starved s = scan_all-ne-starved (suc (length s)) s (omega arith)

  module _ (test : A → Bool) where
    search_round-ne-starved :
        (n : ℕ) (q : Conversion A) (next : Bytes → Run Bool)
        → LeavesAtMost n q
        → ((r : Bytes) → length r ≤ n → next r ≢ starved)
        → search_round test q next ≢ starved
    unfolding search_round
    search_round-ne-starved n (got a r) next h go = elim (Bool-cases (test a)) [
      | inl e ↦ rw e (λ g. cc)
      | inr e ↦ rw e (go r h)
    ]
    search_round-ne-starved n stopped next h go = λ e. cc
    search_round-ne-starved n overrun next h go = λ e. cc

    search_round-stopped : (next : Bytes → Run Bool) → search_round test stopped next ≢ starved
    unfolding search_round
    search_round-stopped next = λ e. cc

    search_all-ne-starved : (f : ℕ) (s : Bytes) → length s < f → search_all m test f s ≢ starved
    unfolding search_all
    search_all-ne-starved zero s h = absurd (omega arith)
    search_all-ne-starved (suc f) [] h = rw empty (search_round-stopped (search_all m test f))
    search_all-ne-starved (suc f) (c ∷ s) h =
        search_round-ne-starved (length s) (m (c ∷ s)) (search_all m test f) (shrinks.left c s)
          (λ r l. search_all-ne-starved f r (omega arith))

    pub search_records-ne-starved : (s : Bytes) → search_records m test s ≢ starved
    unfolding search_records
    search_records-ne-starved s = search_all-ne-starved (suc (length s)) s (omega arith)

pub pure-Takes {ℓ} : {A : Type ℓ} (a : A) → Takes (pure a)
pure-Takes a = record { left = λ s. omega arith }

-- What `fgets` skips.
pub skip-Takes {ℓ} : {A : Type ℓ} (n : ℕ) (a : A) → Takes (λ s. pure a (take_fgets n s).1)
skip-Takes n a = record { left = λ s. length-take_fgets n s }

pub scan_word-Takes : (cap : ℕ) → Takes (scan_word cap)
unfolding scan_word
scan_word-Takes cap = record {
  left = λ s.
      store-LeavesAtMost cap (length s) (take_word (skip_space s))
        (omega (arith, length-take_word (skip_space s), length-skip_space s));
}
