-- ===== src/Stdio/Scan/Laws/Loops.antt =====
-- The loops that read record after record read back a printed list.
use trabajos_sistemas_distri.Base.{
  ℕ, zero, suc, ◌≤◌, ◌<◌, Bool, List, [], ◌∷◌, ◌++◌, ◌≡◌, refl, length-append, any, Bytes, length,
  All, arith, append_assoc, append-nil,
}
use trabajos_sistemas_distri.Stdio.Run.{done}
use trabajos_sistemas_distri.Stdio.Scan.{
  got, stopped, Scanner, round, scan_all, records, search_round, search_all, search_records,
}

abbrev pub print_all {ℓ} : {A : Type ℓ} → (A → Bytes) → List A → Bytes
print_all print [] = []
print_all print (a ∷ rest) = print a ++ print_all print rest

pub length-le-print_all {ℓ} :
    {A : Type ℓ} (print : A → Bytes)
    → ((a : A) → 0 < length (print a))
    → (xs : List A) → length xs ≤ length (print_all print xs)
length-le-print_all print p [] = omega arith
length-le-print_all print p (a ∷ xs) =
    omega (arith, p a, length-append (print a) (print_all print xs), length-le-print_all print p xs)

-- A reader that leaves the line end behind a record, and skips it in front of the next one, reads
-- back a printed list of records.
module _ {ℓ} {A : Type ℓ} (m : Scanner A) (V : A → Type 0) (print : A → Bytes)
    (reads : (a : A) (rest : Bytes) → V a → m (print a ++ rest) ≡ got a (10 ∷ rest))
    (skips : (s : Bytes) → m (10 ∷ s) ≡ m s) (ends : m [] ≡ stopped) where
  scan_all-newline : (f : ℕ) (s : Bytes) → scan_all m f (10 ∷ s) ≡ scan_all m f s
  unfolding scan_all
  scan_all-newline zero s = refl
  scan_all-newline (suc f) s = rw (skips s)

  scan_all-print_all :
      (f : ℕ) (xs : List A) (t : Bytes)
      → All V xs
      → m t ≡ stopped
      → length xs < f
      → scan_all m f (print_all print xs ++ t) ≡ done xs
  unfolding scan_all round
  scan_all-print_all zero xs t v e h = absurd (omega arith)
  scan_all-print_all (suc f) [] t v e h = rw e
  scan_all-print_all (suc f) (a ∷ xs) t (va, v) e h = rw (
    append_assoc,
    reads a (print_all print xs ++ t) va,
    round,
    scan_all-newline f (print_all print xs ++ t),
    scan_all-print_all f xs t v e (omega arith),
  )

  -- What stands behind the records is not looked at, if the reader stops there.
  pub records-print_all_then :
      ((a : A) → 0 < length (print a))
      → (xs : List A) (t : Bytes) → All V xs
      → m t ≡ stopped
      → records m (print_all print xs ++ t) ≡ done xs
  unfolding records
  records-print_all_then p xs t v e =
      scan_all-print_all (suc (length (print_all print xs ++ t))) xs t v e
        (omega (arith, length-append (print_all print xs) t, length-le-print_all print p xs))

  pub records-print_all :
      ((a : A) → 0 < length (print a))
      → (xs : List A) → All V xs
      → records m (print_all print xs) ≡ done xs
  records-print_all p xs v = rw append-nil at (records-print_all_then p xs [] v ends)

-- The same for a loop that stops at the first record that passes its test. `left` is what a
-- conversion leaves in front of the next record.
module _ {ℓ κ} {A : Type ℓ} {K : Type κ} (m : Scanner K) (V : A → Type 0) (print : A → Bytes)
    (key : A → K) (left : Bytes → Bytes)
    (reads : (a : A) (rest : Bytes) → V a → m (print a ++ rest) ≡ got (key a) (left rest))
    (skips : (s : Bytes) → m (left s) ≡ m s) (ends : m [] ≡ stopped) (test : K → Bool) where
  search_all-left : (f : ℕ) (s : Bytes) → search_all m test f (left s) ≡ search_all m test f s
  unfolding search_all
  search_all-left zero s = refl
  search_all-left (suc f) s = rw (skips s)

  search_all-print_all :
      (f : ℕ) (xs : List A)
      → All V xs
      → length xs < f
      → search_all m test f (print_all print xs) ≡ done (any (λ a. test (key a)) xs)
  unfolding search_all search_round
  search_all-print_all zero xs v h = absurd (omega arith)
  search_all-print_all (suc f) [] v h = rw ends
  search_all-print_all (suc f) (a ∷ xs) (va, v) h =
      rw
        (
          reads a (print_all print xs) va,
          search_round,
          search_all-left f (print_all print xs),
          search_all-print_all f xs v (omega arith),
        )
        (ground arith)

  pub search_records-print_all :
      ((a : A) → 0 < length (print a))
      → (xs : List A) → All V xs
      → search_records m test (print_all print xs) ≡ done (any (λ a. test (key a)) xs)
  unfolding search_records
  search_records-print_all p xs v =
      search_all-print_all (suc (length (print_all print xs))) xs v
        (omega (arith, length-le-print_all print p xs))
