-- ===== src/Claves/Tuples/Hangs.antt =====
-- The reading loops of claves.c stop only at the end of the file: where they meet what is no
-- number, a round takes nothing.
use trabajos_sistemas_distri.Base.{
  ℕ, zero, suc, ◌==◌, ◌≤◌, false, none, List, [], ◌∷◌, ◌≡◌, refl, Bytes, ℤ, int_eq, length, some,
  arith,
}
use trabajos_sistemas_distri.Stdio.Decimal.{
  is_space, is_digit, skip_space, scan_magnitude, scan_sign, scan_int,
}
use trabajos_sistemas_distri.Stdio.Run.{done, starved}
use trabajos_sistemas_distri.Claves.Floats.{Floats}
use trabajos_sistemas_distri.Claves.Tuples.{
  Tuple, Coord, rounds, behind_sign, read_header, scan_float, read_vector, read_coord, read_tuple,
  tuples, find_key,
}

-- A character that begins neither white space nor a decimal number.
pub record IsJunk (c : ℕ) : Type 0 where
  pub no_space : is_space c ≡ false
  pub no_digit : is_digit c ≡ false
  pub no_minus : (c == b'-') ≡ false
  pub no_plus : (c == b'+') ≡ false

module _ (c : ℕ) (s : Bytes) (junk : IsJunk c) where
  skip_space-junk : skip_space (c ∷ s) ≡ c ∷ s
  unfolding skip_space
  skip_space-junk = rw junk.no_space refl

  scan_int-junk : scan_int (c ∷ s) ≡ none
  unfolding scan_int scan_sign scan_magnitude
  scan_int-junk = rw (skip_space-junk, junk.no_minus, junk.no_plus, junk.no_digit) refl

  behind_sign-junk : behind_sign (c ∷ s) ≡ c ∷ s
  unfolding behind_sign
  behind_sign-junk = rw (junk.no_minus, junk.no_plus) refl

  module _ (fl : Floats) (no_float : fl.scan (c ∷ s) ≡ (none, c ∷ s)) where
    open fl use {Float}

    read_header-junk : (l : Tuple Float) → read_header fl l (c ∷ s) ≡ done (some (l, c ∷ s))
    unfolding read_header
    read_header-junk l = rw (skip_space-junk, scan_int-junk, behind_sign-junk) refl

    read_coord-junk : (v : Coord) → read_coord fl v (c ∷ s) ≡ (v, c ∷ s)
    unfolding read_coord
    read_coord-junk v = rw (scan_int-junk, skip_space-junk, behind_sign-junk) refl

    scan_float-junk : (old : Float) → scan_float fl old (c ∷ s) ≡ (old, c ∷ s)
    unfolding scan_float
    scan_float-junk old = rw (skip_space-junk, no_float) refl

    read_vector-junk :
        (n : ℕ) (vs : List Float) → n ≤ length vs → read_vector fl n (c ∷ s) vs ≡ done (vs, c ∷ s)
    unfolding read_vector
    read_vector-junk zero vs h = refl
    read_vector-junk (suc n) [] h = absurd (omega arith)
    read_vector-junk (suc n) (v ∷ vs) h =
        rw (scan_float-junk v, read_vector-junk n vs (omega arith)) refl

    read_tuple-junk :
        (l : Tuple Float)
        → rounds l.n_value2 ≤ length l.v_value2
        → read_tuple fl l (c ∷ s) ≡ done (some (l, c ∷ s))
    unfolding read_tuple
    read_tuple-junk l h =
        rw
          (
            read_header-junk l,
            read_vector-junk (rounds l.n_value2) l.v_value2 h,
            read_coord-junk l.value3,
          )
          refl

    module _ (l : Tuple Float) (room : rounds l.n_value2 ≤ length l.v_value2) where
      tuples-junk : (f : ℕ) → tuples fl f l (c ∷ s) ≡ starved
      unfolding tuples
      tuples-junk zero = refl
      tuples-junk (suc f) = rw (read_tuple-junk l room, tuples-junk f) refl

      find_key-junk :
          (key : ℤ) → int_eq l.key key ≡ false → (f : ℕ) → find_key fl key f l (c ∷ s) ≡ starved
      unfolding find_key
      find_key-junk key h zero = refl
      find_key-junk key h (suc f) = rw (read_tuple-junk l room, find_key-junk key h f, h) refl

      -- A file of tuples in which the loops of claves.c come to a character that begins neither
      -- white space nor a number, and of which `%lf` takes nothing either, is never read to its
      -- end: the loop of `delete_key` does not stop in any number of rounds, and neither does that
      -- of `exist` and `get_value` when the key last read is not the one that is looked for. The
      -- condition is that the count last read fits the array.
      pub find_key-hangs :
          (key : ℤ)
          → int_eq l.key key ≡ false
          → ((f : ℕ) → tuples fl f l (c ∷ s) ≡ starved)
            × ((f : ℕ) → find_key fl key f l (c ∷ s) ≡ starved)
      find_key-hangs key h = (tuples-junk, find_key-junk key h)
