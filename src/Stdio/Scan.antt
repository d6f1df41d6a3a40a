-- ===== src/Stdio/Scan.antt =====
-- `fscanf`: conversions on what is left of a file, and the loop that reads record after record.
pub mod Laws
pub mod Ends
use trabajos_sistemas_distri.Base.{
  ℕ, zero, suc, Bool, true, false, Option, none, some, List, [], ◌∷◌, ltb, ◌==◌, if◌then◌else◌,
  Bytes, ℤ, length,
}
use trabajos_sistemas_distri.Stdio.Decimal.{is_space, skip_space, scan_int}
use trabajos_sistemas_distri.Stdio.Run.{Run, done, fault, starved, ◌>>=◌}

-- A conversion reads a value and leaves the rest; or there is nothing for it; or the text does not
-- fit the array of the call, and it writes past the end.
pub data Conversion {ℓ} (A : Type ℓ) : Type ℓ where
  got : A → Bytes → Conversion A
  stopped : Conversion A
  overrun : Conversion A

abbrev pub Scanner {ℓ} : Type ℓ → Type ℓ
Scanner A = Bytes → Conversion A

abbrev pub pure {ℓ} : {A : Type ℓ} → A → Scanner A
pure a s = got a s

abbrev pub and_then {ℓ κ} :
    {A : Type ℓ} {B : Type κ} → Conversion A → (A → Scanner B) → Conversion B
and_then (got a r) f = f a r
and_then stopped f = stopped
and_then overrun f = overrun

infixl 5 ◌>>>=◌
abbrev pub ◌>>>=◌ {ℓ κ} : {A : Type ℓ} {B : Type κ} → Scanner A → (A → Scanner B) → Scanner B
◌>>>=◌ m f s = and_then (m s) f

unfoldable pub take_word : Bytes → Bytes × Bytes
unfolding is_space
take_word [] = ([], [])
take_word (c ∷ s) = let (w, r) = take_word s in if is_space c then ([], c ∷ s) else (c ∷ w, r)

unfoldable pub take_line : Bytes → Bytes × Bytes
take_line [] = ([], [])
take_line (c ∷ s) = let (w, r) = take_line s in if c == b'\n' then ([], c ∷ s) else (c ∷ w, r)

-- What was matched goes into an array of `cap` bytes, with a NUL behind it.
unfoldable pub store : ℕ → Bytes × Bytes → Conversion Bytes
store cap ([], r) = stopped
store cap (c ∷ w, r) = if ltb (length (c ∷ w)) cap then got (c ∷ w) r else overrun

-- `%s` into `char [cap]`
unfoldable pub scan_word : ℕ → Scanner Bytes
unfolding take_word skip_space store
scan_word cap s = store cap (take_word (skip_space s))

-- ` %[^\n]` into `char [cap]`: the blank in front skips white space, line ends too.
unfoldable pub scan_line : ℕ → Scanner Bytes
unfolding take_line skip_space store
scan_line cap s = store cap (take_line (skip_space s))

abbrev pub of_option {ℓ} : {A : Type ℓ} → Option (A × Bytes) → Conversion A
of_option none = stopped
of_option (some (a, r)) = got a r

-- `%d`
unfoldable pub scan_number : Scanner ℤ
unfolding scan_int
scan_number s = of_option (scan_int s)

abbrev pub cons_run {ℓ} : {A : Type ℓ} → A → Run (List A) → Run (List A)
cons_run a r = r >>= λ rest. done (a ∷ rest)

-- One round: the record, if there is one, and then the rounds that follow.
unfoldable pub round {ℓ} : {A : Type ℓ} → Conversion A → (Bytes → Run (List A)) → Run (List A)
round (got a r) next = cons_run a (next r)
round stopped next = done []
round overrun next = fault

-- `while (fscanf (…) == n)`: the records that the loop's body sees. One unit of fuel a round.
module _ {ℓ} {A : Type ℓ} (m : Scanner A) where
  unfoldable pub scan_all : ℕ → Bytes → Run (List A)
  unfolding round
  scan_all zero s = starved
  scan_all (suc f) s = round (m s) (scan_all f)

  -- Every conversion that succeeds takes a byte at least, so this fuel is enough.
  unfoldable pub records : Bytes → Run (List A)
  unfolding scan_all
  records s = scan_all (suc (length s)) s

-- A loop that reads records and returns at the first one that passes `test`.
unfoldable pub search_round {ℓ} :
    {A : Type ℓ} → (A → Bool) → Conversion A → (Bytes → Run Bool) → Run Bool
search_round test (got a r) next = let rest = next r in if test a then done true else rest
search_round test stopped next = done false
search_round test overrun next = fault

module _ {ℓ} {A : Type ℓ} (m : Scanner A) (test : A → Bool) where
  unfoldable pub search_all : ℕ → Bytes → Run Bool
  unfolding search_round
  search_all zero s = starved
  search_all (suc f) s = search_round test (m s) (search_all f)

  unfoldable pub search_records : Bytes → Run Bool
  unfolding search_all
  search_records s = search_all (suc (length s)) s

-- `fgets` with room for `n` characters: a line with its end, or the first `n` characters of one.
unfoldable pub take_fgets : ℕ → Bytes → Bytes × Bytes
take_fgets zero s = ([], s)
take_fgets (suc n) [] = ([], [])
take_fgets (suc n) (c ∷ s) =
    let (l, r) = take_fgets n s in if c == b'\n' then (c ∷ [], s) else (c ∷ l, r)
