-- ===== src/Claves/Tuples.antt =====
-- Reading and writing a tuple, with the variables that the reading loops of claves.c fill: a
-- conversion that fails leaves its variable as it was, and the loop goes on.
pub mod Loops
pub mod Print
pub mod Hangs
use trabajos_sistemas_distri.Base.{
  ℕ, zero, suc, Bool, true, false, ◌||◌, Option, none, some, List, [], ◌∷◌, ◌++◌, ◌==◌,
  if◌then◌else◌, Bytes, ℤ, pos, negsuc, int_eq, length,
}
use trabajos_sistemas_distri.Stdio.Decimal.{skip_space, scan_int, print_int}
use trabajos_sistemas_distri.Stdio.Run.{Run, done, fault, starved, ◌>>=◌}
use trabajos_sistemas_distri.Stdio.Scan.{Conversion, got, stopped, overrun, scan_word, cons_run}
use trabajos_sistemas_distri.Claves.Floats.{Floats}

-- MAXSTR and MAXVEC
abbrev pub max_str : ℕ
max_str = 256

abbrev pub max_vec : ℕ
max_vec = 32

pub record Coord : Type 0 where
  pub x : ℤ
  pub y : ℤ

-- The rounds of `for (int i = 0; i < n; i++)`
abbrev pub rounds : ℤ → ℕ
rounds (pos n) = n
rounds (negsuc n) = 0

-- The variables of a tuple; `v_value2` lists the elements of the array.
pub record Tuple (Float : Type 0) : Type 0 where
  pub key : ℤ
  pub value1 : Bytes
  pub n_value2 : ℤ
  pub v_value2 : List Float
  pub value3 : Coord

-- What a failed `%d` leaves: a sign has been read.
unfoldable pub behind_sign : Bytes → Bytes
behind_sign [] = []
behind_sign (c ∷ s) = if c == b'-' || c == b'+' then s else c ∷ s

module _ (fl : Floats) where
  open fl use {Float, print, scan}

  abbrev float_or : Float → Option Float × Bytes → Float × Bytes
  float_or old (none, r) = (old, r)
  float_or old (some v, r) = (v, r)

  -- `fscanf (f, "%lf", &v)`
  unfoldable pub scan_float : Float → Bytes → Float × Bytes
  unfolding skip_space
  scan_float old s = float_or old (scan (skip_space s))

  abbrev cons_vector : Float → Run (List Float × Bytes) → Run (List Float × Bytes)
  cons_vector v r = r >>= λ (vs, s). done (v ∷ vs, s)

  -- The loop that reads `n` components, on what is left of the array.
  unfoldable pub read_vector : ℕ → Bytes → List Float → Run (List Float × Bytes)
  unfolding scan_float
  read_vector zero s vs = done (vs, s)
  read_vector (suc n) s [] = fault
  read_vector (suc n) s (old ∷ vs) =
      let (v, r) = scan_float old s in cons_vector v (read_vector n r vs)

  -- The loop that writes `n` components.
  unfoldable pub write_vector : ℕ → List Float → Run Bytes
  write_vector zero vs = done []
  write_vector (suc n) [] = fault
  write_vector (suc n) (v ∷ vs) = write_vector n vs >>= λ s. done (print v ++ b' ' ∷ s)

  -- `fscanf (f, "%d %s %d", &k, v1, &N_v2)`, on the variables: `none` is EOF.
  abbrev header_count : Tuple Float → Bytes → Option (ℤ × Bytes) → Option (Tuple Float × Bytes)
  header_count l s none = some (l, behind_sign (skip_space s))
  header_count l s (some (n, r)) = some (record l { n_value2 = n }, r)

  abbrev header_word : Tuple Float → Conversion Bytes → Run (Option (Tuple Float × Bytes))
  header_word l (got w r) = done (header_count (record l { value1 = w }) r (scan_int r))
  header_word l stopped = done (some (l, []))
  header_word l overrun = fault

  abbrev header_key : Tuple Float → Bytes → Option (ℤ × Bytes) → Run (Option (Tuple Float × Bytes))
  header_key l s none = done (some (l, behind_sign s))
  header_key l s (some (k, r)) = header_word (record l { key = k }) (scan_word max_str r)

  -- At the end of the file there is nothing to convert.
  abbrev header_at : Tuple Float → Bytes → Run (Option (Tuple Float × Bytes))
  header_at l [] = done none
  header_at l (c ∷ s) = header_key l (c ∷ s) (scan_int (c ∷ s))

  unfoldable pub read_header : Tuple Float → Bytes → Run (Option (Tuple Float × Bytes))
  unfolding behind_sign
  read_header l s = header_at l (skip_space s)

  -- `fscanf (f, "%d %d", &value3.x, &value3.y)`
  abbrev read_y : Coord → Bytes → Option (ℤ × Bytes) → Coord × Bytes
  read_y c s none = (c, behind_sign (skip_space s))
  read_y c s (some (y, r)) = (record c { y = y }, r)

  abbrev read_x : Coord → Bytes → Option (ℤ × Bytes) → Coord × Bytes
  read_x c s none = (c, behind_sign (skip_space s))
  read_x c s (some (x, r)) = read_y (record c { x = x }) r (scan_int r)

  unfoldable pub read_coord : Coord → Bytes → Coord × Bytes
  unfolding behind_sign
  read_coord c s = read_x c s (scan_int s)

  -- One round of a reading loop: `none` where its condition fails.
  abbrev read_body : Option (Tuple Float × Bytes) → Run (Option (Tuple Float × Bytes))
  read_body none = done none
  read_body (some (l, s)) = read_vector (rounds l.n_value2) s l.v_value2 >>= λ (vs, s1).
      let (c, s2) = read_coord l.value3 s1 in
      done (some (record l { v_value2 = vs; value3 = c }, s2))

  unfoldable pub read_tuple : Tuple Float → Bytes → Run (Option (Tuple Float × Bytes))
  unfolding read_header read_vector read_coord
  read_tuple l s = read_header l s >>= read_body

  -- The `fprintf` calls that write a tuple.
  unfoldable pub write_tuple : Tuple Float → Run Bytes
  unfolding write_vector
  write_tuple t = write_vector (rounds t.n_value2) t.v_value2 >>= λ s. done (
      print_int t.key
      ++ b' '
        ∷ (t.value1
            ++ b' '
              ∷ (print_int t.n_value2
                  ++ b' '
                    ∷ (s
                        ++ (print_int t.value3.x ++ b' ' ∷ (print_int t.value3.y ++ b'\n' ∷ []))))))

  -- `while (fscanf (…) != EOF)`: the variables after each round. One unit of fuel a round; a round
  -- that reads nothing repeats for ever.
  abbrev tuples_round :
      Option (Tuple Float × Bytes)
      → (Tuple Float → Bytes → Run (List (Tuple Float)))
      → Run (List (Tuple Float))
  tuples_round none next = done []
  tuples_round (some (l, s)) next = cons_run l (next l s)

  unfoldable pub tuples : ℕ → Tuple Float → Bytes → Run (List (Tuple Float))
  tuples zero l s = starved
  tuples (suc f) l s = read_tuple l s >>= λ r. tuples_round r (tuples f)

  -- The same loop where it returns at a key: whether it did, and the variables then.
  abbrev find_round :
      ℤ
      → Tuple Float
      → Option (Tuple Float × Bytes)
      → (Tuple Float → Bytes → Run (Bool × Tuple Float))
      → Run (Bool × Tuple Float)
  find_round key l none next = done (false, l)
  find_round key l (some (l1, s)) next =
      let rest = next l1 s in if int_eq l1.key key then done (true, l1) else rest

  unfoldable pub find_key : ℤ → ℕ → Tuple Float → Bytes → Run (Bool × Tuple Float)
  find_key key zero l s = starved
  find_key key (suc f) l s = read_tuple l s >>= λ r. find_round key l r (find_key key f)
