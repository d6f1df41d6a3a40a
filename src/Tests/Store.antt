-- ===== src/Tests/Store.antt =====
-- The store of tuples at a concrete printing of numbers: strokes, and a full stop.
use trabajos_sistemas_distri.Base.{
  ℕ, zero, suc, true, List, [], ◌∷◌, ◌++◌, ◌≡◌, refl, ap, append-nil, Option, none, some, Bytes,
  codes, pos, negsuc, take, arith, ◌==◌, if◌then◌else◌,
}
use trabajos_sistemas_distri.Stdio.Run.{done, starved}
use trabajos_sistemas_distri.Stdio.Decimal.{is_space, is_digit}
use trabajos_sistemas_distri.Stdio.Disk.{Disk}
use trabajos_sistemas_distri.Stdio.Scan.Laws.{print_all, StartsText}
use trabajos_sistemas_distri.Claves.Floats.{Floats, IsLawful}
use trabajos_sistemas_distri.Claves.Tuples.{Tuple, tuples, find_key}
use trabajos_sistemas_distri.Claves.Tuples.Print.{IsTuple, print_tuple}
use trabajos_sistemas_distri.Claves.Tuples.Hangs.{IsJunk, find_key-hangs}
use trabajos_sistemas_distri.Claves.Tuples.Loops.{has_key}
use trabajos_sistemas_distri.Claves.Store.{set_value, get_value, modify_value, delete_key}
use trabajos_sistemas_distri.Claves.Store.Holds.{without, Holds}
use trabajos_sistemas_distri.Claves.Store.Refines.{modify_value_lem, delete_key_lem}
use trabajos_sistemas_distri.Claves.Store.RoundTrip.{get_value-set_value}
use trabajos_sistemas_distri.Tests.Data.{ana, is_word}

abbrev strokes : ℕ → Bytes
strokes zero = b'.' ∷ []
strokes (suc n) = b'|' ∷ strokes n

abbrev one_more : Option ℕ × Bytes → Option ℕ × Bytes
one_more (none, s) = (none, s)
one_more (some n, s) = (some (suc n), s)

abbrev count : Bytes → Option ℕ × Bytes
count [] = (none, [])
count (c ∷ s) =
    let rest = count s in
    if c == b'|' then one_more rest else (if c == b'.' then (some 0, s) else (none, c ∷ s))

abbrev value : Option ℕ × Bytes → ℕ
value (none, s) = 0
value (some n, s) = n

abbrev pub tally : Floats
tally = record {
  Float = ℕ;
  print = strokes;
  scan = count;
  atof = λ s. value (count s);
  rounded = λ n. n;
}

count-strokes : (n : ℕ) (rest : Bytes) → count (strokes n ++ rest) ≡ (some n, rest)
count-strokes zero rest = refl
count-strokes (suc n) rest = rw (count-strokes n rest) refl

strokes-StartsText : (n : ℕ) → StartsText (strokes n)
unfolding is_space
strokes-StartsText zero = refl
strokes-StartsText (suc n) = refl

pub IsLawful-tally : IsLawful tally
unfolding is_space
IsLawful-tally = record {
  scan-print = λ v rest. count-strokes v (b' ' ∷ rest);
  print-starts = strokes-StartsText;
  print-rounded = λ v. refl;
  atof-print = λ v. ap value (rw append-nil at (count-strokes v []));
}

abbrev zeros : ℕ → List ℕ
zeros zero = []
zeros (suc n) = 0 ∷ zeros n

-- What the variables hold before anything has been read.
abbrev pub garbage : Tuple ℕ
garbage = record {
  key = pos 0;
  value1 = [];
  n_value2 = pos 0;
  v_value2 = zeros 32;
  value3 = record { x = pos 0; y = pos 0 };
}

abbrev pub first : Tuple ℕ
first = record {
  key = pos 5;
  value1 = ana;
  n_value2 = pos 2;
  v_value2 = 2 ∷ 7 ∷ [];
  value3 = record { x = pos 1; y = negsuc 1 };
}

abbrev pub third : Tuple ℕ
third = record {
  key = pos 8;
  value1 = ana;
  n_value2 = pos 1;
  v_value2 = 4 ∷ [];
  value3 = record { x = pos 0; y = pos 9 };
}

pub IsTuple-third : IsTuple tally third
unfolding is_space
IsTuple-third = record {
  key = omega arith;
  value1 = is_word 256 ana (λ e. cc) refl (omega arith);
  counted = refl;
  fits = omega arith;
  x = omega arith;
  y = omega arith;
}

pub IsTuple-first : IsTuple tally first
unfolding is_space
IsTuple-first = record {
  key = omega arith;
  value1 = is_word 256 ana (λ e. cc) refl (omega arith);
  counted = refl;
  fits = omega arith;
  x = omega arith;
  y = omega arith;
}

abbrev pub disk : Disk
disk = record {
  files = λ f. some (print_all (print_tuple tally) (first ∷ []));
  readable = λ _. true;
  writable = λ _. true;
}

pub Holds-first : Holds tally (first ∷ []) disk
unfolding has_key
Holds-first = record {
  file = refl;
  valid = (IsTuple-first, tt);
  distinct = (refl, tt);
  readable = refl;
  writable = refl;
  temp = refl;
}

delete_key_lem_example :
    (d : Disk) × (delete_key tally garbage (pos 5) disk ≡ done (pos 0, d)) × Holds tally [] d
unfolding has_key without
delete_key_lem_example =
    delete_key_lem tally IsLawful-tally garbage refl (first ∷ []) disk Holds-first (pos 5)

modify_value_lem_example :
    (d : Disk) × (modify_value tally garbage first disk ≡ done (pos 0, d))
    × Holds tally (first ∷ []) d
unfolding has_key without
modify_value_lem_example =
    modify_value_lem tally IsLawful-tally garbage refl (first ∷ []) disk Holds-first first
      IsTuple-first (omega arith)

get_value-set_value_example :
    (d : Disk) × (out : Tuple ℕ) × (set_value tally garbage third disk ≡ done (pos 0, d))
    × (get_value tally (pos 8) garbage d ≡ done (pos 0, out))
    × (out.key ≡ pos 8)
    × (out.value1 ≡ ana)
    × (out.n_value2 ≡ pos 1)
    × (take 1 out.v_value2 ≡ 4 ∷ [])
    × (out.value3 ≡ third.value3)
unfolding has_key
get_value-set_value_example =
    get_value-set_value tally IsLawful-tally garbage refl (first ∷ []) disk Holds-first third
      IsTuple-third (omega arith) refl

IsJunk-letter : IsJunk b'b'
unfolding is_space is_digit
IsJunk-letter = record { no_space = refl; no_digit = refl; no_minus = refl; no_plus = refl }

-- What is left behind the first word of a text with a blank, where a count is expected.
find_key-hangs_example :
    ((f : ℕ) → tuples tally f garbage (codes "b 2") ≡ starved)
    × ((f : ℕ) → find_key tally (pos 5) f garbage (codes "b 2") ≡ starved)
find_key-hangs_example =
    find_key-hangs b'b' (codes " 2") IsJunk-letter tally refl garbage (omega arith) (pos 5) refl
