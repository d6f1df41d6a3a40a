-- ===== src/Claves/Store/Holds.antt =====
-- The store as a list of tuples with different keys, and what its loops do on that list.
use trabajos_sistemas_distri.Base.{
  suc, ◌<◌, Bool, true, false, none, some, List, [], ◌∷◌, ◌++◌, ◌≡◌, refl, if◌then◌else◌, codes, ℤ,
  int_eq, int_eq_iff, length, length-append, All, arith, append_assoc, append-nil, Bool-cases, inl,
  inr, sym,
}
use trabajos_sistemas_distri.Stdio.Run.{done}
use trabajos_sistemas_distri.Stdio.Scan.Laws.{print_all, length-le-print_all}
use trabajos_sistemas_distri.Stdio.Disk.{Disk, put}
use trabajos_sistemas_distri.Stdio.Disk.Laws.{with_files}
use trabajos_sistemas_distri.Claves.Floats.{Floats, IsLawful}
use trabajos_sistemas_distri.Claves.Tuples.{Tuple}
use trabajos_sistemas_distri.Claves.Tuples.Print.{IsTuple, print_tuple, loaded}
use trabajos_sistemas_distri.Claves.Tuples.Loops.{lookup, has_key, loads, Found, write_tuple-loaded}
use trabajos_sistemas_distri.Claves.Store.{data_file, keep_loop}

int_eq-false_comm : (a b : ℤ) → int_eq a b ≡ false → int_eq b a ≡ false
int_eq-false_comm a b h = elim (Bool-cases (int_eq b a)) [
  | inl e ↦ absurd (ground (arith, (int_eq_iff a b).1 (sym ((int_eq_iff b a).0 e))))
  | inr e ↦ e
]

module _ (fl : Floats) where
  open fl use {Float}

  -- The tuples of other keys.
  unfoldable pub without : ℤ → List (Tuple Float) → List (Tuple Float)
  without key [] = []
  without key (t ∷ ts) = let rest = without key ts in if int_eq t.key key then rest else t ∷ rest

  abbrev pub DistinctKeys : List (Tuple Float) → Type 0
  DistinctKeys [] = Unit
  DistinctKeys (t ∷ ts) = (has_key fl t.key ts ≡ false) × DistinctKeys ts

  -- The disk holds these tuples, and the system lets the server read and write the files.
  pub record Holds (ts : List (Tuple Float)) (d : Disk) : Type 0 where
    pub file : d.files data_file ≡ some (print_all (print_tuple fl) ts)
    pub valid : All (IsTuple fl) ts
    pub distinct : DistinctKeys ts
    pub readable : d.readable data_file ≡ true
    pub writable : d.writable data_file ≡ true
    pub temp : d.writable (codes "temp.txt") ≡ true

  pub All-without :
      (P : Tuple Float → Type 0) (key : ℤ) (ts : List (Tuple Float))
      → All P ts
      → All P (without key ts)
  unfolding without
  All-without P key [] v = v
  All-without P key (t ∷ ts) (vt, v) = elim (Bool-cases (int_eq t.key key)) [
    | inl e ↦ rw e (All-without P key ts v)
    | inr e ↦ rw e (vt, All-without P key ts v)
  ]

  has_key-without :
      (k key : ℤ) (ts : List (Tuple Float))
      → has_key fl k ts ≡ false
      → has_key fl k (without key ts) ≡ false
  unfolding has_key without
  has_key-without k key [] h = refl
  has_key-without k key (t ∷ ts) h = ground (arith, has_key-without k key ts)

  pub has_key-without_self :
      (key : ℤ) (ts : List (Tuple Float)) → has_key fl key (without key ts) ≡ false
  unfolding has_key without
  has_key-without_self key [] = refl
  has_key-without_self key (t ∷ ts) = ground (arith, has_key-without_self key ts)

  pub DistinctKeys-without :
      (key : ℤ) (ts : List (Tuple Float)) → DistinctKeys ts → DistinctKeys (without key ts)
  unfolding without
  DistinctKeys-without key [] v = v
  DistinctKeys-without key (t ∷ ts) (n, v) = elim (Bool-cases (int_eq t.key key)) [
    | inl e ↦ rw e (DistinctKeys-without key ts v)
    | inr e ↦ rw e (has_key-without t.key key ts n, DistinctKeys-without key ts v)
  ]

  pub has_key-append :
      (k : ℤ) (ts : List (Tuple Float)) (t : Tuple Float)
      → int_eq t.key k ≡ false
      → has_key fl k ts ≡ false
      → has_key fl k (ts ++ t ∷ []) ≡ false
  unfolding has_key
  has_key-append k [] t h n = rw h refl
  has_key-append k (u ∷ ts) t h n = ground (arith, has_key-append k ts t h)

  pub DistinctKeys-append :
      (ts : List (Tuple Float)) (t : Tuple Float)
      → has_key fl t.key ts ≡ false
      → DistinctKeys ts
      → DistinctKeys (ts ++ t ∷ [])
  unfolding has_key
  DistinctKeys-append [] t n v = (refl, tt)
  DistinctKeys-append (u ∷ ts) t n (m, v) = elim (Bool-cases (int_eq u.key t.key)) [
    | inl e ↦ absurd (ground arith)
    | inr e ↦ (
      has_key-append u.key ts t (int_eq-false_comm u.key t.key e) m,
      DistinctKeys-append ts t (rw e at n) v,
    )
  ]

  pub lookup-append :
      (t : Tuple Float) (ts : List (Tuple Float))
      → has_key fl t.key ts ≡ false
      → lookup fl t.key (ts ++ t ∷ []) ≡ some t
  unfolding has_key lookup
  lookup-append t [] h = rw ((int_eq_iff t.key t.key).1 refl) refl
  lookup-append t (u ∷ ts) h = ground (arith, lookup-append t ts)

  length-print_tuple-pos : (t : Tuple Float) → 0 < length (print_tuple fl t)
  unfolding print_tuple
  length-print_tuple-pos t = rw length-append (omega arith)

  pub fuel : (ts : List (Tuple Float)) → length ts < suc (length (print_all (print_tuple fl) ts))
  fuel ts = omega (arith, length-le-print_all (print_tuple fl) length-print_tuple-pos ts)

  pub print_all-append :
      (ts : List (Tuple Float)) (t : Tuple Float)
      → print_all (print_tuple fl) (ts ++ t ∷ [])
        ≡ print_all (print_tuple fl) ts ++ print_tuple fl t
  print_all-append [] t = append-nil (print_tuple fl t)
  print_all-append (u ∷ ts) t = rw (print_all-append ts t, append_assoc) refl

  -- The disk with another list of tuples.
  abbrev pub tuples_written : List (Tuple Float) → Disk → Disk
  tuples_written ts d = with_files d (put d.files data_file (some (print_all (print_tuple fl) ts)))

  -- The same after a deletion: the temporary file is gone.
  abbrev pub tuples_rewritten : List (Tuple Float) → Disk → Disk
  tuples_rewritten ts d =
      with_files d
        (put (put d.files (codes "temp.txt") none) data_file (some (print_all (print_tuple fl) ts)))

  module _ (lawful : IsLawful fl) where
    pub keep_loop_lem :
        (key : ℤ) (l : Tuple Float) (ts : List (Tuple Float))
        → All (IsTuple fl) ts
        → keep_loop fl key (loads fl lawful l ts)
          ≡ done (print_all (print_tuple fl) (without key ts))
    unfolding keep_loop without
    keep_loop_lem key l [] v = refl
    keep_loop_lem key l (t ∷ ts) (vt, v) = elim (Bool-cases (int_eq t.key key)) [
      | inl e ↦ rw e (keep_loop_lem key (loaded fl lawful l t) ts v)
      | inr e ↦
          rw (e, write_tuple-loaded fl lawful l t vt, keep_loop_lem key (loaded fl lawful l t) ts v)
            refl
    ]

    pub Found-there :
        (key : ℤ) (ts : List (Tuple Float)) (r : Bool × Tuple Float)
        → Found fl lawful (lookup fl key ts) r
        → r.0 ≡ has_key fl key ts
    unfolding lookup has_key
    Found-there key [] r h = h
    Found-there key (t ∷ ts) r h = elim (Bool-cases (int_eq t.key key)) [
      | inl e ↦ rw (e, (rw e at h).0) refl
      | inr e ↦ rw e (Found-there key ts r (rw e at h))
    ]
