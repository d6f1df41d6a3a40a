-- ===== src/Claves/Tuples/Loops.antt =====
-- The reading loops of claves.c on the text of a list of tuples.
use trabajos_sistemas_distri.Base.{
  ℕ, zero, suc, ◌≤◌, ◌<◌, Bool, true, false, Option, none, some, List, [], ◌∷◌, ◌++◌, ◌≡◌, refl,
  ◌∙◌, if◌then◌else◌, Bytes, ℤ, int_eq, length, All, map, drop, arith, Bool-cases, inl, inr,
}
use trabajos_sistemas_distri.Stdio.Run.{done}
use trabajos_sistemas_distri.Stdio.Scan.Laws.{print_all}
use trabajos_sistemas_distri.Claves.Floats.{Floats, IsLawful}
use trabajos_sistemas_distri.Claves.Tuples.{
  max_vec, Tuple, write_vector, write_tuple, tuples, find_key,
}
use trabajos_sistemas_distri.Claves.Tuples.Print.{
  IsTuple, print_vector, print_tuple, loaded, write_vector_lem, read_tuple_lem, read_tuple-newline,
  read_tuple-nil,
}

length-overlay :
    {A : Type 0} (f : A → A) (vs arr : List A)
    → length vs ≤ length arr
    → length (map f vs ++ drop (length vs) arr) ≡ length arr
length-overlay f [] arr h = refl
length-overlay f (v ∷ vs) [] h = absurd (omega arith)
length-overlay f (v ∷ vs) (a ∷ arr) h = rw (length-overlay f vs arr (omega arith)) refl

length-map : {A : Type 0} (f : A → A) (vs : List A) → length (map f vs) ≡ length vs
length-map f [] = refl
length-map f (v ∷ vs) = rw (length-map f vs) refl

module _ (fl : Floats) where
  open fl use {Float, print, rounded}

  -- The first tuple of that key.
  unfoldable pub lookup : ℤ → List (Tuple Float) → Option (Tuple Float)
  lookup key [] = none
  lookup key (t ∷ ts) = let rest = lookup key ts in if int_eq t.key key then some t else rest

  unfoldable pub has_key : ℤ → List (Tuple Float) → Bool
  has_key key [] = false
  has_key key (t ∷ ts) = let rest = has_key key ts in if int_eq t.key key then true else rest

  module _ (lawful : IsLawful fl) where
    length-loaded :
        (l t : Tuple Float)
        → IsTuple fl t
        → length l.v_value2 ≡ max_vec
        → length (loaded fl lawful l t).v_value2 ≡ max_vec
    length-loaded l t v h =
        length-overlay rounded t.v_value2 l.v_value2 (omega (arith, v.fits, h)) ∙ h

    -- The variables after each round of a loop over these tuples.
    abbrev pub loads : Tuple Float → List (Tuple Float) → List (Tuple Float)
    loads l [] = []
    loads l (t ∷ ts) = loaded fl lawful l t ∷ loads (loaded fl lawful l t) ts

    tuples-newline :
        (f : ℕ) (l : Tuple Float) (s : Bytes) → tuples fl f l (10 ∷ s) ≡ tuples fl f l s
    unfolding tuples
    tuples-newline zero l s = refl
    tuples-newline (suc f) l s = rw (read_tuple-newline fl lawful l s) refl

    pub tuples-print_tuples :
        (f : ℕ) (l : Tuple Float) (ts : List (Tuple Float))
        → All (IsTuple fl) ts
        → length l.v_value2 ≡ max_vec
        → length ts < f
        → tuples fl f l (print_all (print_tuple fl) ts) ≡ done (loads l ts)
    unfolding tuples
    tuples-print_tuples zero l ts v room h = absurd (omega arith)
    tuples-print_tuples (suc f) l [] v room h = rw (read_tuple-nil fl lawful l) refl
    tuples-print_tuples (suc f) l (t ∷ ts) (vt, v) room h =
        rw
          (
            read_tuple_lem fl lawful t l (print_all (print_tuple fl) ts) vt room,
            tuples-newline f (loaded fl lawful l t) (print_all (print_tuple fl) ts),
            tuples-print_tuples f (loaded fl lawful l t) ts v (length-loaded l t vt room)
                (omega arith),
          )
          refl

    find_key-newline :
        (key : ℤ) (f : ℕ) (l : Tuple Float) (s : Bytes)
        → find_key fl key f l (10 ∷ s) ≡ find_key fl key f l s
    unfolding find_key
    find_key-newline key zero l s = refl
    find_key-newline key (suc f) l s = rw (read_tuple-newline fl lawful l s) refl

    -- What a search says, and the variables it leaves.
    abbrev pub Found : Option (Tuple Float) → Bool × Tuple Float → Type 0
    Found none (there, l) = there ≡ false
    Found (some t) (there, l) =
        (there ≡ true)
        × (before : Tuple Float) × (length before.v_value2 ≡ max_vec)
        × (l ≡ loaded fl lawful before t)

    pub find_key_lem :
        (key : ℤ) (f : ℕ) (l : Tuple Float) (ts : List (Tuple Float))
        → All (IsTuple fl) ts
        → length l.v_value2 ≡ max_vec
        → length ts < f
        → (r : Bool × Tuple Float) × (find_key fl key f l (print_all (print_tuple fl) ts) ≡ done r)
          × Found (lookup key ts) r
    unfolding find_key lookup
    find_key_lem key zero l ts v room h = absurd (omega arith)
    find_key_lem key (suc f) l [] v room h =
        ((false, l), rw (read_tuple-nil fl lawful l) refl, refl)
    find_key_lem key (suc f) l (t ∷ ts) (vt, v) room h =
        let next = loaded fl lawful l t in
        let (r, run, found) =
          find_key_lem key f next ts v (length-loaded l t vt room) (omega arith) in
        elim (Bool-cases (int_eq t.key key)) [
          | inl e ↦ (
            (true, next),
            rw (read_tuple_lem fl lawful t l (print_all (print_tuple fl) ts) vt room, e) refl,
            rw e (refl, l, room, refl),
          )
          | inr e ↦ (
            r,
            rw
                (
                  read_tuple_lem fl lawful t l (print_all (print_tuple fl) ts) vt room,
                  e,
                  find_key-newline key f next (print_all (print_tuple fl) ts),
                  run,
                )
                refl,
            rw e found,
          )
        ]

    print_vector-rounded : (vs : List Float) → print_vector fl (map rounded vs) ≡ print_vector fl vs
    print_vector-rounded [] = refl
    print_vector-rounded (v ∷ vs) = rw (lawful.print-rounded v, print_vector-rounded vs) refl

    -- A tuple that has been read is written as it stood.
    pub write_tuple-loaded :
        (l t : Tuple Float)
        → IsTuple fl t
        → write_tuple fl (loaded fl lawful l t) ≡ done (print_tuple fl t)
    unfolding write_tuple print_tuple
    write_tuple-loaded l t v =
        let e : write_vector fl (length t.v_value2)
              (map rounded t.v_value2 ++ drop (length t.v_value2) l.v_value2)
            ≡ done (print_vector fl t.v_value2) =
          rw (length-map rounded t.v_value2, print_vector-rounded t.v_value2) at
            (write_vector_lem fl (map rounded t.v_value2) (drop (length t.v_value2) l.v_value2)) in
        rw (v.counted, e) refl
