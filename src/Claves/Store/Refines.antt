-- ===== src/Claves/Store/Refines.antt =====
-- Each operation of claves.c as the operation on the list of tuples that data.txt holds.
use trabajos_sistemas_distri.Base.{
  ◌<◌, true, List, [], ◌∷◌, ◌++◌, ◌≡◌, refl, subst, if◌then◌else◌, codes, str_eq, ℤ, pos, minus_one,
  length, All, All-append, arith, Bool-cases, inl, inr,
}
use trabajos_sistemas_distri.Stdio.Run.{done}
use trabajos_sistemas_distri.Stdio.Scan.Laws.{print_all}
use trabajos_sistemas_distri.Stdio.Disk.{Disk, open_read}
use trabajos_sistemas_distri.Stdio.Disk.Laws.{
  emptied, open_write_granted, replace_file_lem, append_file_lem,
}
use trabajos_sistemas_distri.Claves.Floats.{Floats, IsLawful}
use trabajos_sistemas_distri.Claves.Tuples.{max_vec, Tuple, write_tuple}
use trabajos_sistemas_distri.Claves.Tuples.Print.{IsTuple, print_tuple, write_tuple_lem}
use trabajos_sistemas_distri.Claves.Tuples.Loops.{
  lookup, has_key, tuples-print_tuples, Found, find_key_lem,
}
use trabajos_sistemas_distri.Claves.Store.{
  data_file, destroy, exist, delete_present, delete_key, append_tuple, set_value, get_value,
  modify_value,
}
use trabajos_sistemas_distri.Claves.Store.Holds.{
  without, Holds, DistinctKeys, All-without, DistinctKeys-without, DistinctKeys-append,
  has_key-without_self, fuel, print_all-append, tuples_written, tuples_rewritten, keep_loop_lem,
  Found-there,
}

module _ (fl : Floats) where
  open fl use {Float}

  -- Where the files can be read and written, `destroy` leaves an empty store, whatever was there,
  -- and returns 0.
  pub destroy_lem :
      (d : Disk)
      → d.readable data_file ≡ true
      → d.writable data_file ≡ true
      → d.writable (codes "temp.txt") ≡ true
      → (d' : Disk) × (destroy d ≡ (pos 0, d')) × Holds fl [] d'
  unfolding destroy str_eq
  destroy_lem d r w t = (
    emptied data_file d,
    rw (open_write_granted data_file d w) refl,
    record { file = refl; valid = tt; distinct = tt; readable = r; writable = w; temp = t },
  )

  Holds-written :
      (ts ts' : List (Tuple Float)) (d : Disk)
      → Holds fl ts d
      → All (IsTuple fl) ts'
      → DistinctKeys fl ts'
      → Holds fl ts' (tuples_written fl ts' d)
  unfolding str_eq
  Holds-written ts ts' d h v n = record {
    file = refl;
    valid = v;
    distinct = n;
    readable = h.readable;
    writable = h.writable;
    temp = h.temp;
  }

  Holds-rewritten :
      (ts ts' : List (Tuple Float)) (d : Disk)
      → Holds fl ts d
      → All (IsTuple fl) ts'
      → DistinctKeys fl ts'
      → Holds fl ts' (tuples_rewritten fl ts' d)
  unfolding str_eq
  Holds-rewritten ts ts' d h v n = record {
    file = refl;
    valid = v;
    distinct = n;
    readable = h.readable;
    writable = h.writable;
    temp = h.temp;
  }

  module _ (lawful : IsLawful fl) (vars : Tuple Float) (room : length vars.v_value2 ≡ max_vec)
      (ts : List (Tuple Float)) (d : Disk) (h : Holds fl ts d) where
    -- `exist` returns 1 exactly if a tuple of that key is stored.
    pub exist_lem : (key : ℤ) → exist fl vars key d ≡ done (has_key fl key ts)
    unfolding exist open_read
    exist_lem key =
        let (r, run, found) = find_key_lem fl lawful key _ vars ts h.valid room (fuel fl ts) in
        rw (h.readable, h.file, run, Found-there fl lawful key ts r found) refl

    -- `get_value` returns 0 and the tuple of that key, its components rounded as `%lf` rounds, or
    -- -1 if there is no such key.
    pub get_value_lem :
        (key : ℤ)
        → (out : Tuple Float) × (get_value fl key vars d
            ≡ done (if has_key fl key ts then pos 0 else minus_one, out))
          × Found fl lawful (lookup fl key ts) (has_key fl key ts, out)
    unfolding get_value open_read
    get_value_lem key =
        let (r, run, found) = find_key_lem fl lawful key _ vars ts h.valid room (fuel fl ts) in
        let e = Found-there fl lawful key ts r found in
        (
          r.1,
          rw (h.readable, h.file, run, e) refl,
          subst (λ there. Found fl lawful (lookup fl key ts) (there, r.1)) e found,
        )

    delete_present_lem :
        (key : ℤ)
        → delete_present fl vars key d ≡ done (pos 0, tuples_rewritten fl (without fl key ts) d)
    unfolding delete_present open_read
    delete_present_lem key =
        rw
          (
            h.readable,
            h.file,
            open_write_granted (codes "temp.txt") d h.temp,
            tuples-print_tuples fl lawful _ vars ts h.valid room (fuel fl ts),
            keep_loop_lem fl lawful key vars ts h.valid,
            replace_file_lem (codes "temp.txt") data_file
                (print_all (print_tuple fl) (without fl key ts)) d (ground arith),
          )
          refl

    -- On a store of tuples, `delete_key` takes the tuple of that key out and returns 0. If there is
    -- none it returns -1 and the store is as it was.
    pub delete_key_lem :
        (key : ℤ)
        → (d' : Disk) × (delete_key fl vars key d
            ≡ done (if has_key fl key ts then pos 0 else minus_one, d'))
          × Holds fl (if has_key fl key ts then without fl key ts else ts) d'
    unfolding delete_key
    delete_key_lem key = elim (Bool-cases (has_key fl key ts)) [
      | inl e ↦ (
        tuples_rewritten fl (without fl key ts) d,
        rw (exist_lem key, e, delete_present_lem key) refl,
        rw e (
            Holds-rewritten ts (without fl key ts) d h (All-without fl (IsTuple fl) key ts h.valid)
              (DistinctKeys-without fl key ts h.distinct)),
      )
      | inr e ↦ (d, rw (exist_lem key, e) refl, rw e h)
    ]

    -- The tuple may stand in a longer array, as long as what is written is its line.
    pub set_value_written :
        (t u : Tuple Float)
        → IsTuple fl t
        → u.key ≡ t.key
        → write_tuple fl u ≡ done (print_tuple fl t)
        → (d' : Disk) × (set_value fl vars u d
            ≡ done (if has_key fl t.key ts then minus_one else pos 0, d'))
          × Holds fl (if has_key fl t.key ts then ts else ts ++ t ∷ []) d'
    unfolding set_value append_tuple
    set_value_written t u v k line =
        let there : exist fl vars u.key d ≡ done (has_key fl t.key ts) = rw k (exist_lem t.key) in
        elim (Bool-cases (has_key fl t.key ts)) [
          | inl e ↦ (d, rw (there, e) refl, rw e h)
          | inr e ↦
              let (d1, opened, written) =
                append_file_lem data_file (print_tuple fl t) (print_all (print_tuple fl) ts) d
                  h.writable h.file in
              (
                tuples_written fl (ts ++ t ∷ []) d,
                rw (there, e, opened, line, written, print_all-append fl ts t) refl,
                rw e (
                    Holds-written ts (ts ++ t ∷ []) d h
                      (All-append (IsTuple fl) ts (t ∷ []) h.valid (v, tt))
                      (DistinctKeys-append fl ts t e h.distinct)),
              )
        ]

    -- `set_value` of a tuple of at most 32 components and a text without blanks adds it at the
    -- end of the store and returns 0. If its key is there already it returns -1 and the store is
    -- as it was.
    pub set_value_lem :
        (t : Tuple Float)
        → IsTuple fl t
        → (d' : Disk) × (set_value fl vars t d
            ≡ done (if has_key fl t.key ts then minus_one else pos 0, d'))
          × Holds fl (if has_key fl t.key ts then ts else ts ++ t ∷ []) d'
    set_value_lem t v = set_value_written t t v refl (write_tuple_lem fl t v)

  module _ (lawful : IsLawful fl) (vars : Tuple Float) (room : length vars.v_value2 ≡ max_vec)
      (ts : List (Tuple Float)) (d : Disk) (h : Holds fl ts d) where
    pub modify_value_written :
        (t u : Tuple Float)
        → IsTuple fl t
        → u.key ≡ t.key
        → write_tuple fl u ≡ done (print_tuple fl t)
        → (d' : Disk) × (modify_value fl vars u d
            ≡ done (if has_key fl t.key ts then pos 0 else minus_one, d'))
          × Holds fl (if has_key fl t.key ts then without fl t.key ts ++ t ∷ [] else ts) d'
    unfolding modify_value
    modify_value_written t u v k line =
        let there : exist fl vars u.key d ≡ done (has_key fl t.key ts) =
          rw k (exist_lem lawful vars room ts d h t.key) in
        elim (Bool-cases (has_key fl t.key ts)) [
          | inr e ↦ (d, rw (there, e) refl, rw e h)
          | inl e ↦
              let (d1, deleted, h1) = delete_key_lem lawful vars room ts d h t.key in
              let gone : delete_key fl vars u.key d ≡ done (pos 0, d1) = rw k (rw e at deleted) in
              let h2 : Holds fl (without fl t.key ts) d1 = rw e at h1 in
              let (d2, set, h3) =
                set_value_written lawful vars room (without fl t.key ts) d1 h2 t u v k line in
              (
                d2,
                rw (there, e, gone, set) refl,
                rw e (rw (has_key-without_self fl t.key ts) at h3),
              )
        ]

    -- On a store of tuples, `modify_value` of a tuple with 1 to 32 components, whose text is a word
    -- of less than 256 characters and whose numbers an `int` holds, takes the tuple of its key out,
    -- adds the new one at the end of the store, and returns 0. If there is none of that key it
    -- returns -1 and the store is as it was.
    pub modify_value_lem :
        (t : Tuple Float)
        → IsTuple fl t
        → 0 < length t.v_value2
        → (d' : Disk) × (modify_value fl vars t d
            ≡ done (if has_key fl t.key ts then pos 0 else minus_one, d'))
          × Holds fl (if has_key fl t.key ts then without fl t.key ts ++ t ∷ [] else ts) d'
    modify_value_lem t v some_values = modify_value_written t t v refl (write_tuple_lem fl t v)
