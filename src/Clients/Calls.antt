-- ===== src/Clients/Calls.antt =====
-- What single calls do on a list of tuples, for a key that is there and for one that is not.
use trabajos_sistemas_distri.Base.{
  Bool, true, false, List, [], ◌∷◌, ◌++◌, ◌≡◌, refl, map, if◌then◌else◌, ℤ, pos, int_eq, int_eq_iff,
  arith, Bool-cases, inl, inr, some, minus_one,
}
use trabajos_sistemas_distri.Claves.Floats.{Floats}
use trabajos_sistemas_distri.Claves.Tuples.{Tuple}
use trabajos_sistemas_distri.Claves.Tuples.Loops.{has_key}
use trabajos_sistemas_distri.Claves.Store.Holds.{without, lookup-append}
use trabajos_sistemas_distri.Clients.Program.{exist, set_value, modify_value, delete_key, get_value}
use trabajos_sistemas_distri.Clients.Contract.{serve, exact, is_rejected}

module _ (fl : Floats) where
  open fl use {Float}

  pub without-absent :
      (key : ℤ) (ts : List (Tuple Float)) → has_key fl key ts ≡ false → without fl key ts ≡ ts
  unfolding without has_key
  without-absent key [] h = refl
  without-absent key (t ∷ ts) h = elim (Bool-cases (int_eq t.key key)) [
    | inl e ↦ absurd (ground arith)
    | inr e ↦ rw (e, without-absent key ts (rw e at h)) refl
  ]

  pub without-append :
      (t : Tuple Float) (ts : List (Tuple Float))
      → has_key fl t.key ts ≡ false
      → without fl t.key (ts ++ t ∷ []) ≡ ts
  unfolding without has_key
  without-append t [] h = rw ((int_eq_iff t.key t.key).1 refl) refl
  without-append t (u ∷ ts) h = elim (Bool-cases (int_eq u.key t.key)) [
    | inl e ↦ absurd (ground arith)
    | inr e ↦ rw (e, without-append t ts (rw e at h)) refl
  ]

  pub has_key-append_self :
      (t : Tuple Float) (ts : List (Tuple Float)) → has_key fl t.key (ts ++ t ∷ []) ≡ true
  unfolding has_key
  has_key-append_self t [] = rw ((int_eq_iff t.key t.key).1 refl) refl
  has_key-append_self t (u ∷ ts) = ground (arith, has_key-append_self t ts)

  -- What single calls do on a list, where the key is there and where it is not.
  module _ (u : Tuple Float) (ts : List (Tuple Float)) (sound : is_rejected fl u ≡ false)
      (whole : exact fl u ≡ u) where
    pub set_absent : has_key fl u.key ts ≡ false → serve fl (set_value u) ts ≡ (pos 0, ts ++ u ∷ [])
    unfolding serve
    set_absent e = rw (sound, e, whole) refl

    pub set_there : has_key fl u.key ts ≡ true → serve fl (set_value u) ts ≡ (minus_one, ts)
    unfolding serve
    set_there e = rw (sound, e) refl

    pub modify_there :
        has_key fl u.key ts ≡ true
        → serve fl (modify_value u) ts ≡ (pos 0, without fl u.key ts ++ u ∷ [])
    unfolding serve
    modify_there e = rw (sound, e, whole) refl

  module _ (key : ℤ) (ts : List (Tuple Float)) where
    pub delete_there :
        has_key fl key ts ≡ true → serve fl (delete_key key) ts ≡ (pos 0, without fl key ts)
    unfolding serve
    delete_there e = rw e refl

    pub exist_is :
        (b : Bool)
        → has_key fl key ts ≡ b
        → serve fl (exist key) ts ≡ (if b then pos 1 else pos 0, ts)
    unfolding serve
    exist_is b e = rw e refl

  pub get_last :
      (u : Tuple Float) (ts : List (Tuple Float))
      → has_key fl u.key ts ≡ false
      → serve fl (get_value u.key) (ts ++ u ∷ [])
        ≡ (some (record u { v_value2 = map fl.rounded u.v_value2 }), ts ++ u ∷ [])
  unfolding serve
  get_last u ts e = rw (lookup-append fl u ts e) refl
