-- ===== src/Clients/Lookup.antt =====
-- The tuple that is found for a key.
use trabajos_sistemas_distri.Base.{
  ℕ, zero, suc, ◌≤◌, Bool, true, if◌then◌else◌, false, Option, none, some, List, [], ◌∷◌, ◌++◌, ◌≡◌,
  refl, ap, sym, ◌∙◌, ℤ, int_eq, int_eq_iff, length, map, take, All, arith, Bool-cases, inl, inr,
  ◌⊎◌,
}
use trabajos_sistemas_distri.Stdio.Run.{done}
use trabajos_sistemas_distri.Claves.Floats.{Floats}
use trabajos_sistemas_distri.Claves.Tuples.{rounds, Tuple}
use trabajos_sistemas_distri.Claves.Tuples.Print.{IsTuple}
use trabajos_sistemas_distri.Claves.Tuples.Loops.{has_key, lookup}
use trabajos_sistemas_distri.Rpc.{copy_loop}
use trabajos_sistemas_distri.Clients.Contract.{exact}

pub Option-cases {ℓ} : {A : Type ℓ} (o : Option A) → (o ≡ none) ⊎ ((a : A) × (o ≡ some a))
Option-cases none = inl refl
Option-cases (some a) = inr (a, refl)

take-rounded {ℓ} :
    {A : Type ℓ} (f : A → A) (vs more : List A) → take (length vs) (map f vs ++ more) ≡ map f vs
take-rounded f [] more = refl
take-rounded f (v ∷ vs) more = rw (take-rounded f vs more) refl

module _ (fl : Floats) where
  open fl use {Float, rounded}

  -- What all tuples of a list have, the one that is found has, and it has the key.
  pub lookup-All :
      (P : Tuple Float → Type 0) (key : ℤ) (t : Tuple Float) (ts : List (Tuple Float))
      → All P ts
      → lookup fl key ts ≡ some t
      → P t × (t.key ≡ key)
  unfolding lookup
  lookup-All P key t [] v e = cc
  lookup-All P key t (u ∷ ts) (vu, v) e = elim (Bool-cases (int_eq u.key key)) [
    | inl there ↦
        let same : u ≡ t = ap (λ o. elim o [ some w ↦ w | none ↦ u ]) (rw there at e) in
        rw (← same) (vu, (int_eq_iff u.key key).0 there)
    | inr other ↦ lookup-All P key t ts v (rw other at e)
  ]

  pub if-All :
      (P : Tuple Float → Type 0) (b : Bool) (ts us : List (Tuple Float))
      → All P ts
      → All P us
      → All P (if b then ts else us)
  if-All P true ts us v w = v
  if-All P false ts us v w = w

  pub lookup-IsTuple :
      (key : ℤ) (t : Tuple Float) (ts : List (Tuple Float))
      → All (IsTuple fl) ts
      → lookup fl key ts ≡ some t
      → IsTuple fl t × (t.key ≡ key)
  lookup-IsTuple = lookup-All (IsTuple fl)

  pub has_key-lookup :
      (key : ℤ) (ts : List (Tuple Float)) → lookup fl key ts ≡ none → has_key fl key ts ≡ false
  unfolding lookup has_key
  has_key-lookup key [] e = refl
  has_key-lookup key (t ∷ ts) e = elim (Bool-cases (int_eq t.key key)) [
    | inl there ↦ absurd (ground arith)
    | inr other ↦ rw other (has_key-lookup key ts (rw other at e))
  ]

  -- A tuple that has been read over the variables of a client, as the client looks at it.
  pub exact-read :
      (key : ℤ) (t : Tuple Float) (more : List Float)
      → IsTuple fl t
      → t.key ≡ key
      → exact fl (record t { key = key; v_value2 = map rounded t.v_value2 ++ more })
        ≡ record t { v_value2 = map rounded t.v_value2 }
  exact-read key t more v k =
      ap (λ n. record t { key = key; v_value2 = take (rounds n) (map rounded t.v_value2 ++ more) })
        v.counted
      ∙ (ap (λ vs. record t { key = key; v_value2 = vs }) (take-rounded rounded t.v_value2 more)
          ∙ ap (λ x. record t { key = x; v_value2 = map rounded t.v_value2 }) (sym k))

  pub copy_loop-ends :
      (n : ℕ) (xs ys : List Float)
      → n ≤ length xs
      → n ≤ length ys
      → (zs : List Float) × (copy_loop fl n xs ys ≡ done zs) × (length zs ≡ length ys)
  unfolding copy_loop
  copy_loop-ends zero xs ys h k = (ys, refl, refl)
  copy_loop-ends (suc n) [] ys h k = absurd (omega arith)
  copy_loop-ends (suc n) (x ∷ xs) [] h k = absurd (omega arith)
  copy_loop-ends (suc n) (x ∷ xs) (y ∷ ys) h k =
      let (zs, ran, l) = copy_loop-ends n xs ys (omega arith) (omega arith) in
      (x ∷ zs, rw ran refl, omega arith)
