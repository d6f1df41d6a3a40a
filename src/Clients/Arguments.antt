-- ===== src/Clients/Arguments.antt =====
-- The arguments of a call, as the tuple that they stand for at the beginning of a longer array.
use trabajos_sistemas_distri.Base.{
  ℕ, zero, suc, ◌≤◌, ◌<◌, ◌||◌, Bool, true, false, List, [], ◌∷◌, ◌++◌, ◌≡◌, refl, ap, ltb,
  if◌then◌else◌, ℤ, pos, negsuc, minus_one, int_eq, length, take, drop, arith,
}
use trabajos_sistemas_distri.Claves.Floats.{Floats}
use trabajos_sistemas_distri.Claves.Tuples.{max_str, max_vec, rounds, Tuple}
use trabajos_sistemas_distri.Claves.Tuples.Print.{IsTuple}
use trabajos_sistemas_distri.Sock.Proxy.{is_value1_valid, is_n_value2_valid, invalid}
use trabajos_sistemas_distri.Claves.Tuples.Print.{arguments}
use trabajos_sistemas_distri.Clients.Contract.{out_of_range, exact, is_rejected}

take-drop {ℓ} : {A : Type ℓ} (n : ℕ) (xs : List A) → take n xs ++ drop n xs ≡ xs
take-drop zero xs = refl
take-drop (suc n) [] = refl
take-drop (suc n) (x ∷ xs) = rw (take-drop n xs) refl

counted-in_range : (n : ℤ) (k : ℕ) → n ≡ pos k → 0 < k → k ≤ max_vec → out_of_range n ≡ false
counted-in_range (pos n) k e p h = ground arith
counted-in_range (negsuc n) k e p h = absurd (ground arith)

-- A test that fails in either of the functions of the proxy fails in the caller.
left_or :
    (a b : Bool) (left1 left2 : ℤ)
    → int_eq left1 minus_one ≡ false
    → (a || b) ≡ true
    → (int_eq (if a then minus_one else left1) minus_one
        || int_eq (if b then minus_one else left2) minus_one)
      ≡ true
left_or true b left1 left2 h e = refl
left_or false true left1 left2 h e = rw h refl
left_or false false left1 left2 h e = cc

module _ (fl : Floats) (u : Tuple fl.Float) where
  -- The rest of the array.
  abbrev pub spare : List fl.Float
  spare = drop (rounds u.n_value2) u.v_value2

  pub arguments-exact : arguments fl (exact fl u) spare ≡ u
  arguments-exact = ap (λ vs. record u { v_value2 = vs }) (take-drop (rounds u.n_value2) u.v_value2)

  pub fits-not_rejected :
      IsTuple fl (exact fl u) → 0 < length (exact fl u).v_value2 → is_rejected fl u ≡ false
  fits-not_rejected v p =
      rw (counted-in_range u.n_value2 _ v.counted p v.fits) (ground (arith, v.value1.fits))

  pub rejected-invalid :
      (left1 left2 : ℤ)
      → int_eq left1 minus_one ≡ false
      → is_rejected fl u ≡ true
      → invalid fl left1 left2 u ≡ true
  unfolding is_value1_valid is_n_value2_valid
  rejected-invalid left1 left2 h e =
      left_or (ltb max_str (length u.value1)) (out_of_range u.n_value2) left1 left2 h e
