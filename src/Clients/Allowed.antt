-- ===== src/Clients/Allowed.antt =====
-- A test of the arguments of a call, and of all calls of a program, that can be computed.
use trabajos_sistemas_distri.Base.{
  suc, ◌<◌, ◌^◌, Bool, true, false, not, ◌&&◌, ◌||◌, List, [], ◌∷◌, ◌≡◌, ◌≢◌, refl, any, Bytes, ltb,
  ltb→lt, ℤ, pos, negsuc, IsInt, int_eq, int_eq_iff, length, All, arith, Bool-cases, inl, inr,
}
use trabajos_sistemas_distri.Stdio.Decimal.{is_space}
use trabajos_sistemas_distri.Stdio.Scan.Laws.{IsWord}
use trabajos_sistemas_distri.Claves.Floats.{Floats}
use trabajos_sistemas_distri.Claves.Tuples.{max_str, max_vec, Tuple}
use trabajos_sistemas_distri.Claves.Tuples.Print.{IsTuple}
use trabajos_sistemas_distri.Clients.Program.{
  Request, Answer, run, destroy, exist, set_value, modify_value, delete_key, get_value, Program,
  pure, print, call,
}
use trabajos_sistemas_distri.Clients.Contract.{
  exact, is_rejected, serve, Acceptable, rejected, fits, Allowed, AllowedOn, run_on, IsStore,
  GivesOn, run-run_on,
}
use trabajos_sistemas_distri.Stdio.Run.{Run, done}
use trabajos_sistemas_distri.Rpc.Proxy.{Outcome, returned}

pub and_true : (a b : Bool) → (a && b) ≡ true → (a ≡ true) × (b ≡ true)
and_true true b h = (refl, h)
and_true false b h = absurd (ground arith)

abbrev in_int : ℤ → Bool
in_int (pos n) = ltb n (2 ^ 31)
in_int (negsuc n) = ltb n (2 ^ 31)

in_int-IsInt : (z : ℤ) → in_int z ≡ true → IsInt z
in_int-IsInt (pos n) h = ltb→lt n (2 ^ 31) h
in_int-IsInt (negsuc n) h = ltb→lt n (2 ^ 31) h

abbrev is_word : Bytes → Bool
is_word w = ltb 0 (length w) && (not (any is_space w) && ltb (length w) max_str)

no_blank : (s : Bytes) → not (any is_space s) ≡ true → All (λ c. is_space c ≡ false) s
no_blank [] h = tt
no_blank (c ∷ s) h = ground (arith, no_blank s)

not_nil : (w : Bytes) → 0 < length w → w ≢ []
not_nil [] h = absurd (omega arith)
not_nil (c ∷ w) h = λ e. cc

is_word-IsWord : (w : Bytes) → is_word w ≡ true → IsWord max_str w
is_word-IsWord w h =
    let (a, h1) = and_true _ _ h in
    let (b, c) = and_true _ _ h1 in
    record {
      ne_nil = not_nil w (ltb→lt 0 (length w) a);
      no_space = no_blank w b;
      fits = ltb→lt (length w) max_str c;
    }

module _ (fl : Floats) where
  open fl use {Float}

  abbrev fine : Tuple Float → Bool
  fine u =
      in_int u.key
      && (is_word u.value1
          && (int_eq u.n_value2 (pos (length u.v_value2))
              && (ltb 0 (length u.v_value2)
                  && (ltb (length u.v_value2) (suc max_vec)
                      && (in_int u.value3.x && in_int u.value3.y)))))

  fine-IsTuple : (u : Tuple Float) → fine u ≡ true → IsTuple fl u × (0 < length u.v_value2)
  fine-IsTuple u h =
      let (k, h1) = and_true _ _ h in
      let (w, h2) = and_true _ _ h1 in
      let (n, h3) = and_true _ _ h2 in
      let (p, h4) = and_true _ _ h3 in
      let (l, h5) = and_true _ _ h4 in
      let (x, y) = and_true _ _ h5 in
      let less = ltb→lt (length u.v_value2) (suc max_vec) l in
      (
        record {
          key = in_int-IsInt u.key k;
          value1 = is_word-IsWord u.value1 w;
          counted = (int_eq_iff u.n_value2 (pos (length u.v_value2))).0 n;
          fits = omega arith;
          x = in_int-IsInt u.value3.x x;
          y = in_int-IsInt u.value3.y y;
        },
        ltb→lt 0 (length u.v_value2) p,
      )

  abbrev acceptable : Tuple Float → Bool
  acceptable u = is_rejected fl u || fine (exact fl u)

  or_Acceptable : (u : Tuple Float) → acceptable u ≡ true → Acceptable fl u
  or_Acceptable u h = elim (Bool-cases (is_rejected fl u)) [
    | inl e ↦ rejected e
    | inr e ↦ let (v, p) = fine-IsTuple (exact fl u) (rw e at h) in fits v p
  ]

  abbrev allowed : Request Float → Bool
  allowed destroy = true
  allowed (exist key) = in_int key
  allowed (set_value u) = acceptable u
  allowed (modify_value u) = acceptable u
  allowed (delete_key key) = in_int key
  allowed (get_value key) = in_int key

  allowed-Allowed : (r : Request Float) → allowed r ≡ true → Allowed fl r
  allowed-Allowed destroy h = tt
  allowed-Allowed (exist key) h = in_int-IsInt key h
  allowed-Allowed (set_value u) h = or_Acceptable u h
  allowed-Allowed (modify_value u) h = or_Acceptable u h
  allowed-Allowed (delete_key key) h = in_int-IsInt key h
  allowed-Allowed (get_value key) h = in_int-IsInt key h

  unfoldable pub allowed_on : {A : Type 0} → Program Float A → List (Tuple Float) → Bool
  allowed_on (pure a) ts = true
  allowed_on (print s p) ts = allowed_on p ts
  allowed_on (call r k) ts = allowed r && allowed_on (k (serve fl r ts).0) (serve fl r ts).1

  pub allowed_on-AllowedOn :
      {A : Type 0} (p : Program Float A) (ts : List (Tuple Float))
      → allowed_on p ts ≡ true
      → AllowedOn fl p ts
  unfolding allowed_on
  allowed_on-AllowedOn (pure a) ts h = tt
  allowed_on-AllowedOn (print s p) ts h = allowed_on-AllowedOn p ts h
  allowed_on-AllowedOn (call r k) ts h =
      let (a, b) = and_true _ _ h in
      (allowed-Allowed r a, allowed_on-AllowedOn (k (serve fl r ts).0) (serve fl r ts).1 b)

  module _ {S : Type 0} (Fit : Tuple Float → Type 0)
      (operation : (r : Request Float) → S → Run (Outcome (Answer r × S)))
      (Holds : List (Tuple Float) → S → Type 0) (store : IsStore fl Fit operation Holds)
      (ts : List (Tuple Float)) (s : S) (h : Holds ts s) where
    -- A program that returns on the list returns over the implementation.
    pub run-returns :
        (p : Program Float ℤ) (ts' : List (Tuple Float))
        → allowed_on p ts ≡ true
        → (run_on fl p ts).1 ≡ (pos 0, ts')
        → GivesOn fl Fit p ts
        → (s' : S) × (run operation p s ≡ done ((run_on fl p ts).0, returned (pos 0, s')))
          × Holds ts' s'
    run-returns p ts' ok end given =
        let (s1, run1, held) =
          run-run_on fl Fit operation Holds store p ts s (allowed_on-AllowedOn p ts ok) given h in
        (s1, rw end at run1, rw end at held)
