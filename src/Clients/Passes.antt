-- ===== src/Clients/Passes.antt =====
-- The test clients find nothing wrong, over any implementation of the operations.
use trabajos_sistemas_distri.Base.{
  Bool, true, false, not, ◌&&◌, ◌||◌, List, [], ◌∷◌, ◌++◌, ◌==◌, ◌≡◌, refl, any, map, Bytes, codes,
  pos,
}
use trabajos_sistemas_distri.Stdio.Run.{Run, done}
use trabajos_sistemas_distri.Stdio.Decimal.{is_space, print_int}
use trabajos_sistemas_distri.Claves.Floats.{Floats}
use trabajos_sistemas_distri.Claves.Tuples.{Tuple}
use trabajos_sistemas_distri.Claves.Tuples.Loops.{has_key, lookup}
use trabajos_sistemas_distri.Claves.Store.Holds.{without}
use trabajos_sistemas_distri.Rpc.Proxy.{Outcome, returned}
use trabajos_sistemas_distri.Clients.Program.{Request, Answer, Printed, text, number, run}
use trabajos_sistemas_distri.Clients.Contract.{serve, exact, run_on, IsStore, GivesOn}
use trabajos_sistemas_distri.Clients.Allowed.{allowed_on, run-returns}
use trabajos_sistemas_distri.Clients.Checks.{prints_vector}
use trabajos_sistemas_distri.Clients.Values.{set_0, set_1, set_3, mod_0, mod_2, five, six}
use trabajos_sistemas_distri.Clients.Tester.{app_cliente, app_cliente_1}

abbrev pub starts_with : Bytes → Bytes → Bool
starts_with [] s = true
starts_with (c ∷ w) [] = false
starts_with (c ∷ w) (d ∷ s) = c == d && starts_with w s

unfoldable pub contains : Bytes → Bytes → Bool
contains w [] = starts_with w []
contains w (c ∷ s) = starts_with w (c ∷ s) || contains w s

module _ {F : Type 0} where
  -- A text that speaks of an error, and does not say that it is right to.
  unfoldable pub is_complaint : Printed F → Bool
  unfolding contains
  is_complaint (text s) = contains (codes "rror") s && not (contains (codes "orrecto") s)
  is_complaint (number v) = false

  unfoldable pub numbers : List (Printed F) → List F
  numbers [] = []
  numbers (text s ∷ out) = numbers out
  numbers (number v ∷ out) = v ∷ numbers out

module _ (fl : Floats) where
  open fl use {Float}

  app_cliente_allowed : (ts : List (Tuple Float)) → allowed_on fl (app_cliente fl) ts ≡ true
  unfolding allowed_on serve app_cliente prints_vector is_space has_key lookup without
  app_cliente_allowed ts = refl

  app_cliente_1_allowed : (ts : List (Tuple Float)) → allowed_on fl (app_cliente_1 fl) ts ≡ true
  unfolding allowed_on serve app_cliente_1 prints_vector is_space has_key lookup without
  app_cliente_1_allowed ts = refl

  -- What is left in the store: the keys 2, 4 and 3, the last one modified.
  abbrev pub left_behind : List (Tuple Float)
  left_behind = exact fl (set_1 fl (five fl)) ∷ set_3 fl ∷ mod_2 fl ∷ []

  abbrev pub left_behind_1 : List (Tuple Float)
  left_behind_1 = exact fl (set_1 fl (six fl)) ∷ set_3 fl ∷ mod_2 fl ∷ []

  -- The components that a client expects to see.
  abbrev pub seen : List Float → List Float
  seen vs =
      map fl.rounded (set_0 fl).v_value2
      ++ (map fl.rounded vs
          ++ (map fl.rounded (mod_0 fl).v_value2 ++ map fl.rounded (mod_2 fl).v_value2))

  app_cliente_on :
      (ts : List (Tuple Float))
      → (any is_complaint (run_on fl (app_cliente fl) ts).0 ≡ false)
        × (numbers (run_on fl (app_cliente fl) ts).0 ≡ seen (five fl))
        × ((run_on fl (app_cliente fl) ts).1 ≡ (pos 0, left_behind))
  unfolding run_on serve app_cliente is_complaint numbers prints_vector print_int has_key lookup
      without
  app_cliente_on ts = (refl, refl, refl)

  app_cliente_1_on :
      (ts : List (Tuple Float))
      → (any is_complaint (run_on fl (app_cliente_1 fl) ts).0 ≡ false)
        × (numbers (run_on fl (app_cliente_1 fl) ts).0
            ≡ seen (exact fl (set_1 fl (six fl))).v_value2)
        × ((run_on fl (app_cliente_1 fl) ts).1 ≡ (pos 0, left_behind_1))
  unfolding run_on serve app_cliente_1 is_complaint numbers prints_vector print_int has_key lookup
      without
  app_cliente_1_on ts = (refl, refl, refl)

  module _ {S : Type 0} (Fit : Tuple Float → Type 0)
      (operation : (r : Request Float) → S → Run (Outcome (Answer r × S)))
      (Holds : List (Tuple Float) → S → Type 0) (store : IsStore fl Fit operation Holds)
      (ts : List (Tuple Float)) (s : S) (h : Holds ts s) where
    -- Over any implementation of the operations that takes the tuples of the client, on any store,
    -- `main` of app-cliente.c returns 0: nothing that it prints is a complaint, the components that
    -- it sees are those that it set and modified, rounded as `%lf` rounds, and the store holds the
    -- keys 2, 4 and 3 afterwards, the last one modified.
    pub app_cliente-passes :
        GivesOn fl Fit (app_cliente fl) ts
        → (out : List (Printed Float)) × (s' : S) × (run operation (app_cliente fl) s
            ≡ done (out, returned (pos 0, s')))
          × (any is_complaint out ≡ false)
          × (numbers out ≡ seen (five fl))
          × Holds left_behind s'
    app_cliente-passes given =
        let (quiet, right, end) = app_cliente_on ts in
        let (s1, ran, held) =
          run-returns fl Fit operation Holds store ts s h (app_cliente fl) _
            (app_cliente_allowed ts) end given in
        (_, s1, ran, quiet, right, held)

    -- The same of `main` of app-cliente-1.c, over an implementation that takes its tuples; its
    -- vector of five components ends with 33.
    pub app_cliente_1-passes :
        GivesOn fl Fit (app_cliente_1 fl) ts
        → (out : List (Printed Float)) × (s' : S) × (run operation (app_cliente_1 fl) s
            ≡ done (out, returned (pos 0, s')))
          × (any is_complaint out ≡ false)
          × (numbers out ≡ seen (exact fl (set_1 fl (six fl))).v_value2)
          × Holds left_behind_1 s'
    app_cliente_1-passes given =
        let (quiet, right, end) = app_cliente_1_on ts in
        let (s1, ran, held) =
          run-returns fl Fit operation Holds store ts s h (app_cliente_1 fl) _
            (app_cliente_1_allowed ts) end given in
        (_, s1, ran, quiet, right, held)
