-- ===== src/Clients/Third.antt =====
-- What app-cliente-3.c of exercises 2 and 3 finds, on any store.
use trabajos_sistemas_distri.Base.{
  true, false, List, [], ◌∷◌, ◌++◌, ◌≡◌, refl, any, map, pos, Bool-cases, inl, inr, some, ◌∙◌,
}
use trabajos_sistemas_distri.Stdio.Run.{Run, done}
use trabajos_sistemas_distri.Stdio.Decimal.{is_space, print_int}
use trabajos_sistemas_distri.Claves.Floats.{Floats}
use trabajos_sistemas_distri.Claves.Tuples.{Tuple}
use trabajos_sistemas_distri.Claves.Tuples.Loops.{has_key, lookup}
use trabajos_sistemas_distri.Claves.Store.Holds.{without, has_key-without_self}
use trabajos_sistemas_distri.Rpc.Proxy.{Outcome, returned}
use trabajos_sistemas_distri.Clients.Program.{
  Request, exist, modify_value, get_value, Answer, Printed, Program, run,
}
use trabajos_sistemas_distri.Clients.Contract.{serve, run_on, IsStore, GivesOn}
use trabajos_sistemas_distri.Clients.Allowed.{allowed_on, run-returns}
use trabajos_sistemas_distri.Clients.Passes.{is_complaint}
use trabajos_sistemas_distri.Clients.Short.{given, changed, app_cliente_3}
use trabajos_sistemas_distri.Clients.Checks.{prints_vector}
use trabajos_sistemas_distri.Clients.Program.{◌>>=◌}
use trabajos_sistemas_distri.Clients.Lookup.{Option-cases, has_key-lookup}
use trabajos_sistemas_distri.Clients.Calls.{
  without-absent, without-append, has_key-append_self, set_absent, set_there, modify_there,
  exist_is, get_last,
}

module _ (fl : Floats) where
  open fl use {Float}

  -- A vector that is printed asks the store for nothing.
  module _ {A : Type 0} (f : Unit {0} → Program Float Unit) (g : Unit {0} → Program Float A)
      (ts : List (Tuple Float)) where
    allowed_on-prints_vector :
        (vs : List Float)
        → allowed_on fl ((prints_vector fl vs >>= f) >>= g) ts ≡ allowed_on fl (f tt >>= g) ts
    unfolding prints_vector allowed_on
    allowed_on-prints_vector [] = refl
    allowed_on-prints_vector (v ∷ vs) = allowed_on-prints_vector vs

    run_on-prints_vector :
        (vs : List Float)
        → (run_on fl ((prints_vector fl vs >>= f) >>= g) ts).1 ≡ (run_on fl (f tt >>= g) ts).1
    unfolding prints_vector run_on
    run_on-prints_vector [] = refl
    run_on-prints_vector (v ∷ vs) = run_on-prints_vector vs

  -- The third client finds something wrong whether its key is there or not.
  app_cliente_3_there :
      (ts : List (Tuple Float)) (t : Tuple Float)
      → has_key fl (pos 100) ts ≡ true
      → serve fl (get_value (pos 100)) ts ≡ (some t, ts)
      → (allowed_on fl (app_cliente_3 fl) ts ≡ true)
        × (any is_complaint (run_on fl (app_cliente_3 fl) ts).0 ≡ true)
        × ((run_on fl (app_cliente_3 fl) ts).1
            ≡ (pos 0, without fl (pos 100) ts ++ changed fl (pos 100) "modificado_cliente3" ∷ []))
  unfolding run_on allowed_on app_cliente_3 is_complaint prints_vector print_int is_space
  app_cliente_3_there ts t e got =
      let u = given fl (pos 100) "cliente3" in
      let w = changed fl (pos 100) "modificado_cliente3" in
      let s1 : serve fl (exist (pos 100)) ts ≡ (pos 1, ts) = exist_is fl (pos 100) ts true e in
      let s2 = set_there fl u ts refl refl e in
      let s4 = modify_there fl w ts refl refl e in
      let s5 = get_last fl w (without fl (pos 100) ts) (has_key-without_self fl (pos 100) ts) in
      (
        rw (s1, s2, got) (allowed_on-prints_vector _ _ ts t.v_value2 ∙ rw (s4, s5) refl),
        rw (s1, s2) refl,
        rw (run_on, s1, s2, got)
            (run_on-prints_vector _ _ ts t.v_value2 ∙ rw (run_on, s4, s5) refl),
      )

  app_cliente_3_absent :
      (ts : List (Tuple Float))
      → has_key fl (pos 100) ts ≡ false
      → (allowed_on fl (app_cliente_3 fl) ts ≡ true)
        × (any is_complaint (run_on fl (app_cliente_3 fl) ts).0 ≡ true)
        × ((run_on fl (app_cliente_3 fl) ts).1
            ≡ (pos 0, without fl (pos 100) ts ++ changed fl (pos 100) "modificado_cliente3" ∷ []))
  unfolding run_on allowed_on app_cliente_3 is_complaint prints_vector print_int is_space
  app_cliente_3_absent ts e =
      let u = given fl (pos 100) "cliente3" in
      let w = changed fl (pos 100) "modificado_cliente3" in
      let s1 : serve fl (exist (pos 100)) ts ≡ (pos 0, ts) = exist_is fl (pos 100) ts false e in
      let s2 = set_absent fl u ts refl refl e in
      let s3 = get_last fl u ts e in
      let s4 : serve fl (modify_value w) (ts ++ u ∷ []) ≡ (pos 0, ts ++ w ∷ []) =
        modify_there fl w (ts ++ u ∷ []) refl refl (has_key-append_self fl u ts)
        ∙ rw (without-append fl u ts e) refl in
      let s5 = get_last fl w ts e in
      (
        rw (s1, s2, s3, s4, s5) refl,
        rw s1 refl,
        rw (run_on, s1, s2, s3, s4, s5, without-absent fl (pos 100) ts e) refl,
      )

  app_cliente_3_on :
      (ts : List (Tuple Float))
      → (allowed_on fl (app_cliente_3 fl) ts ≡ true)
        × (any is_complaint (run_on fl (app_cliente_3 fl) ts).0 ≡ true)
        × ((run_on fl (app_cliente_3 fl) ts).1
            ≡ (pos 0, without fl (pos 100) ts ++ changed fl (pos 100) "modificado_cliente3" ∷ []))
  unfolding serve
  app_cliente_3_on ts = elim (Bool-cases (has_key fl (pos 100) ts)) [
    | inr e ↦ app_cliente_3_absent ts e
    | inl e ↦ elim (Option-cases (lookup fl (pos 100) ts)) [
      | inl l ↦ absurd (cc (has_key-lookup fl (pos 100) ts l))
      | inr (t, l) ↦
          app_cliente_3_there ts (record t { v_value2 = map fl.rounded t.v_value2 }) e (rw l refl)
    ]
  ]

  module _ {S : Type 0} (Fit : Tuple Float → Type 0)
      (operation : (r : Request Float) → S → Run (Outcome (Answer r × S)))
      (Holds : List (Tuple Float) → S → Type 0) (store : IsStore fl Fit operation Holds)
      (ts : List (Tuple Float)) (s : S) (h : Holds ts s) where
    -- Over any implementation of the operations that takes the tuples of the client, on any store,
    -- app-cliente-3.c returns 0 and prints a complaint, and the store has its modified tuple at the
    -- end, in the place of the one of the key 100 if there was one.
    pub app_cliente_3-complains :
        GivesOn fl Fit (app_cliente_3 fl) ts
        → (out : List (Printed Float)) × (s' : S) × (run operation (app_cliente_3 fl) s
            ≡ done (out, returned (pos 0, s')))
          × (any is_complaint out ≡ true)
          × Holds (without fl (pos 100) ts ++ changed fl (pos 100) "modificado_cliente3" ∷ []) s'
    app_cliente_3-complains given =
        let (ok, told, end) = app_cliente_3_on ts in
        let (s1, run1, held) =
          run-returns fl Fit operation Holds store ts s h (app_cliente_3 fl) _ ok end given in
        (_, s1, run1, told, held)
