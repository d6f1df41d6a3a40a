-- ===== src/Clients/Beside.antt =====
-- What app-cliente-2.c and app-cliente-4.c of exercises 2 and 3 find, on any store.
use trabajos_sistemas_distri.Base.{
  append_assoc, true, false, List, [], ◌∷◌, ◌++◌, ◌≡◌, refl, any, map, pos, arith, ◌∙◌,
}
use trabajos_sistemas_distri.Stdio.Run.{Run, done}
use trabajos_sistemas_distri.Stdio.Decimal.{is_space, print_int}
use trabajos_sistemas_distri.Claves.Floats.{Floats}
use trabajos_sistemas_distri.Claves.Tuples.{Tuple}
use trabajos_sistemas_distri.Claves.Tuples.Loops.{has_key}
use trabajos_sistemas_distri.Claves.Store.Holds.{has_key-append}
use trabajos_sistemas_distri.Rpc.Proxy.{Outcome, returned}
use trabajos_sistemas_distri.Clients.Program.{Request, exist, modify_value, Answer, Printed, run}
use trabajos_sistemas_distri.Clients.Contract.{serve, run_on, IsStore, GivesOn}
use trabajos_sistemas_distri.Clients.Allowed.{allowed_on, run-returns}
use trabajos_sistemas_distri.Clients.Passes.{is_complaint, numbers}
use trabajos_sistemas_distri.Clients.Short.{given, changed, app_cliente_2, app_cliente_4}
use trabajos_sistemas_distri.Clients.Checks.{prints_vector}
use trabajos_sistemas_distri.Clients.Calls.{
  without-append, has_key-append_self, set_absent, modify_there, exist_is, get_last,
}

module _ (fl : Floats) where
  open fl use {Float}

  -- The components that a client of exercises 2 and 3 sees: those that it set, and those that it
  -- modified.
  abbrev pub set_and_changed : List Float
  set_and_changed =
      map fl.rounded (given fl (pos 0) "").v_value2
      ++ map fl.rounded (changed fl (pos 0) "").v_value2

  app_cliente_2_on :
      (ts : List (Tuple Float))
      → has_key fl (pos 100) ts ≡ false
      → (allowed_on fl (app_cliente_2 fl) ts ≡ true)
        × (any is_complaint (run_on fl (app_cliente_2 fl) ts).0 ≡ false)
        × (numbers (run_on fl (app_cliente_2 fl) ts).0 ≡ set_and_changed)
        × ((run_on fl (app_cliente_2 fl) ts).1
            ≡ (pos 0, ts ++ changed fl (pos 100) "modificado_cliente2" ∷ []))
  unfolding run_on allowed_on app_cliente_2 is_complaint numbers prints_vector print_int is_space
  app_cliente_2_on ts e =
      let u = given fl (pos 100) "cliente2" in
      let w = changed fl (pos 100) "modificado_cliente2" in
      let s1 : serve fl (exist (pos 100)) ts ≡ (pos 0, ts) = exist_is fl (pos 100) ts false e in
      let s2 = set_absent fl u ts refl refl e in
      let s3 = get_last fl u ts e in
      let s4 : serve fl (modify_value w) (ts ++ u ∷ []) ≡ (pos 0, ts ++ w ∷ []) =
        modify_there fl w (ts ++ u ∷ []) refl refl (has_key-append_self fl u ts)
        ∙ rw (without-append fl u ts e) refl in
      let s5 = get_last fl w ts e in
      (
        rw (s1, s2, s3, s4, s5) refl,
        rw (s1, s2, s3, s4, s5) refl,
        rw (s1, s2, s3, s4, s5) refl,
        rw (run_on, s1, s2, s3, s4, s5) refl,
      )

  app_cliente_4_on :
      (ts : List (Tuple Float))
      → has_key fl (pos 200) ts ≡ false
      → (allowed_on fl (app_cliente_4 fl) ts ≡ true)
        × (any is_complaint (run_on fl (app_cliente_4 fl) ts).0 ≡ false)
        × (numbers (run_on fl (app_cliente_4 fl) ts).0 ≡ set_and_changed)
        × ((run_on fl (app_cliente_4 fl) ts).1
            ≡ (pos 0, ts ++ changed fl (pos 200) "modificado_cliente4" ∷ []))
  unfolding run_on allowed_on app_cliente_4 is_complaint numbers prints_vector print_int is_space
  app_cliente_4_on ts e =
      let u = given fl (pos 200) "cliente4" in
      let w = changed fl (pos 200) "modificado_cliente4" in
      let s1 : serve fl (exist (pos 200)) ts ≡ (pos 0, ts) = exist_is fl (pos 200) ts false e in
      let s2 = set_absent fl u ts refl refl e in
      let s3 = get_last fl u ts e in
      let s4 : serve fl (modify_value w) (ts ++ u ∷ []) ≡ (pos 0, ts ++ w ∷ []) =
        modify_there fl w (ts ++ u ∷ []) refl refl (has_key-append_self fl u ts)
        ∙ rw (without-append fl u ts e) refl in
      let s5 = get_last fl w ts e in
      (
        rw (s1, s2, s3, s4, s5) refl,
        rw (s1, s2, s3, s4, s5) refl,
        rw (s1, s2, s3, s4, s5) refl,
        rw (run_on, s1, s2, s3, s4, s5) refl,
      )

  any-append :
      (xs ys : List (Printed Float))
      → any is_complaint xs ≡ false
      → any is_complaint ys ≡ false
      → any is_complaint (xs ++ ys) ≡ false
  any-append [] ys h k = k
  any-append (x ∷ xs) ys h k = ground (arith, any-append xs ys)

  module _ {S : Type 0} (Fit : Tuple Float → Type 0)
      (operation : (r : Request Float) → S → Run (Outcome (Answer r × S)))
      (Holds : List (Tuple Float) → S → Type 0) (store : IsStore fl Fit operation Holds)
      (ts : List (Tuple Float)) (s : S) (h : Holds ts s) where
    app_cliente_2-passes :
        has_key fl (pos 100) ts ≡ false
        → GivesOn fl Fit (app_cliente_2 fl) ts
        → (out : List (Printed Float)) × (s' : S) × (run operation (app_cliente_2 fl) s
            ≡ done (out, returned (pos 0, s')))
          × (any is_complaint out ≡ false)
          × (numbers out ≡ set_and_changed)
          × Holds (ts ++ changed fl (pos 100) "modificado_cliente2" ∷ []) s'
    app_cliente_2-passes e given =
        let (ok, quiet, right, end) = app_cliente_2_on ts e in
        let (s1, run1, held) =
          run-returns fl Fit operation Holds store ts s h (app_cliente_2 fl) _ ok end given in
        (_, s1, run1, quiet, right, held)

    app_cliente_4-passes :
        has_key fl (pos 200) ts ≡ false
        → GivesOn fl Fit (app_cliente_4 fl) ts
        → (out : List (Printed Float)) × (s' : S) × (run operation (app_cliente_4 fl) s
            ≡ done (out, returned (pos 0, s')))
          × (any is_complaint out ≡ false)
          × (numbers out ≡ set_and_changed)
          × Holds (ts ++ changed fl (pos 200) "modificado_cliente4" ∷ []) s'
    app_cliente_4-passes e given =
        let (ok, quiet, right, end) = app_cliente_4_on ts e in
        let (s1, run1, held) =
          run-returns fl Fit operation Holds store ts s h (app_cliente_4 fl) _ ok end given in
        (_, s1, run1, quiet, right, held)

  module _ {S : Type 0} (Fit : Tuple Float → Type 0)
      (operation : (r : Request Float) → S → Run (Outcome (Answer r × S)))
      (Holds : List (Tuple Float) → S → Type 0) (store : IsStore fl Fit operation Holds)
      (ts : List (Tuple Float)) (s : S) (h : Holds ts s) where
    -- Over any implementation of the operations that takes the tuples of the clients, on a store
    -- without the keys 100 and 200, app-cliente-2.c and after it app-cliente-4.c return 0: neither
    -- prints a complaint, each sees the components that it set and then modified, rounded as `%lf`
    -- rounds, and the store has the two modified tuples at its end.
    pub app_cliente_2-app_cliente_4 :
        has_key fl (pos 100) ts ≡ false
        → has_key fl (pos 200) ts ≡ false
        → GivesOn fl Fit (app_cliente_2 fl) ts
        → GivesOn fl Fit (app_cliente_4 fl) (ts ++ changed fl (pos 100) "modificado_cliente2" ∷ [])
        → (out : List (Printed Float)) × (s' : S) × (out' : List (Printed Float)) × (s'' : S) × (run
              operation
              (app_cliente_2 fl)
              s
            ≡ done (out, returned (pos 0, s')))
          × (run operation (app_cliente_4 fl) s' ≡ done (out', returned (pos 0, s'')))
          × (any is_complaint (out ++ out') ≡ false)
          × (numbers out ≡ set_and_changed)
          × (numbers out' ≡ set_and_changed)
          × Holds
              (ts
                ++ changed fl (pos 100) "modificado_cliente2"
                  ∷ changed fl (pos 200) "modificado_cliente4"
                  ∷ [])
              s''
    app_cliente_2-app_cliente_4 e e' given given' =
        let w = changed fl (pos 100) "modificado_cliente2" in
        let (out, s1, run1, quiet, right, held) =
          app_cliente_2-passes Fit operation Holds store ts s h e given in
        let (out', s2, run2, quiet', right', held') =
          app_cliente_4-passes Fit operation Holds store (ts ++ w ∷ []) s1 held
            (has_key-append fl (pos 200) ts w refl e') given' in
        (
          out,
          s1,
          out',
          s2,
          run1,
          run2,
          any-append out out' quiet quiet',
          right,
          right',
          rw append_assoc at held',
        )
