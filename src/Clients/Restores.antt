-- ===== src/Clients/Restores.antt =====
-- What the second to the fourth client of exercise 1, which run beside the first, find on any
-- store.
use trabajos_sistemas_distri.Base.{
  true, List, [], ◌∷◌, ◌++◌, ◌≡◌, refl, any, pos, Bool-cases, inl, inr, ◌∙◌,
}
use trabajos_sistemas_distri.Stdio.Run.{Run, done}
use trabajos_sistemas_distri.Stdio.Decimal.{is_space, print_int}
use trabajos_sistemas_distri.Claves.Floats.{Floats}
use trabajos_sistemas_distri.Claves.Tuples.{Tuple}
use trabajos_sistemas_distri.Claves.Tuples.Loops.{has_key}
use trabajos_sistemas_distri.Claves.Store.Holds.{without}
use trabajos_sistemas_distri.Rpc.Proxy.{Outcome, returned}
use trabajos_sistemas_distri.Clients.Program.{Request, delete_key, Answer, Printed, run}
use trabajos_sistemas_distri.Clients.Contract.{serve, run_on, IsStore, GivesOn}
use trabajos_sistemas_distri.Clients.Allowed.{allowed_on, run-returns}
use trabajos_sistemas_distri.Clients.Passes.{is_complaint}
use trabajos_sistemas_distri.Clients.Short.{v_client, given, sets_and_deletes}
use trabajos_sistemas_distri.Clients.Calls.{
  without-absent, without-append, has_key-append_self, set_absent, set_there, delete_there,
}

module _ (fl : Floats) where
  open fl use {Float}

  -- Exercise 1: the client finds something wrong exactly if the key 2 is there, and it is not there
  -- afterwards.
  sets_and_deletes_on :
      (ts : List (Tuple Float))
      → (allowed_on fl (sets_and_deletes fl) ts ≡ true)
        × (any is_complaint (run_on fl (sets_and_deletes fl) ts).0 ≡ has_key fl (pos 2) ts)
        × ((run_on fl (sets_and_deletes fl) ts).1 ≡ (pos 0, without fl (pos 2) ts))
  unfolding run_on allowed_on sets_and_deletes is_complaint print_int is_space
  sets_and_deletes_on ts =
      let v = v_client fl in
      elim (Bool-cases (has_key fl (pos 2) ts)) [
        | inl e ↦
            let s1 = set_there fl v ts refl refl e in
            let s2 = delete_there fl (pos 2) ts e in
            (rw (s1, s2) refl, rw (s1, e) refl, rw (run_on, s1, s2) refl)
        | inr e ↦
            let s1 = set_absent fl v ts refl refl e in
            let s2 : serve fl (delete_key (pos 2)) (ts ++ v ∷ []) ≡ (pos 0, ts) =
              delete_there fl (pos 2) (ts ++ v ∷ []) (has_key-append_self fl v ts)
              ∙ rw (without-append fl v ts e) refl in
            (
              rw (s1, s2) refl,
              rw (s1, s2, e) refl,
              rw (run_on, s1, s2, without-absent fl (pos 2) ts e) refl,
            )
      ]

  module _ {S : Type 0} (Fit : Tuple Float → Type 0)
      (operation : (r : Request Float) → S → Run (Outcome (Answer r × S)))
      (Holds : List (Tuple Float) → S → Type 0) (store : IsStore fl Fit operation Holds)
      (ts : List (Tuple Float)) (s : S) (h : Holds ts s) where
    -- Over any implementation of the operations that takes the tuple of the client, `main` of the
    -- second to the fourth client of exercise 1 returns 0 and leaves the store without the key 2,
    -- and as it was otherwise; it prints a complaint exactly if the key was there.
    pub sets_and_deletes-restores :
        GivesOn fl Fit (sets_and_deletes fl) ts
        → (out : List (Printed Float)) × (s' : S) × (run operation (sets_and_deletes fl) s
            ≡ done (out, returned (pos 0, s')))
          × (any is_complaint out ≡ has_key fl (pos 2) ts)
          × Holds (without fl (pos 2) ts) s'
    sets_and_deletes-restores given =
        let (ok, told, end) = sets_and_deletes_on ts in
        let (s1, run1, held) =
          run-returns fl Fit operation Holds store ts s h (sets_and_deletes fl) _ ok end given in
        (_, s1, run1, told, held)
