-- ===== src/Claves/Store/RoundTrip.antt =====
-- A tuple that is set is got back.
use trabajos_sistemas_distri.Base.{
  ◌<◌, false, some, List, [], ◌∷◌, ◌++◌, ◌≡◌, refl, pos, length, take, map, ap, ◌∙◌,
}
use trabajos_sistemas_distri.Stdio.Run.{done}
use trabajos_sistemas_distri.Stdio.Disk.{Disk}
use trabajos_sistemas_distri.Claves.Floats.{Floats, IsLawful}
use trabajos_sistemas_distri.Claves.Tuples.{max_vec, Tuple}
use trabajos_sistemas_distri.Claves.Tuples.Print.{IsTuple}
use trabajos_sistemas_distri.Claves.Tuples.Loops.{has_key, Found}
use trabajos_sistemas_distri.Claves.Store.{set_value, get_value}
use trabajos_sistemas_distri.Claves.Store.Holds.{Holds, lookup-append}
use trabajos_sistemas_distri.Claves.Store.Refines.{set_value_lem, get_value_lem}

take-overlay :
    {A : Type 0} (f : A → A) (vs more : List A) → take (length vs) (map f vs ++ more) ≡ map f vs
take-overlay f [] more = refl
take-overlay f (v ∷ vs) more = rw (take-overlay f vs more) refl

module _ (fl : Floats) where
  open fl use {Float}

  module _ (lawful : IsLawful fl) (vars : Tuple Float) (room : length vars.v_value2 ≡ max_vec)
      (ts : List (Tuple Float)) (d : Disk) (h : Holds fl ts d) where
    -- On a store of tuples, after `set_value` of a tuple with a new key and 1 to 32 components,
    -- whose text is a word of less than 256 characters and whose numbers an `int` holds,
    -- `get_value` returns its key, text, count and coordinate as they were given, and each
    -- component as `%lf` reads what it prints of it.
    pub get_value-set_value :
        (t : Tuple Float)
        → IsTuple fl t
        → 0 < length t.v_value2
        → has_key fl t.key ts ≡ false
        → (d' : Disk) × (out : Tuple Float) × (set_value fl vars t d ≡ done (pos 0, d'))
          × (get_value fl t.key vars d' ≡ done (pos 0, out))
          × (out.key ≡ t.key)
          × (out.value1 ≡ t.value1)
          × (out.n_value2 ≡ t.n_value2)
          × (take (length t.v_value2) out.v_value2 ≡ map fl.rounded t.v_value2)
          × (out.value3 ≡ t.value3)
    get_value-set_value t v some_values new =
        let (d', set, h') = set_value_lem fl lawful vars room ts d h t v in
        let h1 : Holds fl (ts ++ t ∷ []) d' = rw new at h' in
        let (out, got, found) = get_value_lem fl lawful vars room (ts ++ t ∷ []) d' h1 t.key in
        let (there, before, _, e) : Found fl lawful (some t)
            (has_key fl t.key (ts ++ t ∷ []), out) =
          rw (lookup-append fl t ts new) at found in
        (
          d',
          out,
          rw new at set,
          rw there at got,
          ap (λ o. o.key) e,
          ap (λ o. o.value1) e,
          ap (λ o. o.n_value2) e,
          ap (λ o. take (length t.v_value2) o.v_value2) e ∙ take-overlay fl.rounded t.v_value2 _,
          ap (λ o. o.value3) e,
        )
