-- ===== src/Clients/Contract.antt =====
-- What the clients rely on: the operations of claves.h behind a proxy, as operations on a list of
-- tuples, and what it means that an implementation offers them.
use trabajos_sistemas_distri.Base.{
  ◌<◌, Bool, true, false, ◌||◌, Option, none, some, List, [], ◌∷◌, ◌++◌, ◌≡◌, refl, ltb,
  if◌then◌else◌, ℤ, pos, negsuc, minus_one, int_eq, IsInt, length, take, map,
}
use trabajos_sistemas_distri.Stdio.Run.{Run, done, ◌>>=◌}
use trabajos_sistemas_distri.Claves.Floats.{Floats}
use trabajos_sistemas_distri.Claves.Tuples.{max_str, max_vec, rounds, Tuple}
use trabajos_sistemas_distri.Claves.Tuples.Print.{IsTuple}
use trabajos_sistemas_distri.Claves.Tuples.Loops.{has_key, lookup}
use trabajos_sistemas_distri.Claves.Store.Holds.{without}
use trabajos_sistemas_distri.Rpc.Proxy.{Outcome, returned}
use trabajos_sistemas_distri.Clients.Program.{
  Request, destroy, exist, set_value, modify_value, delete_key, get_value, Answer, Printed, Program,
  pure, print, call, run,
}

abbrev pub out_of_range : ℤ → Bool
out_of_range (pos n) = ltb n 1 || ltb max_vec n
out_of_range (negsuc n) = true

-- An operation that comes back to the client.
abbrev pub returning : {A S : Type 0} → Run (A × S) → Run (Outcome (A × S))
returning m = m >>= λ r. done (returned r)

module _ (fl : Floats) where
  open fl use {Float, rounded}

  -- The tuple that the arguments of a call stand for: of the array, as many components as the count
  -- says.
  abbrev pub exact : Tuple Float → Tuple Float
  exact u = record u { v_value2 = take (rounds u.n_value2) u.v_value2 }

  -- What every proxy turns down before it asks the server.
  abbrev pub is_rejected : Tuple Float → Bool
  is_rejected u = ltb max_str (length u.value1) || out_of_range u.n_value2

  -- What a client takes of the code and the variables of `get_value`.
  abbrev pub taken : ℤ × Tuple Float → Option (Tuple Float)
  taken (code, t) = if int_eq code (pos 0) then some (exact t) else none

  abbrev found : Option (Tuple Float) → Option (Tuple Float)
  found none = none
  found (some t) = some (record t { v_value2 = map rounded t.v_value2 })

  -- Each operation on the list: its answer, and the list afterwards.
  unfoldable pub serve : (r : Request Float) → List (Tuple Float) → Answer r × List (Tuple Float)
  serve destroy ts = (pos 0, [])
  serve (exist key) ts = (if has_key fl key ts then pos 1 else pos 0, ts)
  serve (set_value u) ts = if is_rejected u then (minus_one, ts) else (
    if has_key fl u.key ts then minus_one else pos 0,
    if has_key fl u.key ts then ts else ts ++ exact u ∷ [],
  )
  serve (modify_value u) ts = if is_rejected u then (minus_one, ts) else (
    if has_key fl u.key ts then pos 0 else minus_one,
    if has_key fl u.key ts then without fl u.key ts ++ exact u ∷ [] else ts,
  )
  serve (delete_key key) ts = (
    if has_key fl key ts then pos 0 else minus_one,
    if has_key fl key ts then without fl key ts else ts,
  )
  serve (get_value key) ts = (found (lookup fl key ts), ts)

  -- Arguments that are turned down, or that the store can hold.
  pub data Acceptable (u : Tuple Float) : Type 0 where
    rejected : is_rejected u ≡ true → Acceptable u
    fits : IsTuple fl (exact u) → 0 < length (exact u).v_value2 → Acceptable u

  abbrev pub Allowed : Request Float → Type 0
  Allowed destroy = Unit
  Allowed (exist key) = IsInt key
  Allowed (set_value u) = Acceptable u
  Allowed (modify_value u) = Acceptable u
  Allowed (delete_key key) = IsInt key
  Allowed (get_value key) = IsInt key

  -- A program on the list: what it prints, and its result with the list afterwards.
  unfoldable pub run_on :
      {A : Type 0}
      → Program Float A
      → List (Tuple Float)
      → List (Printed Float) × (A × List (Tuple Float))
  run_on (pure a) ts = ([], (a, ts))
  run_on (print s p) ts = let (out, r) = run_on p ts in (s ∷ out, r)
  run_on (call r k) ts = run_on (k (serve r ts).0) (serve r ts).1

  -- Every call that the program makes on the list is allowed.
  abbrev pub AllowedOn : {A : Type 0} → Program Float A → List (Tuple Float) → Type 0
  AllowedOn (pure a) ts = Unit
  AllowedOn (print s p) ts = AllowedOn p ts
  AllowedOn (call r k) ts = Allowed r × AllowedOn (k (serve r ts).0) (serve r ts).1

  -- What an implementation may ask of a tuple that it stores, beyond what every one asks.
  abbrev pub Gives : (Tuple Float → Type 0) → Request Float → Type 0
  Gives Fit destroy = Unit
  Gives Fit (exist key) = Unit
  Gives Fit (set_value u) = is_rejected u ≡ false → Fit (exact u)
  Gives Fit (modify_value u) = is_rejected u ≡ false → Fit (exact u)
  Gives Fit (delete_key key) = Unit
  Gives Fit (get_value key) = Unit

  Gives-every :
      (Fit : Tuple Float → Type 0) (every : (u : Tuple Float) → Fit u) (r : Request Float)
      → Gives Fit r
  Gives-every Fit every destroy = tt
  Gives-every Fit every (exist key) = tt
  Gives-every Fit every (set_value u) = λ e. every (exact u)
  Gives-every Fit every (modify_value u) = λ e. every (exact u)
  Gives-every Fit every (delete_key key) = tt
  Gives-every Fit every (get_value key) = tt

  -- Every call that the program makes on the list gives what the implementation asks.
  abbrev pub GivesOn :
      (Tuple Float → Type 0) → {A : Type 0} → Program Float A → List (Tuple Float) → Type 0
  GivesOn Fit (pure a) ts = Unit
  GivesOn Fit (print s p) ts = GivesOn Fit p ts
  GivesOn Fit (call r k) ts = Gives Fit r × GivesOn Fit (k (serve r ts).0) (serve r ts).1

  pub GivesOn-every :
      {A : Type 0} (Fit : Tuple Float → Type 0) (every : (u : Tuple Float) → Fit u)
      (p : Program Float A) (ts : List (Tuple Float))
      → GivesOn Fit p ts
  GivesOn-every Fit every (pure a) ts = tt
  GivesOn-every Fit every (print s p) ts = GivesOn-every Fit every p ts
  GivesOn-every Fit every (call r k) ts =
      (Gives-every Fit every r, GivesOn-every Fit every (k (serve r ts).0) (serve r ts).1)

  -- An implementation, on states that hold a list: every allowed call that gives what it asks comes
  -- back, with the answer of the list, and leaves what the list has become.
  pub record IsStore {S : Type 0} (Fit : Tuple Float → Type 0)
      (operation : (r : Request Float) → S → Run (Outcome (Answer r × S)))
      (Holds : List (Tuple Float) → S → Type 0) : Type 0 where
    pub served :
        (r : Request Float) (ts : List (Tuple Float)) (s : S)
        → Allowed r
        → Gives Fit r
        → Holds ts s
        → (s' : S) × (operation r s ≡ done (returned ((serve r ts).0, s')))
          × Holds (serve r ts).1 s'

  module _ {S : Type 0} (Fit : Tuple Float → Type 0)
      (operation : (r : Request Float) → S → Run (Outcome (Answer r × S)))
      (Holds : List (Tuple Float) → S → Type 0) (store : IsStore Fit operation Holds) where
    -- A program whose calls are allowed, and give what the implementation asks, does over any
    -- implementation what it does on the list that the state holds: it prints the same, and returns
    -- the same, and the state holds the list afterwards.
    pub run-run_on :
        {A : Type 0} (p : Program Float A) (ts : List (Tuple Float)) (s : S)
        → AllowedOn p ts
        → GivesOn Fit p ts
        → Holds ts s
        → (s' : S) × (run operation p s ≡ done ((run_on p ts).0, returned ((run_on p ts).1.0, s')))
          × Holds (run_on p ts).1.1 s'
    unfolding run run_on
    run-run_on (pure a) ts s ok given h = (s, refl, h)
    run-run_on (print out p) ts s ok given h =
        let (s1, ran, held) = run-run_on p ts s ok given h in (s1, rw ran refl, held)
    run-run_on (call r k) ts s (ok, oks) (give, gives) h =
        let (s1, ran, held) = store.served r ts s ok give h in
        let (s2, ran2, held2) = run-run_on (k (serve r ts).0) (serve r ts).1 s1 oks gives held in
        (s2, rw (ran, ran2) refl, held2)
