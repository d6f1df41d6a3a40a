-- ===== src/Clients/Program.antt =====
-- A client: what it prints, and the operations of claves.h that it calls, one after the other.
use trabajos_sistemas_distri.Base.{List, [], ◌∷◌, Option, Bytes, ℤ}
use trabajos_sistemas_distri.Stdio.Run.{Run, done, fault, starved}
use trabajos_sistemas_distri.Stdio.Run
use trabajos_sistemas_distri.Claves.Tuples.{Tuple}
use trabajos_sistemas_distri.Rpc.Proxy.{Outcome, returned, exited}

-- A call, with its arguments. The arrays that `get_value` fills are the client's.
pub data Request (Float : Type 0) : Type 0 where
  destroy : Request Float
  exist : ℤ → Request Float
  set_value : Tuple Float → Request Float
  modify_value : Tuple Float → Request Float
  delete_key : ℤ → Request Float
  get_value : ℤ → Request Float

-- What a client takes of a call. It looks at the variables that `get_value` sets only when the code
-- is 0, and at as many components of the array as the count says.
abbrev pub Answer : {Float : Type 0} → Request Float → Type 0
Answer destroy = ℤ
Answer (exist key) = ℤ
Answer (set_value t) = ℤ
Answer (modify_value t) = ℤ
Answer (delete_key key) = ℤ
Answer {Float} (get_value key) = Option (Tuple Float)

-- What one `printf` prints: a text, or a `double` under `%lf`.
pub data Printed (Float : Type 0) : Type 0 where
  text : Bytes → Printed Float
  number : Float → Printed Float

pub data Program (Float : Type 0) (A : Type 0) : Type 0 where
  pure : A → Program Float A
  print : Printed Float → Program Float A → Program Float A
  call : (r : Request Float) → (Answer r → Program Float A) → Program Float A

infixl 5 ◌>>=◌ ◌>>◌
abbrev pub ◌>>=◌ : {F A B : Type 0} → Program F A → (A → Program F B) → Program F B
pure a >>= f = f a
print s p >>= f = print s (p >>= f)
call r k >>= f = call r (λ a. k a >>= f)

abbrev pub ◌>>◌ : {F B : Type 0} → Program F (Unit {0}) → Program F B → Program F B
m >> k = m >>= λ _. k

-- One call of an operation
abbrev pub ask : {F : Type 0} (r : Request F) → Program F (Answer r)
ask r = call r pure

abbrev pub say : {F : Type 0} → Bytes → Program F (Unit {0})
say s = print (text s) (pure tt)

-- A client process ends with what it printed, and either returns or was ended by a call.
abbrev with_output :
    {F A : Type 0} → Printed F → Run (List (Printed F) × A) → Run (List (Printed F) × A)
with_output s (done (out, a)) = done (s ∷ out, a)
with_output s fault = fault
with_output s starved = starved

-- A program over an implementation of the operations, from a state of all that stands behind it.
module _ {F S A : Type 0} (operation : (r : Request F) → S → Run (Outcome (Answer r × S))) where
  unfoldable pub run : Program F A → S → Run (List (Printed F) × Outcome (A × S))
  run (pure a) s = done ([], returned (a, s))
  run (print out p) s = with_output out (run p s)
  run (call r k) s =
      Run.◌>>=◌ (operation r s)
        λ o. elim o [ returned (a, s1) ↦ run (k a) s1 | exited ↦ done ([], exited) ]
