-- ===== src/Clients/Checks.antt =====
-- What the test clients of the three exercises share: a call, and the text that says how it went.
use trabajos_sistemas_distri.Base.{
  List, [], ◌∷◌, ◌++◌, Option, none, some, if◌then◌else◌, Bytes, codes, ℤ, pos, int_eq,
}
use Prim.Native.String.{String}
use trabajos_sistemas_distri.Stdio.Decimal.{print_int}
use trabajos_sistemas_distri.Claves.Floats.{Floats}
use trabajos_sistemas_distri.Claves.Tuples.{Tuple}
use trabajos_sistemas_distri.Clients.Program.{
  set_value, modify_value, delete_key, get_value, number, Program, pure, print, ◌>>=◌, ◌>>◌, ask,
  say,
}

-- `printf` of a text, with a `%d` between its two parts
abbrev pub with_number : String → ℤ → String → Bytes
with_number before n after = codes before ++ (print_int n ++ codes after)

module _ (fl : Floats) where
  open fl use {Float, atof}

  -- A decimal constant of the source
  abbrev pub double : String → Float
  double s = atof (codes s)

  abbrev pub report : ℤ → Bytes → Bytes → Program Float Unit
  report code good bad = if int_eq code (pos 0) then say good else say bad

  -- `if (set_value (…) == 0) … else …`, and the same of the other operations.
  unfoldable pub tries_set : Tuple Float → Bytes → Bytes → Program Float Unit
  tries_set u good bad = do code ← ask (set_value u); report code good bad

  unfoldable pub tries_modify : Tuple Float → Bytes → Bytes → Program Float Unit
  tries_modify u good bad = do code ← ask (modify_value u); report code good bad

  unfoldable pub tries_delete : ℤ → Bytes → Bytes → Program Float Unit
  tries_delete key good bad = do code ← ask (delete_key key); report code good bad

  -- The loop over the components
  unfoldable pub prints_vector : List Float → Program Float Unit
  prints_vector [] = pure tt
  prints_vector (v ∷ vs) = print (number v) (prints_vector vs)

  unfoldable pub prints_value : Tuple Float → Program Float Unit
  unfolding print_int
  prints_value t = do
    say (codes "   - value1: " ++ (t.value1 ++ codes "\n"))
    say (with_number "   - N_value2: " t.n_value2 "\n")
    say (codes "   - V_value2: ")
    prints_vector t.v_value2
    say (with_number "\n   - value3: (" t.value3.x ", " ++ with_number "" t.value3.y ")\n")

  abbrev shows : Bytes → Bytes → Option (Tuple Float) → Program Float Unit
  shows good bad none = say bad
  shows good bad (some t) = say good >> prints_value t

  -- `if (get_value (…) == 0)`, with what it prints of the variables
  unfoldable pub tries_get : ℤ → Bytes → Bytes → Program Float Unit
  unfolding prints_value
  tries_get key good bad = do answer ← ask (get_value key); shows good bad answer
