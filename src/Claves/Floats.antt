-- ===== src/Claves/Floats.antt =====
-- What the programs use of `double`: the text that `%lf` prints, and the number that is read from
-- text. `%lf` prints six decimals, so what is read back is the number rounded to them.
use trabajos_sistemas_distri.Base.{Option, some, ◌∷◌, ◌++◌, ◌≡◌, Bytes}
use trabajos_sistemas_distri.Stdio.Scan.Laws.{StartsText}

-- `scan` is given text with no white space in front: the number, where there is one, and the text
-- that the conversion leaves. A conversion that fails has taken what could have begun a number.
pub record Floats : Type 1 where
  pub Float : Type 0
  pub print : Float → Bytes
  pub scan : Bytes → Option Float × Bytes
  pub atof : Bytes → Float
  pub rounded : Float → Float

-- The behaviour of `%lf` that the store relies on.
pub record IsLawful (fl : Floats) : Type 0 where
  pub scan-print :
      (v : fl.Float) (rest : Bytes)
      → fl.scan (fl.print v ++ b' ' ∷ rest) ≡ (some (fl.rounded v), b' ' ∷ rest)
  pub print-starts : (v : fl.Float) → StartsText (fl.print v)
  pub print-rounded : (v : fl.Float) → fl.print (fl.rounded v) ≡ fl.print v
  pub atof-print : (v : fl.Float) → fl.atof (fl.print v) ≡ fl.rounded v
