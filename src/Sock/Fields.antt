-- ===== src/Sock/Fields.antt =====
-- Texts and numbers over a connection, as both sides of ejercicio_evaluable_2 send and read them.
use trabajos_sistemas_distri.Base.{
  ℕ, zero, suc, Option, none, some, List, [], ◌∷◌, ◌++◌, ltb, if◌then◌else◌, Bytes, length,
}
use trabajos_sistemas_distri.Stdio.Run.{Run, done, fault, ◌>>=◌}
use trabajos_sistemas_distri.Sockets.{Event, read_line, buffer_after}
use trabajos_sistemas_distri.Claves.Floats.{Floats}
use trabajos_sistemas_distri.Claves.Tuples.{max_str}

abbrev text_of : Option Bytes → List Event → Run (Bytes × List Event)
text_of none r = fault
text_of (some s) r = done (s, r)

-- `readLine (sc, buffer, n)` and the use of the buffer, which held `old`.
unfoldable pub read_into : ℕ → Option Bytes → List Event → Run (Bytes × List Event)
unfolding buffer_after
read_into n old es = let l = read_line n es in text_of (buffer_after old l) l.rest

-- `sprintf (buffer, …)` into MAXSTR bytes, and what `send_message (sc, buffer, strlen (buffer) +
-- 1)` sends of it.
unfoldable pub printed : Bytes → Run Bytes
printed s = if ltb (length s) max_str then done (s ++ 0 ∷ []) else fault

module _ (fl : Floats) where
  open fl use {Float, print, atof}

  -- The loop that reads `n` components into the array.
  unfoldable pub read_values :
      ℕ → Bytes → List Event → List Float → Run (List Float × (Bytes × List Event))
  unfolding read_into
  read_values zero b es vs = done (vs, (b, es))
  read_values (suc n) b es [] = fault
  read_values (suc n) b es (old ∷ vs) = read_into max_str (some b) es >>= λ (s, r).
      read_values n s r vs >>= λ (ws, left). done (atof s ∷ ws, left)

  -- The loop that sends `n` components.
  unfoldable pub send_values : ℕ → List Float → Run Bytes
  unfolding printed
  send_values zero vs = done []
  send_values (suc n) [] = fault
  send_values (suc n) (v ∷ vs) =
      printed (print v) >>= λ s. send_values n vs >>= λ more. done (s ++ more)
