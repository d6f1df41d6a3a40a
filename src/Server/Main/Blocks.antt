-- ===== src/Server/Main/Blocks.antt =====
-- A server whose main waits for ever.
use trabajos_sistemas_distri.Base.{ℕ, Bool, true, false, List, ◌≡◌, ◌≢◌, refl, arith}
use trabajos_sistemas_distri.Threads.{Change, here, there, total, total-Change}
use trabajos_sistemas_distri.Server.Main.{
  Main, accepting, allocating, creating, locking, testing, waiting, woken, unlocking, Thread, State,
  Handover, allocate, malloc_fails, create, lock, wait, relock, pass, unlock, thread_lock,
  thread_take, thread_crash, thread_unlock, Step, handover, accept, accept_fails, spurious,
  create_fails,
}
use trabajos_sistemas_distri.Server.Main.Invariant.{pending}

no_mover :
    (w : Thread → ℕ) {a b : Thread} {ts us : List Thread}
    → Change a b ts us
    → total w ts ≡ 0
    → w a ≡ 0
no_mover w (here ts) h = omega arith
no_mover w (there t c) h = no_mover w c (omega arith)

-- The states that a state comes to, by any steps of the program and of the system.
pub data Later (s : State) : State → Type 0 where
  now : Later s s
  next : {t u : State} → Later s t → Step true t u → Later s u

-- main stands before its wait, in it, or behind it at the test of the flag.
abbrev waits : Main → Bool
waits accepting = false
waits (allocating sc) = false
waits (creating sc p) = false
waits locking = true
waits testing = true
waits waiting = true
waits woken = true
waits unlocking = false

-- The flag is set, main waits for it, and no thread is on its way to reset it.
record Blocked (s : State) : Type 0 where
  flag : s.socket_ocupado ≡ true
  nobody : total pending s.threads ≡ 0
  main : waits s.main ≡ true

main_moves :
    {s : State} (m : Main) (l : Bool)
    → waits m ≡ true
    → Blocked s
    → Blocked (record s { main = m; locked = l })
main_moves m l h b = record { flag = b.flag; nobody = b.nobody; main = h }

Handover-Blocked : {s t : State} → Handover s t → Blocked s → Blocked t
Handover-Blocked (allocate sc p e f) b = absurd (ground (arith, e, b.main))
Handover-Blocked (malloc_fails sc e) b = absurd (ground (arith, e, b.main))
Handover-Blocked (create sc p e) b = absurd (ground (arith, e, b.main))
Handover-Blocked (lock e f) b = main_moves testing true refl b
Handover-Blocked (wait e f) b = main_moves waiting false refl b
Handover-Blocked (relock e f) b = main_moves testing true refl b
Handover-Blocked (pass e f) b = absurd (ground (arith, f, b.flag))
Handover-Blocked (unlock e) b = absurd (ground (arith, e, b.main))
Handover-Blocked (thread_lock sc p us f c) b = absurd (omega (arith, no_mover pending c b.nobody))
Handover-Blocked (thread_take sc p v us e c) b = absurd (omega (arith, no_mover pending c b.nobody))
Handover-Blocked (thread_crash sc p us e c) b = absurd (omega (arith, no_mover pending c b.nobody))
Handover-Blocked (thread_unlock sc v us c) b = record {
  flag = b.flag;
  nobody = omega (arith, total-Change pending c, b.nobody);
  main = b.main;
}

Step-Blocked : {s t : State} → Step true s t → Blocked s → Blocked t
Step-Blocked (handover h) b = Handover-Blocked h b
Step-Blocked (accept sc e) b = absurd (ground (arith, e, b.main))
Step-Blocked (accept_fails e) b = b
Step-Blocked {s} (spurious e) b = main_moves woken s.locked refl b
Step-Blocked (create_fails sc p m e) b = absurd (ground (arith, e, b.main))

Later-Blocked : {s t : State} → Later s t → Blocked s → Blocked t
Later-Blocked now b = b
Later-Blocked (next l h) b = Step-Blocked h (Later-Blocked l b)

-- A `pthread_create` that fails while the flag is set and no thread is on its way to a socket
-- blocks the server for ever: the failure is a step, and whatever steps follow it, waits that end
-- by themselves included, main accepts no further connection, and the flag stays set.
pub create_fails-blocks :
    {s t : State} (sc p : ℕ)
    → s.main ≡ creating sc p
    → s.socket_ocupado ≡ true
    → total pending s.threads ≡ 0
    → Later (record s { main = locking }) t
    → Step true s (record s { main = locking }) × (t.main ≢ accepting) × (t.socket_ocupado ≡ true)
create_fails-blocks {s} sc p e f nobody l =
    let b = Later-Blocked l (record { flag = f; nobody = nobody; main = refl }) in
    (create_fails sc p refl e, λ h. ground (arith, h, b.main), b.flag)
