-- ===== src/Mq/Main/Invariant.antt =====
-- What holds of servidor-mq.c in every state that its steps reach.
use trabajos_sistemas_distri.Base.{
  Bool, ℕ, ◌+◌, true, List, [], ◌∷◌, ◌≡◌, refl, All, if◌then◌else◌, arith,
}
use trabajos_sistemas_distri.Threads.{Change, total, total-Change, All-Change}
use trabajos_sistemas_distri.Mq.Main.{
  Main, locking, testing, waiting, woken, unlocking, Thread, started, holding, copied, treating,
  State, Handover, create, lock, wait, relock, pass, unlock, thread_lock, thread_copy,
  thread_unlock, Step, handover, receive, stop, create_fails, spurious, Reach, start, later, init,
}

-- The mutex is main's.
abbrev pub main_holds : Main → ℕ
main_holds testing = 1
main_holds unlocking = 1
main_holds _ = 0

-- The threads that wait for a copy, counted with the flag, while main stands there.
abbrev pub expected : Main → ℕ
expected locking = 1
expected testing = 1
expected waiting = 1
expected woken = 1
expected _ = 0

module _ {M : Type 0} where
  -- A thread that has not copied its message.
  abbrev pub pending : Thread M → ℕ
  pending (started m) = 1
  pending (holding m) = 1
  pending (copied m p) = 0
  pending (treating m p) = 0

  abbrev pub holds : Thread M → ℕ
  holds (started m) = 0
  holds (holding m) = 1
  holds (copied m p) = 1
  holds (treating m p) = 0

  -- The thread has, or will have, the message that it was started for.
  abbrev pub Faithful : M → Thread M → Type 0
  Faithful pr (started m) = pr ≡ m
  Faithful pr (holding m) = pr ≡ m
  Faithful pr (copied m p) = p ≡ m
  Faithful pr (treating m p) = p ≡ m

  pub record Handed (s : State M) : Type 0 where
    pub faithful : All (Faithful s.pr) s.threads
    pub handed : total pending s.threads + (if s.mensaje_no_copiado then 0 else 1) ≡ expected s.main
    pub mutex : total holds s.threads + main_holds s.main ≡ (if s.locked then 1 else 0)
    pub asleep : s.main ≡ waiting → s.mensaje_no_copiado ≡ true

  init-Handed : (old : M) → Handed (init old)
  init-Handed old = record { faithful = tt; handed = refl; mutex = refl; asleep = λ e. cc }

  All-Faithful :
      (p q : M) (ts : List (Thread M))
      → total pending ts ≡ 0
      → All (Faithful p) ts
      → All (Faithful q) ts
  All-Faithful p q [] h v = tt
  All-Faithful p q (started m ∷ ts) h v = absurd (omega arith)
  All-Faithful p q (holding m ∷ ts) h v = absurd (omega arith)
  All-Faithful p q (copied m c ∷ ts) h (e, v) = (e, All-Faithful p q ts (omega arith) v)
  All-Faithful p q (treating m c ∷ ts) h (e, v) = (e, All-Faithful p q ts (omega arith) v)

  -- A step of main that leaves the threads and the message alone.
  main_moves :
      {s : State M} {m : Main} {f l : Bool}
      → Handed s
      → total pending s.threads + (if f then 0 else 1) ≡ expected m
      → total holds s.threads + main_holds m ≡ (if l then 1 else 0)
      → (m ≡ waiting → f ≡ true)
      → Handed (record s { main = m; mensaje_no_copiado = f; locked = l })
  main_moves v handed mutex asleep = record {
    faithful = v.faithful;
    handed = handed;
    mutex = mutex;
    asleep = asleep;
  }

  -- A step of a thread.
  thread_moves :
      {s : State M} {m : Main} {f l : Bool} {us : List (Thread M)} {a b : Thread M}
      → Handed s
      → Change a b s.threads us
      → (Faithful s.pr a → Faithful s.pr b)
      → total pending us + (if f then 0 else 1) ≡ expected m
      → total holds us + main_holds m ≡ (if l then 1 else 0)
      → (m ≡ waiting → f ≡ true)
      → Handed (record s { main = m; mensaje_no_copiado = f; locked = l; threads = us })
  thread_moves {s} v c keeps handed mutex asleep = record {
    faithful = All-Change (Faithful s.pr) c keeps v.faithful;
    handed = handed;
    mutex = mutex;
    asleep = asleep;
  }

  pub Handover-Handed : {s t : State M} → Handover s t → Handed s → Handed t
  Handover-Handed (create e) v = record {
    faithful = (refl, v.faithful);
    handed = ground arith;
    mutex = ground arith;
    asleep = λ e. ground arith;
  }
  Handover-Handed (lock e f) v = main_moves v (ground arith) (ground arith) (λ h. ground arith)
  Handover-Handed (wait e f) v = main_moves v (ground arith) (ground arith) (λ h. ground arith)
  Handover-Handed (relock e f) v = main_moves v (ground arith) (ground arith) (λ h. ground arith)
  Handover-Handed (pass e f) v = main_moves v (ground arith) (ground arith) (λ h. ground arith)
  Handover-Handed (unlock e) v = main_moves v (ground arith) (ground arith) (λ h. ground arith)
  Handover-Handed {s} (thread_lock m us f c) v =
      thread_moves v c (λ e. e) (ground (arith, total-Change pending c))
        (ground (arith, total-Change holds c)) (λ h. ground arith)
  Handover-Handed {s} (thread_copy m us c) v =
      thread_moves v c (λ e. e) (ground (arith, total-Change pending c))
        (ground (arith, total-Change holds c)) (λ h. ground arith)
  Handover-Handed {s} (thread_unlock m p us c) v =
      thread_moves v c (λ e. e) (ground (arith, total-Change pending c))
        (ground (arith, total-Change holds c)) (λ h. ground arith)

  Step-Handed : {s t : State M} → Step s t → Handed s → Handed t
  Step-Handed (handover h) v = Handover-Handed h v
  Step-Handed {s} (receive m e) v = record {
    faithful = All-Faithful s.pr m s.threads (ground (arith, v.handed)) v.faithful;
    handed = ground arith;
    mutex = ground arith;
    asleep = λ e. cc;
  }
  Step-Handed (stop e) v = record {
    faithful = tt;
    handed = ground arith;
    mutex = refl;
    asleep = λ e. cc;
  }
  Step-Handed (create_fails e) v = record {
    faithful = v.faithful;
    handed = ground arith;
    mutex = ground arith;
    asleep = λ e. cc;
  }
  Step-Handed (spurious e) v = record {
    faithful = v.faithful;
    handed = ground arith;
    mutex = ground arith;
    asleep = λ e. cc;
  }

  -- In every state that main and its threads reach: a thread that has copied its message has the
  -- one that it was started for, and one that has not will find it in the shared message; while
  -- main stands behind `pthread_create` and has not seen the flag, either one thread has yet to
  -- copy or the flag says that it has, and elsewhere neither; the mutex has at most one owner.
  pub Reach-Handed : {old : M} {s : State M} → Reach old s → Handed s
  Reach-Handed {old} start = init-Handed old
  Reach-Handed (later r st) = Step-Handed st (Reach-Handed r)
