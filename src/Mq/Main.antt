-- ===== src/Mq/Main.antt =====
-- servidor-mq.c: main, and the threads that it starts, over the message and the flag that they
-- share. A step is what one of them does without giving up the processor where another could see
-- it: a call of pthread, or an access to the shared message with the mutex held.
pub mod Invariant
pub mod Receives
use trabajos_sistemas_distri.Base.{Bool, true, false, List, [], ◌∷◌, ◌≡◌}
use trabajos_sistemas_distri.Threads.{Change}

-- Where main stands.
pub data Main : Type 0 where
  receiving : Main  -- before mq_receive
  creating : Main  -- before pthread_create
  locking : Main  -- before pthread_mutex_lock
  testing : Main  -- at the test of the while
  waiting : Main  -- asleep in pthread_cond_wait
  woken : Main  -- in pthread_cond_wait, before the mutex is its own again
  unlocking : Main  -- before pthread_mutex_unlock
  stopped : Main

-- Where a thread of `tratar_peticion` stands. The first message is the one that main had received
-- when it started the thread, the second the thread's copy.
pub data Thread (M : Type 0) : Type 0 where
  started : M → Thread M
  holding : M → Thread M
  copied : M → M → Thread M
  treating : M → M → Thread M

pub record State (M : Type 0) : Type 0 where
  pub main : Main
  pub pr : M
  pub mensaje_no_copiado : Bool
  pub locked : Bool
  pub threads : List (Thread M)

-- `pthread_cond_signal`
abbrev pub signalled : Main → Main
signalled waiting = woken
signalled m = m

module _ {M : Type 0} where
  -- The steps of the hand-over of a message.
  pub data Handover (s : State M) : State M → Type 0 where
    create :
        s.main ≡ creating
        → Handover s (record s { main = locking; threads = started s.pr ∷ s.threads })
    lock :
        s.main ≡ locking
        → s.locked ≡ false
        → Handover s (record s { main = testing; locked = true })
    wait :
        s.main ≡ testing
        → s.mensaje_no_copiado ≡ true
        → Handover s (record s { main = waiting; locked = false })
    relock :
        s.main ≡ woken → s.locked ≡ false → Handover s (record s { main = testing; locked = true })
    pass :
        s.main ≡ testing
        → s.mensaje_no_copiado ≡ false
        → Handover s (record s { main = unlocking; mensaje_no_copiado = true })
    unlock : s.main ≡ unlocking → Handover s (record s { main = receiving; locked = false })
    thread_lock :
        (m : M) (us : List (Thread M))
        → s.locked ≡ false
        → Change (started m) (holding m) s.threads us
        → Handover s (record s { locked = true; threads = us })
    thread_copy :
        (m : M) (us : List (Thread M))
        → Change (holding m) (copied m s.pr) s.threads us
        → Handover s
            (record s { main = signalled s.main; mensaje_no_copiado = false; threads = us })
    thread_unlock :
        (m p : M) (us : List (Thread M))
        → Change (copied m p) (treating m p) s.threads us
        → Handover s (record s { locked = false; threads = us })

  -- All steps: those of the hand-over, a message that comes or does not, a thread that cannot be
  -- made, and a wait that ends by itself. The end of main is that of the process.
  pub data Step (s : State M) : State M → Type 0 where
    handover : {t : State M} → Handover s t → Step s t
    receive : (m : M) → s.main ≡ receiving → Step s (record s { main = creating; pr = m })
    stop : s.main ≡ receiving → Step s (record s { main = stopped; locked = false; threads = [] })
    create_fails : s.main ≡ creating → Step s (record s { main = receiving })
    spurious : s.main ≡ waiting → Step s (record s { main = woken })

  -- What the memory holds before a message has come is `old`.
  abbrev pub init : M → State M
  init old = record {
    main = receiving;
    pr = old;
    mensaje_no_copiado = true;
    locked = false;
    threads = [];
  }

  pub data Reach (old : M) : State M → Type 0 where
    start : Reach old (init old)
    later : {s t : State M} → Reach old s → Step s t → Reach old t
