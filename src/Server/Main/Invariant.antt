-- ===== src/Server/Main/Invariant.antt =====
-- What holds of server.c in every state that main and its threads reach.
use trabajos_sistemas_distri.Base.{
  ℕ, ◌+◌, ◌≤◌, Bool, true, ◌≡◌, refl, none, some, All, if◌then◌else◌, arith,
}
use trabajos_sistemas_distri.Threads.{
  total, total-Change, All-Change, Change-All, Pairwise, Pairwise-Change, All-Change_apart,
}
use trabajos_sistemas_distri.Server.Main.{
  Main, creating, locking, testing, waiting, woken, unlocking, Thread, started, holding, taken,
  State, cell, Handover, allocate, malloc_fails, create, lock, wait, relock, pass, unlock,
  thread_lock, thread_take, thread_crash, thread_unlock, Step, handover, accept, accept_fails,
  spurious, create_fails, Reach, start, later, init,
}
use trabajos_sistemas_distri.Server.Main.Cells.{
  Avoids, Apart, Faithful, Owns, Avoids-fresh, Faithful-cell, All-Faithful-cell, Apart-Avoids,
  Apart-holding, Apart-taken, Apart-treating, Owns-Change, Owns-take, Owns-main,
}

-- A thread that has not taken its socket.
abbrev pub pending : Thread → ℕ
pending (started sc p) = 1
pending (holding sc p) = 1
pending _ = 0

abbrev pub holds : Thread → ℕ
holds (holding sc p) = 1
holds (taken sc v) = 1
holds _ = 0

abbrev pub main_holds : Main → ℕ
main_holds testing = 1
main_holds unlocking = 1
main_holds _ = 0

-- How many threads may be on their way to a socket, one more if the flag is clear.
abbrev pub most : Main → ℕ
most locking = 2
most testing = 2
most waiting = 2
most woken = 2
most _ = 1

pub record Inv (s : State) : Type 0 where
  pub faithful : All (Faithful s.heap) s.threads
  pub apart : Pairwise Apart s.threads
  pub owns : Owns s.main s.heap s.threads
  pub few : total pending s.threads + (if s.socket_ocupado then 0 else 1) ≤ most s.main
  pub mutex : total holds s.threads + main_holds s.main ≡ (if s.locked then 1 else 0)
  pub asleep : s.main ≡ waiting → s.socket_ocupado ≡ true

pub init-Inv : Inv init
init-Inv = record {
  faithful = tt;
  apart = tt;
  owns = tt;
  few = omega arith;
  mutex = refl;
  asleep = λ e. cc;
}

-- A step of main that leaves the threads and the memory alone.
main_moves :
    {s : State} {m : Main} {o l : Bool}
    → Inv s
    → Owns m s.heap s.threads
    → total pending s.threads + (if o then 0 else 1) ≤ most m
    → total holds s.threads + main_holds m ≡ (if l then 1 else 0)
    → (m ≡ waiting → o ≡ true)
    → Inv (record s { main = m; socket_ocupado = o; locked = l })
main_moves v own few mutex asleep = record {
  faithful = v.faithful;
  apart = v.apart;
  owns = own;
  few = few;
  mutex = mutex;
  asleep = asleep;
}

pub Handover-Inv : {s t : State} → Handover s t → Inv s → Inv t
Handover-Inv {s} (allocate sc p e f) v =
    let fresh : All (Avoids p) s.threads = Avoids-fresh s.heap p s.threads f v.faithful in
    record {
      faithful = All-Faithful-cell s.heap p (some sc) s.threads fresh v.faithful;
      apart = v.apart;
      owns = (ground arith, fresh);
      few = ground arith;
      mutex = ground arith;
      asleep = λ h. ground arith;
    }
Handover-Inv (malloc_fails sc e) v =
    main_moves v tt (ground arith) (ground arith) (λ h. ground arith)
Handover-Inv {s} (create sc p e) v =
    let (held, free) = Owns-main s.main (creating sc p) s.heap s.threads e v.owns in
    record {
      faithful = (held, v.faithful);
      apart = (free, v.apart);
      owns = tt;
      few = ground arith;
      mutex = ground arith;
      asleep = λ h. ground arith;
    }
Handover-Inv (lock e f) v = main_moves v tt (ground arith) (ground arith) (λ h. ground arith)
Handover-Inv (wait e f) v = main_moves v tt (ground arith) (ground arith) (λ h. ground arith)
Handover-Inv (relock e f) v = main_moves v tt (ground arith) (ground arith) (λ h. ground arith)
Handover-Inv (pass e f) v = main_moves v tt (ground arith) (ground arith) (λ h. ground arith)
Handover-Inv (unlock e) v = main_moves v tt (ground arith) (ground arith) (λ h. ground arith)
Handover-Inv {s} (thread_lock sc p us f c) v = record {
  faithful = All-Change (Faithful s.heap) c (λ e. e) v.faithful;
  apart = Pairwise-Change Apart c (λ t n. n) (λ t n. Apart-holding t sc p n) v.apart;
  owns = Owns-Change s.main s.heap c (λ q n. n) v.owns;
  few = ground (arith, total-Change pending c);
  mutex = ground (arith, total-Change holds c);
  asleep = λ h. ground arith;
}
Handover-Inv {s} (thread_take sc p w us e c) v =
    let own : s.heap p ≡ some sc = Change-All (Faithful s.heap) c v.faithful in
    record {
      faithful =
          All-Change_apart Apart (Faithful s.heap) (Faithful (cell s.heap p none)) c v.apart
            (λ h. ground arith) (λ t n h. Faithful-cell s.heap p none t n h)
            (λ t n h. Faithful-cell s.heap p none t (Apart-Avoids t sc p n) h) v.faithful;
      apart = Pairwise-Change Apart c (λ t n. tt) (λ t n. Apart-taken t sc w) v.apart;
      owns = Owns-take s.main s.heap sc p w c v.owns;
      few = ground (arith, total-Change pending c);
      mutex = ground (arith, total-Change holds c);
      asleep = λ h. ground arith;
    }
Handover-Inv {s} (thread_crash sc p us e c) v =
    let own : s.heap p ≡ some sc = Change-All (Faithful s.heap) c v.faithful in absurd (cc)
Handover-Inv {s} (thread_unlock sc w us c) v = record {
  faithful = All-Change (Faithful s.heap) c (λ e. e) v.faithful;
  apart = Pairwise-Change Apart c (λ t n. tt) (λ t n. Apart-treating t sc w) v.apart;
  owns = Owns-Change s.main s.heap c (λ q n. tt) v.owns;
  few = ground (arith, total-Change pending c);
  mutex = ground (arith, total-Change holds c);
  asleep = λ h. ground arith;
}

Step-Inv : {b : Bool} {s t : State} → Step b s t → Inv s → Inv t
Step-Inv (handover h) v = Handover-Inv h v
Step-Inv (accept sc e) v = main_moves v tt (ground arith) (ground arith) (λ h. ground arith)
Step-Inv (accept_fails e) v = v
Step-Inv (spurious e) v = main_moves v tt (ground arith) (ground arith) (λ h. ground arith)
Step-Inv (create_fails sc p f e) v =
    main_moves v tt (ground arith) (ground arith) (λ h. ground arith)

-- In every state that main and its threads reach, whether `pthread_create` may fail or not: a thread
-- that has taken its socket has the one that it was started for, one that has not finds it in a cell
-- that no other thread and not main uses, and none has crashed; at most two threads are on their way
-- to a socket; the mutex has at most one owner; and while main sleeps the flag is set.
pub Reach-Inv : {b : Bool} {s : State} → Reach b s → Inv s
Reach-Inv start = init-Inv
Reach-Inv (later r st) = Step-Inv st (Reach-Inv r)
