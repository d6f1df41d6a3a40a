-- ===== src/Server/Main.antt =====
-- Práctica_Final/server.c: main and the threads that it starts, over what they share: the flag, the
-- mutex, and a cell of memory for each socket that is handed over. A step is what one of them does
-- without giving up the processor where another could see it.
pub mod Cells
pub mod Invariant
pub mod Settles
pub mod Blocks
use trabajos_sistemas_distri.Base.{
  ℕ, ◌-◌, ◌%◌, ◌==◌, Bool, true, false, Option, none, some, List, [], ◌∷◌, ◌≡◌, if◌then◌else◌,
  Bytes, ℤ, pos, negsuc, minus_one, int_eq,
}
use trabajos_sistemas_distri.Stdio.Decimal.{atoi}
use trabajos_sistemas_distri.Threads.{Change}

-- How main begins: it returns, or listens at a port.
pub data Start : Type 0 where
  returns : ℤ → Start
  listens : ℕ → Start

-- `htons` of an `int`: its last 16 bits
abbrev pub port_of : ℤ → ℕ
port_of (pos n) = n % 65536
port_of (negsuc n) = 65535 - n % 65536

abbrev pub is_negative : ℤ → Bool
is_negative (pos n) = false
is_negative (negsuc n) = true

-- main up to its loop: the number of arguments, the second of them, and what `socket`, `bind` and
-- `listen` return.
unfoldable pub begin : ℕ → Bytes → ℤ → ℤ → ℤ → Start
begin argc argv2 ss bound listening =
    if argc == 3
    then (if is_negative ss
        then returns (pos 0)
        else if int_eq bound minus_one
        then returns minus_one
        else if int_eq listening minus_one
        then returns minus_one
        else listens (port_of (atoi argv2)))
    else returns minus_one

-- Where main stands in its loop; `sc` is the socket accepted, `p` the cell that it is put in.
pub data Main : Type 0 where
  accepting : Main
  allocating : (sc : ℕ) → Main  -- before malloc
  creating : (sc p : ℕ) → Main  -- before pthread_create
  locking : Main  -- before pthread_mutex_lock
  testing : Main  -- at the test of the while
  waiting : Main  -- asleep in pthread_cond_wait
  woken : Main  -- in pthread_cond_wait, before the mutex is its own again
  unlocking : Main  -- before pthread_mutex_unlock

-- Where a thread of `tratar_peticion` stands: `sc` is the socket that it was started for, `v` what it
-- has read.
pub data Thread : Type 0 where
  started : (sc p : ℕ) → Thread
  holding : (sc p : ℕ) → Thread
  taken : (sc v : ℕ) → Thread
  treating : (sc v : ℕ) → Thread
  crashed : Thread

pub record State : Type 0 where
  pub main : Main
  pub heap : ℕ → Option ℕ
  pub socket_ocupado : Bool
  pub locked : Bool
  pub threads : List Thread

abbrev pub cell : (ℕ → Option ℕ) → ℕ → Option ℕ → ℕ → Option ℕ
cell heap p o q = if p == q then o else heap q

-- `pthread_cond_signal`
abbrev pub signalled : Main → Main
signalled waiting = woken
signalled m = m

-- The steps of the hand-over of a socket, for which there may be no memory. A thread that reads memory that is not there crashes.
pub data Handover (s : State) : State → Type 0 where
  allocate :
      (sc p : ℕ)
      → s.main ≡ allocating sc
      → s.heap p ≡ none
      → Handover s (record s { main = creating sc p; heap = cell s.heap p (some sc) })
  malloc_fails : (sc : ℕ) → s.main ≡ allocating sc → Handover s (record s { main = accepting })
  create :
      (sc p : ℕ)
      → s.main ≡ creating sc p
      → Handover s (record s { main = locking; threads = started sc p ∷ s.threads })
  lock :
      s.main ≡ locking → s.locked ≡ false → Handover s (record s { main = testing; locked = true })
  wait :
      s.main ≡ testing
      → s.socket_ocupado ≡ true
      → Handover s (record s { main = waiting; locked = false })
  relock :
      s.main ≡ woken → s.locked ≡ false → Handover s (record s { main = testing; locked = true })
  pass :
      s.main ≡ testing
      → s.socket_ocupado ≡ false
      → Handover s (record s { main = unlocking; socket_ocupado = true })
  unlock : s.main ≡ unlocking → Handover s (record s { main = accepting; locked = false })
  thread_lock :
      (sc p : ℕ) (us : List Thread)
      → s.locked ≡ false
      → Change (started sc p) (holding sc p) s.threads us
      → Handover s (record s { locked = true; threads = us })
  thread_take :
      (sc p v : ℕ) (us : List Thread)
      → s.heap p ≡ some v
      → Change (holding sc p) (taken sc v) s.threads us
      → Handover s (record s {
        main = signalled s.main;
        heap = cell s.heap p none;
        socket_ocupado = false;
        threads = us;
      })
  thread_crash :
      (sc p : ℕ) (us : List Thread)
      → s.heap p ≡ none
      → Change (holding sc p) crashed s.threads us
      → Handover s (record s { threads = us })
  thread_unlock :
      (sc v : ℕ) (us : List Thread)
      → Change (taken sc v) (treating sc v) s.threads us
      → Handover s (record s { locked = false; threads = us })

-- All steps: those of the hand-over, a connection that comes or does not, a wait that ends by
-- itself, and, where it may, `pthread_create` that fails, which main does not ask.
pub data Step (may_fail : Bool) (s : State) : State → Type 0 where
  handover : {t : State} → Handover s t → Step may_fail s t
  accept : (sc : ℕ) → s.main ≡ accepting → Step may_fail s (record s { main = allocating sc })
  accept_fails : s.main ≡ accepting → Step may_fail s s
  spurious : s.main ≡ waiting → Step may_fail s (record s { main = woken })
  create_fails :
      (sc p : ℕ)
      → may_fail ≡ true
      → s.main ≡ creating sc p
      → Step may_fail s (record s { main = locking })

abbrev pub init : State
init = record {
  main = accepting;
  heap = λ p. none;
  socket_ocupado = false;
  locked = false;
  threads = [];
}

pub data Reach (may_fail : Bool) : State → Type 0 where
  start : Reach may_fail init
  later : {s t : State} → Reach may_fail s → Step may_fail s t → Reach may_fail t
