-- ===== src/Server/Main/Settles.antt =====
-- The hand-over of server.c comes to its end, unless `pthread_create` has failed.
use trabajos_sistemas_distri.Base.{
  ℕ, zero, suc, ◌+◌, ◌≤◌, ◌<◌, false, List, ◌≡◌, refl, ◌≢◌, Bool-cases, inl, inr, arith,
  if◌then◌else◌, some, ◌⊎◌,
}
use trabajos_sistemas_distri.Threads.{Change, total, total-Change, pick, Change-All}
use trabajos_sistemas_distri.Server.Main.{
  Main, accepting, allocating, creating, locking, testing, waiting, woken, unlocking, Thread,
  started, holding, taken, treating, crashed, State, Handover, allocate, malloc_fails, create, lock,
  wait, relock, pass, unlock, thread_lock, thread_take, thread_crash, thread_unlock, handover,
  accept, accept_fails, spurious, create_fails, Reach, start, later,
}
use trabajos_sistemas_distri.Server.Main.Invariant.{pending, holds, Inv, Handover-Inv, Reach-Inv}
use trabajos_sistemas_distri.Server.Main.Cells.{Faithful}

-- Whatever order the steps of the hand-over come in, it goes on until main accepts again, and it does.
pub data Settles : State → Type 0 where
  back : {s : State} → s.main ≡ accepting → Settles s
  on : {s t : State} → Handover s t → ((u : State) → Handover s u → Settles u) → Settles s

-- The least number of threads on their way to a socket, one more if the flag is clear.
abbrev least : Main → ℕ
least locking = 1
least testing = 1
least waiting = 1
least woken = 1
least _ = 0

abbrev Served : State → Type 0
Served s = least s.main ≤ total pending s.threads + (if s.socket_ocupado then 0 else 1)

Handover-Served : {s t : State} → Handover s t → Inv s → Served s → Served t
Handover-Served (allocate sc p e f) i v = omega arith
Handover-Served (malloc_fails sc e) i v = omega arith
Handover-Served (create sc p e) i v = omega arith
Handover-Served (lock e f) i v = ground arith
Handover-Served (wait e f) i v = ground arith
Handover-Served (relock e f) i v = ground arith
Handover-Served (pass e f) i v = ground arith
Handover-Served (unlock e) i v = omega arith
Handover-Served (thread_lock sc p us f c) i v = ground (arith, total-Change pending c)
Handover-Served (thread_take sc p w us e c) i v = ground (arith, total-Change pending c)
Handover-Served {s} (thread_crash sc p us e c) i v =
    let own : s.heap p ≡ some sc = Change-All (Faithful s.heap) c i.faithful in absurd (cc)
Handover-Served (thread_unlock sc w us c) i v = ground (arith, total-Change pending c)

Reach-Served : {s : State} → Reach false s → Served s
Reach-Served start = omega arith
Reach-Served (later r (handover h)) = Handover-Served h (Reach-Inv r) (Reach-Served r)
Reach-Served (later r (accept sc e)) = omega arith
Reach-Served (later r (accept_fails e)) = Reach-Served r
Reach-Served (later r (spurious e)) = let v = Reach-Served r in ground arith
Reach-Served (later r (create_fails sc p f e)) = absurd (cc)

-- What is left of the hand-over.
abbrev main_weight : Main → ℕ
main_weight accepting = 0
main_weight (allocating sc) = 45
main_weight (creating sc p) = 40
main_weight locking = 5
main_weight testing = 3
main_weight waiting = 2
main_weight woken = 4
main_weight unlocking = 1

abbrev weight : Thread → ℕ
weight (started sc p) = 30
weight (holding sc p) = 20
weight (taken sc v) = 10
weight _ = 0

abbrev measure : State → ℕ
measure s = main_weight s.main + total weight s.threads

Handover-measure : {s t : State} → Handover s t → measure t < measure s
Handover-measure (allocate sc p e f) = ground arith
Handover-measure (malloc_fails sc e) = ground arith
Handover-measure (create sc p e) = ground arith
Handover-measure (lock e f) = ground arith
Handover-measure (wait e f) = ground arith
Handover-measure (relock e f) = ground arith
Handover-measure (pass e f) = ground arith
Handover-measure (unlock e) = ground arith
Handover-measure (thread_lock sc p us f c) = omega (arith, total-Change weight c)
Handover-measure (thread_take sc p v us e c) = ground (arith, total-Change weight c)
Handover-measure (thread_crash sc p us e c) = omega (arith, total-Change weight c)
Handover-measure (thread_unlock sc v us c) = omega (arith, total-Change weight c)

-- The thread that holds the mutex can move.
holder_moves : (s : State) → Inv s → 0 < total holds s.threads → (t : State) × Handover s t
holder_moves s i h = let (a, p, go) = pick holds s.threads h in moves a p go
  where
    moves :
        (a : Thread)
        → 0 < holds a
        → ((b : Thread) → (us : List Thread) × Change a b s.threads us)
        → (t : State) × Handover s t
    moves (started sc p) h go = absurd (omega arith)
    moves (holding sc p) h go =
        let (us, c) = go (taken sc sc) in
        (_, thread_take sc p sc us (Change-All (Faithful s.heap) c i.faithful) c)
    moves (taken sc v) h go = let (us, c) = go (treating sc v) in (_, thread_unlock sc v us c)
    moves (treating sc v) h go = absurd (omega arith)
    moves crashed h go = absurd (omega arith)

-- So can a thread that has not taken its socket, if the mutex is free.
pending_moves :
    (s : State)
    → Inv s
    → s.locked ≡ false
    → 0 < total pending s.threads
    → (t : State) × Handover s t
pending_moves s i f h = let (a, p, go) = pick pending s.threads h in moves a p go
  where
    moves :
        (a : Thread)
        → 0 < pending a
        → ((b : Thread) → (us : List Thread) × Change a b s.threads us)
        → (t : State) × Handover s t
    moves (started sc p) h go = let (us, c) = go (holding sc p) in (_, thread_lock sc p us f c)
    moves (holding sc p) h go =
        let (us, c) = go (taken sc sc) in
        (_, thread_take sc p sc us (Change-All (Faithful s.heap) c i.faithful) c)
    moves (taken sc v) h go = absurd (omega arith)
    moves (treating sc v) h go = absurd (omega arith)
    moves crashed h go = absurd (omega arith)

progress :
    (s : State) (m : Main)
    → s.main ≡ m
    → Inv s
    → Served s
    → m ≢ accepting
    → (t : State) × Handover s t
progress s accepting e i v r = absurd (r refl)
progress s (allocating sc) e i v r = (_, malloc_fails sc e)
progress s (creating sc p) e i v r = (_, create sc p e)
progress s locking e i v r = elim (Bool-cases s.locked) [
  | inl f ↦ holder_moves s i (ground (arith, i.mutex))
  | inr f ↦ (_, lock e f)
]
progress s testing e i v r = elim (Bool-cases s.socket_ocupado) [
  | inl f ↦ (_, wait e f)
  | inr f ↦ (_, pass e f)
]
progress s waiting e i v r = elim (Bool-cases s.locked) [
  | inl f ↦ holder_moves s i (ground (arith, i.mutex))
  | inr f ↦ pending_moves s i f (ground (arith, i.asleep e))
]
progress s woken e i v r = elim (Bool-cases s.locked) [
  | inl f ↦ holder_moves s i (ground (arith, i.mutex))
  | inr f ↦ (_, relock e f)
]
progress s unlocking e i v r = (_, unlock e)

IsAccepting : Main → Type 0
IsAccepting m = (m ≡ accepting) ⊎ (m ≢ accepting)

IsAccepting-or_not : (m : Main) → IsAccepting m
unfolding IsAccepting
IsAccepting-or_not accepting = inl refl
IsAccepting-or_not (allocating sc) = inr (λ e. cc)
IsAccepting-or_not (creating sc p) = inr (λ e. cc)
IsAccepting-or_not locking = inr (λ e. cc)
IsAccepting-or_not testing = inr (λ e. cc)
IsAccepting-or_not waiting = inr (λ e. cc)
IsAccepting-or_not woken = inr (λ e. cc)
IsAccepting-or_not unlocking = inr (λ e. cc)

settle : (n : ℕ) (s : State) → measure s < n → Inv s → Served s → Settles s
unfolding IsAccepting
settle zero s h i v = absurd (omega arith)
settle (suc n) s h i v = elim (IsAccepting-or_not s.main) [
  | inl e ↦ back e
  | inr r ↦
      let (t, st) = progress s s.main refl i v r in
      on st λ u hu.
        settle n u (omega (arith, Handover-measure hu)) (Handover-Inv hu i) (Handover-Served hu i v)
]

-- If `pthread_create` never fails, main accepts again from every state that it and its threads reach:
-- in every order of the steps of the hand-over there is a next one until it does, and the order comes
-- to an end. Waits that end by themselves are no steps of the hand-over.
pub Reach-Settles : {s : State} → Reach false s → Settles s
Reach-Settles {s} r = settle (suc (measure s)) s (omega arith) (Reach-Inv r) (Reach-Served r)
