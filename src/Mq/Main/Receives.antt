-- ===== src/Mq/Main/Receives.antt =====
-- The hand-over of servidor-mq.c always comes to its end.
use trabajos_sistemas_distri.Base.{
  ℕ, zero, suc, ◌+◌, ◌<◌, false, List, ◌≡◌, refl, ◌≢◌, Bool-cases, inl, inr, arith,
}
use trabajos_sistemas_distri.Threads.{Change, total, total-Change, pick}
use trabajos_sistemas_distri.Mq.Main.{
  Main, receiving, creating, locking, testing, waiting, woken, unlocking, stopped, Thread, started,
  holding, copied, treating, State, Handover, create, lock, wait, relock, pass, unlock, thread_lock,
  thread_copy, thread_unlock, Reach,
}
use trabajos_sistemas_distri.Mq.Main.Invariant.{
  pending, holds, Handed, Handover-Handed, Reach-Handed,
}

-- What is left of the hand-over.
abbrev main_weight : Main → ℕ
main_weight receiving = 0
main_weight creating = 40
main_weight locking = 5
main_weight testing = 3
main_weight waiting = 2
main_weight woken = 4
main_weight unlocking = 1
main_weight stopped = 0

Main-discrete : Discrete Main
Main-discrete = hlevel

module _ {M : Type 0} where
  -- Whatever order the steps of the hand-over come in, it goes on until main receives again, and it
  -- does.
  pub data Receives : State M → Type 0 where
    back : {s : State M} → s.main ≡ receiving → Receives s
    on : {s t : State M} → Handover s t → ((u : State M) → Handover s u → Receives u) → Receives s

  abbrev weight : Thread M → ℕ
  weight (started m) = 30
  weight (holding m) = 20
  weight (copied m p) = 10
  weight (treating m p) = 0

  abbrev measure : State M → ℕ
  measure s = main_weight s.main + total weight s.threads

  Handover-measure : {s t : State M} → Handover s t → measure t < measure s
  Handover-measure (create e) = ground arith
  Handover-measure (lock e f) = ground arith
  Handover-measure (wait e f) = ground arith
  Handover-measure (relock e f) = ground arith
  Handover-measure (pass e f) = ground arith
  Handover-measure (unlock e) = ground arith
  Handover-measure (thread_lock m us f c) = omega (arith, total-Change weight c)
  Handover-measure {s} (thread_copy m us c) = ground (arith, total-Change weight c)
  Handover-measure (thread_unlock m p us c) = omega (arith, total-Change weight c)

  Handover-stopped : {s t : State M} → Handover s t → s.main ≢ stopped → t.main ≢ stopped
  Handover-stopped (create e) n = λ h. cc
  Handover-stopped (lock e f) n = λ h. cc
  Handover-stopped (wait e f) n = λ h. cc
  Handover-stopped (relock e f) n = λ h. cc
  Handover-stopped (pass e f) n = λ h. cc
  Handover-stopped (unlock e) n = λ h. cc
  Handover-stopped (thread_lock m us f c) n = n
  Handover-stopped {s} (thread_copy m us c) n = ground arith
  Handover-stopped (thread_unlock m p us c) n = n

  -- The thread that holds the mutex can move.
  holder_moves : (s : State M) → 0 < total holds s.threads → (t : State M) × Handover s t
  holder_moves s h = let (a, p, go) = pick holds s.threads h in moves a p go
    where
      moves :
          (a : Thread M)
          → 0 < holds a
          → ((b : Thread M) → (us : List (Thread M)) × Change a b s.threads us)
          → (t : State M) × Handover s t
      moves (started m) p go = absurd (omega arith)
      moves (holding m) p go = let (us, c) = go (copied m s.pr) in (_, thread_copy m us c)
      moves (copied m q) p go = let (us, c) = go (treating m q) in (_, thread_unlock m q us c)
      moves (treating m q) p go = absurd (omega arith)

  -- So can a thread that has not copied its message, if the mutex is free.
  pending_moves :
      (s : State M) → s.locked ≡ false → 0 < total pending s.threads → (t : State M) × Handover s t
  pending_moves s f h = let (a, p, go) = pick pending s.threads h in moves a p go
    where
      moves :
          (a : Thread M)
          → 0 < pending a
          → ((b : Thread M) → (us : List (Thread M)) × Change a b s.threads us)
          → (t : State M) × Handover s t
      moves (started m) p go = let (us, c) = go (holding m) in (_, thread_lock m us f c)
      moves (holding m) p go = let (us, c) = go (copied m s.pr) in (_, thread_copy m us c)
      moves (copied m q) p go = absurd (omega arith)
      moves (treating m q) p go = absurd (omega arith)

  progress :
      (s : State M) (m : Main)
      → s.main ≡ m
      → Handed s
      → m ≢ receiving
      → m ≢ stopped
      → (t : State M) × Handover s t
  progress s receiving e v r n = absurd (r refl)
  progress s creating e v r n = (_, create e)
  progress s locking e v r n = elim (Bool-cases s.locked) [
    | inl f ↦ holder_moves s (ground (arith, v.mutex))
    | inr f ↦ (_, lock e f)
  ]
  progress s testing e v r n = elim (Bool-cases s.mensaje_no_copiado) [
    | inl f ↦ (_, wait e f)
    | inr f ↦ (_, pass e f)
  ]
  progress s waiting e v r n = elim (Bool-cases s.locked) [
    | inl f ↦ holder_moves s (ground (arith, v.mutex))
    | inr f ↦ pending_moves s f (ground (arith, v.handed, v.asleep e))
  ]
  progress s woken e v r n = elim (Bool-cases s.locked) [
    | inl f ↦ holder_moves s (ground (arith, v.mutex))
    | inr f ↦ (_, relock e f)
  ]
  progress s unlocking e v r n = (_, unlock e)
  progress s stopped e v r n = absurd (n refl)

  settle : (n : ℕ) (s : State M) → measure s < n → Handed s → s.main ≢ stopped → Receives s
  settle zero s h v n = absurd (omega arith)
  settle (suc k) s h v n = elim (Main-discrete s.main receiving) [
    | yes e ↦ back e
    | no r ↦
        let (t, st) = progress s s.main refl v r n in
        on st λ u hu.
          settle k u (omega (arith, Handover-measure hu)) (Handover-Handed hu v)
            (Handover-stopped hu n)
  ]

  -- From every state that main and its threads reach in which main has not stopped, main receives
  -- again: in every order of the steps of the hand-over there is a next one until it does, and the
  -- order comes to an end. Waits that end by themselves and failures of `pthread_create` are no
  -- steps of the hand-over.
  pub Reach-Receives : {old : M} {s : State M} → Reach old s → s.main ≢ stopped → Receives s
  Reach-Receives {s} r n = settle (suc (measure s)) s (omega arith) (Reach-Handed r) n
