-- ===== src/Tests/Threads.antt =====
-- main and its threads in some states that they reach.
use trabajos_sistemas_distri.Base.{ℕ, Bool, true, false, [], ◌∷◌, ◌≡◌, ◌≢◌, refl, none, some}
use trabajos_sistemas_distri.Threads.{here}
use trabajos_sistemas_distri.Mq.Main as queue
use trabajos_sistemas_distri.Mq.Main.Invariant as queue_invariant
use trabajos_sistemas_distri.Mq.Main.Receives as queue_receives
use trabajos_sistemas_distri.Server.Main as server
use trabajos_sistemas_distri.Server.Main.Invariant as server_invariant
use trabajos_sistemas_distri.Server.Main.Settles as server_settles
use trabajos_sistemas_distri.Server.Main.Blocks as server_blocks

-- A message has been copied by its thread, and main waits for the next.
abbrev copied : queue.State ℕ
copied = record {
  main = queue.receiving;
  pr = 7;
  mensaje_no_copiado = true;
  locked = false;
  threads = queue.treating 7 7 ∷ [];
}

Reach-copied : queue.Reach 0 copied
Reach-copied =
    queue.later
      (queue.later
        (queue.later
          (queue.later
            (queue.later
              (queue.later
                (queue.later (queue.later queue.start (queue.receive 7 refl))
                  (queue.handover (queue.create refl)))
                (queue.handover (queue.thread_lock 7 _ refl (here []))))
              (queue.handover (queue.thread_copy 7 _ (here []))))
            (queue.handover (queue.thread_unlock 7 7 _ (here []))))
          (queue.handover (queue.lock refl refl)))
        (queue.handover (queue.pass refl refl)))
      (queue.handover (queue.unlock refl))

Reach-Handed_example : queue_invariant.Handed copied
Reach-Handed_example = queue_invariant.Reach-Handed Reach-copied

Reach-Receives_example : queue_receives.Receives copied
Reach-Receives_example = queue_receives.Reach-Receives Reach-copied (λ e. cc)

-- The first socket has been taken, and main is about to start a thread for the second, in the cell
-- that the first has left.
abbrev second : server.State
second = record {
  main = server.creating 5 1;
  heap = server.cell (server.cell (server.cell (λ p. none) 1 (some 4)) 1 none) 1 (some 5);
  socket_ocupado = true;
  locked = false;
  threads = server.treating 4 4 ∷ [];
}

Reach-second : (may_fail : Bool) → server.Reach may_fail second
Reach-second may_fail =
    server.later
      (server.later
        (server.later
          (server.later
            (server.later
              (server.later
                (server.later
                  (server.later
                    (server.later
                      (server.later (server.later server.start (server.accept 4 refl))
                        (server.handover (server.allocate 4 1 refl refl)))
                      (server.handover (server.create 4 1 refl)))
                    (server.handover (server.thread_lock 4 1 _ refl (here []))))
                  (server.handover (server.thread_take 4 1 4 _ refl (here []))))
                (server.handover (server.thread_unlock 4 4 _ (here []))))
              (server.handover (server.lock refl refl)))
            (server.handover (server.pass refl refl)))
          (server.handover (server.unlock refl)))
        (server.accept 5 refl))
      (server.handover (server.allocate 5 1 refl refl))

Reach-Inv_example : server_invariant.Inv second
Reach-Inv_example = server_invariant.Reach-Inv (Reach-second false)

Reach-Settles_example : server_settles.Settles second
Reach-Settles_example = server_settles.Reach-Settles (Reach-second false)

-- No thread is made for the second socket: main waits, wakes by itself, and tests the flag again.
abbrev tested : server.State
tested = record second { main = server.testing; locked = true }

Later-tested : server_blocks.Later (record second { main = server.locking }) tested
Later-tested =
    server_blocks.next
      (server_blocks.next
        (server_blocks.next
          (server_blocks.next server_blocks.now (server.handover (server.lock refl refl)))
          (server.handover (server.wait refl refl)))
        (server.spurious refl))
      (server.handover (server.relock refl refl))

create_fails-blocks_example :
    server.Step true second (record second { main = server.locking })
    × (server.testing ≢ server.accepting)
    × (true ≡ true)
create_fails-blocks_example = server_blocks.create_fails-blocks 5 1 refl refl refl Later-tested
