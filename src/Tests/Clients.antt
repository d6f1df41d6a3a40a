-- ===== src/Tests/Clients.antt =====
-- The test clients, on the store and the numbers of Store, behind the proxies of the three exercises.
use trabajos_sistemas_distri.Base.{
  codes, true, false, List, [], ◌∷◌, ◌++◌, ◌≡◌, refl, any, pos, arith, ℕ,
}
use trabajos_sistemas_distri.Stdio.Run.{Run, done}
use trabajos_sistemas_distri.Stdio.Disk.{Disk}
use trabajos_sistemas_distri.Claves.Tuples.{Tuple}
use trabajos_sistemas_distri.Claves.Tuples.Loops.{has_key}
use trabajos_sistemas_distri.Claves.Store.Holds.{without}
use trabajos_sistemas_distri.Rpc.Proxy.{Outcome, returned, Client}
use trabajos_sistemas_distri.Clients.Program.{Request, Answer, Printed, run}
use trabajos_sistemas_distri.Clients.Contract.{IsStore, serve, GivesOn, GivesOn-every}
use trabajos_sistemas_distri.Clients.Queues.{call_queues-IsStore}
use trabajos_sistemas_distri.Clients.Rpc.{call_proxy-IsStore}
use trabajos_sistemas_distri.Clients.Sockets.{call_sockets-IsStore}
use trabajos_sistemas_distri.Clients.Behind.{
  EndsEarly, HoldsEarly, HasLines, HoldsLines, call_sockets, call_queues, call_proxy, Serves,
}
use trabajos_sistemas_distri.Sock.Reply.{IsSent}
use trabajos_sistemas_distri.Clients.Checks.{prints_vector}
use trabajos_sistemas_distri.Claves.Tuples.Loops.{lookup}
use trabajos_sistemas_distri.Clients.Values.{five, six, set_1}
use trabajos_sistemas_distri.Clients.Contract.{exact}
use trabajos_sistemas_distri.Clients.Tester.{app_cliente, app_cliente_1}
use trabajos_sistemas_distri.Clients.Short.{
  changed, sets_and_deletes, app_cliente_2, app_cliente_3, app_cliente_4,
}
use trabajos_sistemas_distri.Clients.Passes.{
  is_complaint, numbers, seen, left_behind, left_behind_1, app_cliente-passes, app_cliente_1-passes,
}
use trabajos_sistemas_distri.Clients.Restores.{sets_and_deletes-restores}
use trabajos_sistemas_distri.Clients.Beside.{set_and_changed, app_cliente_2-app_cliente_4}
use trabajos_sistemas_distri.Clients.Third.{app_cliente_3-complains}
use trabajos_sistemas_distri.Tests.Store.{tally, IsLawful-tally, garbage, first, disk, Holds-first}
use trabajos_sistemas_distri.Tests.Rpc.{client, CanCall-client}

abbrev State : Type 0
State = Client tally × Disk

abbrev behind_proxy : (r : Request ℕ) → State → Run (Outcome (Answer r × State))
behind_proxy = call_proxy tally (λ ip. true) (pos 0) (pos 0) garbage garbage garbage

abbrev Serving : List (Tuple ℕ) → State → Type 0
Serving = Serves tally (λ ip. true) (pos 0) (pos 0) garbage garbage garbage

call_proxy-IsStore_example : IsStore tally (λ t. Unit) behind_proxy Serving
call_proxy-IsStore_example =
    call_proxy-IsStore tally (λ ip. true) (pos 0) (pos 0) garbage garbage garbage IsLawful-tally
      refl (omega arith) (omega arith) refl refl refl refl

store : IsStore tally (λ t. Unit) behind_proxy Serving
store =
    call_proxy-IsStore tally (λ ip. true) (pos 0) (pos 0) garbage garbage garbage IsLawful-tally
      refl (omega arith) (omega arith) refl refl refl refl

start : Serving (first ∷ []) (client, disk)
start = record { can = CanCall-client; holds = Holds-first }

abbrev behind_queues : (r : Request ℕ) → Disk → Run (Outcome (Answer r × Disk))
behind_queues = call_queues tally 0 (pos 7) (codes "rest") garbage garbage

call_queues-IsStore_example : IsStore tally (EndsEarly tally) behind_queues (HoldsEarly tally)
call_queues-IsStore_example =
    call_queues-IsStore tally 0 (pos 7) (codes "rest") garbage garbage IsLawful-tally refl refl

queue_store : IsStore tally (EndsEarly tally) behind_queues (HoldsEarly tally)
queue_store =
    call_queues-IsStore tally 0 (pos 7) (codes "rest") garbage garbage IsLawful-tally refl refl

HoldsEarly-first : HoldsEarly tally (first ∷ []) disk
HoldsEarly-first = record { holds = Holds-first; early = (omega arith, tt) }

app_cliente-EndsEarly : GivesOn tally (EndsEarly tally) (app_cliente tally) (first ∷ [])
unfolding app_cliente serve has_key without lookup prints_vector
app_cliente-EndsEarly = (
  tt,
  (
    tt,
    (
      (λ e. omega arith),
      (
        (λ e. omega arith),
        (
          (λ e. omega arith),
          (
            (λ e. omega arith),
            (
              (λ e. omega arith),
              (
                (λ e. absurd (cc)),
                (
                  (λ e. absurd (cc)),
                  (
                    tt,
                    (
                      tt,
                      (
                        tt,
                        (
                          tt,
                          (
                            tt,
                            (
                              tt,
                              (
                                tt,
                                (
                                  tt,
                                  (
                                    (λ e. omega arith),
                                    (
                                      (λ e. omega arith),
                                      (
                                        (λ e. omega arith),
                                        (
                                          (λ e. absurd (cc)),
                                          ((λ e. absurd (cc)), (tt, (tt, (tt, (tt, (tt, tt)))))),
                                        ),
                                      ),
                                    ),
                                  ),
                                ),
                              ),
                            ),
                          ),
                        ),
                      ),
                    ),
                  ),
                ),
              ),
            ),
          ),
        ),
      ),
    ),
  ),
)

sets_and_deletes-EndsEarly : GivesOn tally (EndsEarly tally) (sets_and_deletes tally) (first ∷ [])
unfolding sets_and_deletes serve has_key without lookup prints_vector
sets_and_deletes-EndsEarly = (λ e. omega arith, (tt, tt))

app_cliente-passes_example :
    (out : List (Printed ℕ)) × (s' : Disk) × (run behind_queues (app_cliente tally) disk
      ≡ done (out, returned (pos 0, s')))
    × (any is_complaint out ≡ false)
    × (numbers out ≡ seen tally (five tally))
    × HoldsEarly tally (left_behind tally) s'
app_cliente-passes_example =
    app_cliente-passes tally (EndsEarly tally) behind_queues (HoldsEarly tally) queue_store
      (first ∷ []) disk HoldsEarly-first app_cliente-EndsEarly

app_cliente_1-passes_example :
    (out : List (Printed ℕ)) × (s' : State) × (run behind_proxy (app_cliente_1 tally) (client, disk)
      ≡ done (out, returned (pos 0, s')))
    × (any is_complaint out ≡ false)
    × (numbers out ≡ seen tally (exact tally (set_1 tally (six tally))).v_value2)
    × Serving (left_behind_1 tally) s'
app_cliente_1-passes_example =
    app_cliente_1-passes tally (λ t. Unit) behind_proxy Serving store (first ∷ []) (client, disk)
      start (GivesOn-every tally (λ t. Unit) (λ u. tt) (app_cliente_1 tally) (first ∷ []))

sets_and_deletes-restores_example :
    (out : List (Printed ℕ)) × (s' : Disk) × (run behind_queues (sets_and_deletes tally) disk
      ≡ done (out, returned (pos 0, s')))
    × (any is_complaint out ≡ false)
    × HoldsEarly tally (first ∷ []) s'
unfolding has_key without
sets_and_deletes-restores_example =
    sets_and_deletes-restores tally (EndsEarly tally) behind_queues (HoldsEarly tally) queue_store
      (first ∷ []) disk HoldsEarly-first sets_and_deletes-EndsEarly

IsSent-garbage : IsSent tally (exact tally garbage)
IsSent-garbage = record {
  line = tt;
  short = omega arith;
  counted = refl;
  fits = omega arith;
  sends = tt;
  x = omega arith;
  y = omega arith;
}

abbrev behind_sockets : (r : Request ℕ) → Disk → Run (Outcome (Answer r × Disk))
behind_sockets = call_sockets tally (pos 0) (pos 0) garbage garbage

call_sockets-IsStore_example : IsStore tally (HasLines tally) behind_sockets (HoldsLines tally)
call_sockets-IsStore_example =
    call_sockets-IsStore tally (pos 0) (pos 0) garbage garbage IsLawful-tally refl IsSent-garbage
      refl refl refl

socket_store : IsStore tally (HasLines tally) behind_sockets (HoldsLines tally)
socket_store =
    call_sockets-IsStore tally (pos 0) (pos 0) garbage garbage IsLawful-tally refl IsSent-garbage
      refl refl refl

HoldsLines-first : HoldsLines tally (first ∷ []) disk
HoldsLines-first = record {
  holds = Holds-first;
  lines = (
    record {
      line = omega arith;
      sends = ((omega arith, omega arith), ((omega arith, omega arith), tt));
    },
    tt,
  );
}

app_cliente_2-HasLines : GivesOn tally (HasLines tally) (app_cliente_2 tally) (first ∷ [])
unfolding app_cliente_2 serve has_key without lookup prints_vector
app_cliente_2-HasLines = (
  tt,
  (
    (λ e. record {
      line = omega arith;
      sends = (
        (omega arith, omega arith),
        ((omega arith, omega arith), ((omega arith, omega arith), tt)),
      );
    }),
    (
      tt,
      (
        (λ e. record {
          line = omega arith;
          sends = (
            (omega arith, omega arith),
            ((omega arith, omega arith), ((omega arith, omega arith), tt)),
          );
        }),
        (tt, tt),
      ),
    ),
  ),
)

app_cliente_4-HasLines :
    GivesOn tally
      (HasLines tally)
      (app_cliente_4 tally)
      (first ∷ changed tally (pos 100) "modificado_cliente2" ∷ [])
unfolding app_cliente_4 serve has_key without lookup prints_vector
app_cliente_4-HasLines = (
  tt,
  (
    (λ e. record {
      line = omega arith;
      sends = (
        (omega arith, omega arith),
        ((omega arith, omega arith), ((omega arith, omega arith), tt)),
      );
    }),
    (
      tt,
      (
        (λ e. record {
          line = omega arith;
          sends = (
            (omega arith, omega arith),
            ((omega arith, omega arith), ((omega arith, omega arith), tt)),
          );
        }),
        (tt, tt),
      ),
    ),
  ),
)

app_cliente_2-app_cliente_4_example :
    (out : List (Printed ℕ)) × (s' : Disk) × (out' : List (Printed ℕ)) × (s'' : Disk) × (run
        behind_sockets
        (app_cliente_2 tally)
        disk
      ≡ done (out, returned (pos 0, s')))
    × (run behind_sockets (app_cliente_4 tally) s' ≡ done (out', returned (pos 0, s'')))
    × (any is_complaint (out ++ out') ≡ false)
    × (numbers out ≡ set_and_changed tally)
    × (numbers out' ≡ set_and_changed tally)
    × HoldsLines tally
        (first
          ∷ changed tally (pos 100) "modificado_cliente2"
          ∷ changed tally (pos 200) "modificado_cliente4"
          ∷ [])
        s''
unfolding has_key
app_cliente_2-app_cliente_4_example =
    app_cliente_2-app_cliente_4 tally (HasLines tally) behind_sockets (HoldsLines tally)
      socket_store (first ∷ []) disk HoldsLines-first refl refl app_cliente_2-HasLines
      app_cliente_4-HasLines

app_cliente_3-complains_example :
    (out : List (Printed ℕ)) × (s' : State) × (run behind_proxy (app_cliente_3 tally) (client, disk)
      ≡ done (out, returned (pos 0, s')))
    × (any is_complaint out ≡ true)
    × Serving (first ∷ changed tally (pos 100) "modificado_cliente3" ∷ []) s'
unfolding without
app_cliente_3-complains_example =
    app_cliente_3-complains tally (λ t. Unit) behind_proxy Serving store (first ∷ []) (client, disk)
      start (GivesOn-every tally (λ t. Unit) (λ u. tt) (app_cliente_3 tally) (first ∷ []))
