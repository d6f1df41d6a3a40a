-- ===== src/Tests/Mq.antt =====
-- The proxy and the server over message queues, on the store and the numbers of Store.
use trabajos_sistemas_distri.Base.{◌∷◌, ◌≡◌, refl, pos, minus_one}
use trabajos_sistemas_distri.Mq.Server.{tratar_peticion}
use trabajos_sistemas_distri.Mq.Proxy.{
  open_server, open_client, give_back, named, blank, d_send_receive,
}
use trabajos_sistemas_distri.Mq.Remote.{after, nothing, store_queues, d_send_receive-gives_back}
use trabajos_sistemas_distri.Tests.Store.{tally, garbage, disk}

d_send_receive-gives_back_example :
    after (open_server ∷ open_client ∷ give_back tally) nothing ≡ nothing
unfolding tratar_peticion blank d_send_receive
d_send_receive-gives_back_example =
    d_send_receive-gives_back tally (store_queues tally (pos 7) garbage)
      (blank tally 0 (pos 9) (pos 5)) disk disk
      (
        (
          minus_one,
          record (named tally (pos 7) (blank tally 0 (pos 9) (pos 5))) { res = minus_one },
        ),
        open_server ∷ open_client ∷ give_back tally,
      )
      refl
