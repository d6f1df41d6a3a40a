-- ===== src/Server/Service/Users.antt =====
-- The requests of the service that change users.
use trabajos_sistemas_distri.Base.{
  [], refl, ◌≢◌, ◌∙◌, Bytes, All, arith, Bool-cases, inl, inr, pos, IsInt,
}
use trabajos_sistemas_distri.Stdio.Decimal.{atoi}
use trabajos_sistemas_distri.Stdio.Scan.Laws.{IsWord}
use trabajos_sistemas_distri.Stdio.Disk.Laws.{str_eq_ne}
use trabajos_sistemas_distri.Logic.Users.{max_str, contents_file}
use trabajos_sistemas_distri.Logic.Users.Print.{has_name}
use trabajos_sistemas_distri.Logic.Users.Loops.{at_address, with_flag, has_flag}
use trabajos_sistemas_distri.Logic.Users.Lists.{
  has_name-append, has_name-without, has_name-without_self, has_name-map, name-at_address,
  name-with_flag,
}
use trabajos_sistemas_distri.Server.World.{World}
use trabajos_sistemas_distri.Server.Replies.Dialogue.{IsField}
use trabajos_sistemas_distri.Server.Replies.Users.{
  register_request, unregister_request, disconnect_request,
}
use trabajos_sistemas_distri.Server.Replies.Connect.{connect_files, connect_request}
use trabajos_sistemas_distri.Server.Service.{Service, registers, unregisters, connects, disconnects}
use trabajos_sistemas_distri.Server.Service.Represents.{
  IsFileName, Represents, contents_ne_others, Represents-users, Represents-one, Represents-kept,
  Publishes-now,
}
use trabajos_sistemas_distri.Server.Service.Requests.{Served, other_files}

module _ (w : World) (r : Service) (rep : Represents r w.disk) (date : Bytes) (fd : IsField date)
    (user : Bytes) (fu : IsField user) where
  pub register-Served :
      IsWord max_str user
      → IsFileName (contents_file user)
      → IsWord 32 w.peer
      → Served w (registers date user) r
  register-Served hu hn hi =
      let (d, ran, stored, made, same) =
        register_request w r.users rep.stores date user fd fu hu hi (rep.writable user hn) in
      elim (Bool-cases (has_name user r.users)) [
        | inl e ↦ (
          d,
          rw e (rw e at ran),
          rw e (
              Represents-kept rep r.users (rw e at stored) _ same user refl
                (λ n k. ((contents_ne_others n).0, (other_files user n k, tt)))
                (λ h.
                  let p = rep.publishes user e in
                  Publishes-now rep r.users (rw e at stored) _ same user (r.contents user) hn
                    (rw e at made ∙ p.file) p.valid)),
        )
        | inr e ↦ (
          d,
          rw e (rw e at ran),
          rw e (
              Represents-one rep _ (rw e at stored) _ same user []
                (λ n k h. ground (
                  arith,
                  has_name-append n r.users
                      (record { name = user; ip = w.peer; port = pos 0; connected = pos 0 }),
                  str_eq_ne user n k,
                ))
                (λ n k. ((contents_ne_others n).0, (other_files user n k, tt)))
                (λ h.
                  (Publishes-now rep _ (rw e at stored) _ same user [] hn (rw e at made) tt, tt))),
        )
      ]

  pub unregister-Served : Served w (unregisters date user) r
  unregister-Served =
      let (d, ran, stored, gone, same) = unregister_request w r.users rep.stores date user fd fu in
      (
        d,
        ran,
        Represents-one rep _ stored _ same user []
            (λ n k h. ground (arith, has_name-without n user r.users))
            (λ n k. let o = contents_ne_others n in (o.0, (o.1.0, (other_files user n k, tt))))
            (λ h. absurd (ground (arith, has_name-without_self user r.users))),
      )

  pub disconnect-Served : Served w (disconnects date user) r
  disconnect-Served =
      let (d, ran, stored, same) = disconnect_request w r.users rep.stores date user fd fu in
      (
        d,
        ran,
        Represents-users rep _ stored _ same
            (λ n h.
              rw (has_name-map (with_flag (pos 0) user) (name-with_flag (pos 0) user) n r.users) at
                h)
            (λ n. let o = contents_ne_others n in (o.0, (o.1.1.1.0, tt))),
      )

  pub connect-Served :
      (port : Bytes)
      → IsField port
      → IsInt (atoi port)
      → IsWord 32 w.peer
      → Served w (connects date user port) r
  connect-Served port hf hp hi =
      let (d, ran, stored, same) =
        connect_request w r.users rep.stores date user fd fu port hf hp hi in
      let files : (n : Bytes) → All (λ f. f ≢ contents_file n) connect_files =
        λ n. let o = contents_ne_others n in (o.0, (o.1.1.1.0, (o.1.1.0, tt))) in
      elim (Bool-cases (has_name user r.users)) [
        | inr e ↦ (
          d,
          rw e (rw e at ran),
          rw e (Represents-users rep r.users (rw e at stored) _ same (λ n h. h) files),
        )
        | inl e ↦ elim (Bool-cases (has_flag (pos 1) user r.users)) [
          | inl f ↦ (
            d,
            rw (e, f) (rw (e, f) at ran),
            rw (e, f) (Represents-users rep r.users (rw (e, f) at stored) _ same (λ n h. h) files),
          )
          | inr f ↦ (
            d,
            rw (e, f) (rw (e, f) at ran),
            rw (e, f)
                (Represents-users rep _ (rw (e, f) at stored) _ same
                  (λ n h.
                    rw
                      (has_name-map (at_address user w.peer (atoi port))
                        (name-at_address user w.peer (atoi port)) n r.users)
                      at h)
                  files),
          )
        ]
      ]
