-- ===== src/Server/Service/Contents.antt =====
-- The requests of the service on what users have published.
use trabajos_sistemas_distri.Base.{
  true, false, List, [], ◌∷◌, ◌++◌, ◌≡◌, refl, Bytes, codes, str_eq, All, All-append, arith,
  Bool-cases, inl, inr,
}
use trabajos_sistemas_distri.Stdio.Run.{done}
use trabajos_sistemas_distri.Logic.Users.Print.{has_name}
use trabajos_sistemas_distri.Logic.Users.Registry.{exist-has_name}
use trabajos_sistemas_distri.Logic.Contents.{Content}
use trabajos_sistemas_distri.Logic.Contents.Print.{IsContent, has_file, without_file}
use trabajos_sistemas_distri.Server.{tratar_peticion, dispatch}
use trabajos_sistemas_distri.Server.World.{World, defined, send, close, ask}
use trabajos_sistemas_distri.Server.Listing.{list_content}
use trabajos_sistemas_distri.Server.Listing.Lines.{IsShort}
use trabajos_sistemas_distri.Server.Requests.{announced}
use trabajos_sistemas_distri.Server.Replies.Dialogue.{
  IsField, receiving, read_text_field, tratar_peticion-dispatch,
}
use trabajos_sistemas_distri.Server.Replies.Contents.{
  publish_request, delete_request, content_requests_absent,
}
use trabajos_sistemas_distri.Server.Replies.Lists.{list_content_request}
use trabajos_sistemas_distri.Server.Service.{Service, publishes, deletes, asks_contents, fields}
use trabajos_sistemas_distri.Server.Service.Represents.{
  Represents, contents_ne_others, Represents-one, Represents-kept,
}
use trabajos_sistemas_distri.Server.Service.Requests.{answered, Served, other_files}

module _ (w : World) (r : Service) (rep : Represents r w.disk) (date : Bytes) (fd : IsField date)
    (user : Bytes) (fu : IsField user) where
  pub publish-Served :
      (c : Content)
      → IsContent c
      → IsField c.file
      → IsField c.description
      → IsShort c
      → Served w (publishes date user c) r
  publish-Served c vc ff ft short = elim (Bool-cases (has_name user r.users)) [
    | inr e ↦ (
      w.disk,
      rw e
          (content_requests_absent w r.users date user rep.stores e fd fu c.file c.description ff
            ft).0,
      rw e rep,
    )
    | inl e ↦
        let (d, ran, published, stored, same) =
          publish_request w r.users (r.contents user) date user rep.stores (rep.publishes user e) e
            fd fu c vc ff ft in
        elim (Bool-cases (has_file c.file (r.contents user))) [
          | inl f ↦ (
            d,
            rw (e, f) (rw f at ran),
            rw (e, f)
                (Represents-kept rep r.users stored _ same user refl
                  (λ n k. (other_files user n k, tt)) (λ h. rw f at published)),
          )
          | inr f ↦ (
            d,
            rw (e, f) (rw f at ran),
            rw (e, f)
                (Represents-one rep r.users stored _ same user (r.contents user ++ c ∷ [])
                  (λ n k h. h) (λ n k. (other_files user n k, tt))
                  (λ h. (
                    rw f at published,
                    All-append IsShort (r.contents user) (c ∷ []) (rep.short user e) (short, tt),
                  ))),
          )
        ]
  ]

  All-without_file-IsShort :
      (file : Bytes) (cs : List Content) → All IsShort cs → All IsShort (without_file file cs)
  unfolding without_file
  All-without_file-IsShort file [] v = tt
  All-without_file-IsShort file (c ∷ cs) (vc, v) = elim (Bool-cases (str_eq c.file file)) [
    | inl e ↦ rw e (All-without_file-IsShort file cs v)
    | inr e ↦ rw e (vc, All-without_file-IsShort file cs v)
  ]

  pub delete-Served : (file : Bytes) → IsField file → Served w (deletes date user file) r
  delete-Served file ff = elim (Bool-cases (has_name user r.users)) [
    | inr e ↦ (
      w.disk,
      rw e
          (content_requests_absent w r.users date user rep.stores e fd fu file [] ff
            (omega arith)).1,
      rw e rep,
    )
    | inl e ↦
        let (d, ran, published, stored, same) =
          delete_request w r.users (r.contents user) date user rep.stores (rep.publishes user e) e
            fd fu file ff in
        (
          d,
          rw e ran,
          rw e (
              Represents-one rep r.users stored _ same user (without_file file (r.contents user))
                (λ n k h. h) (λ n k. (other_files user n k, ((contents_ne_others n).1.1.1.1.0, tt)))
                (λ h.
                  (published, All-without_file-IsShort file (r.contents user) (rep.short user e)))),
        )
  ]

  list_content_absent :
      (target : Bytes)
      → IsField target
      → has_name user r.users ≡ true
      → has_name target r.users ≡ false
      → tratar_peticion (receiving w (fields (asks_contents date user target)))
        ≡ done (tt, answered w (1 ∷ []) w.disk)
  unfolding dispatch list_content announced defined send close ask str_eq
  list_content_absent target ft e f =
      rw
        (
          tratar_peticion-dispatch w (codes "LIST_CONTENT") (date ∷ user ∷ target ∷ [])
              (omega arith),
          read_text_field w date (user ∷ target ∷ []) fd,
          read_text_field w user (target ∷ []) fu,
          read_text_field w target [] ft,
          exist-has_name user r.users w.disk rep.stores,
          e,
          exist-has_name target r.users w.disk rep.stores,
          f,
        )
        refl

  pub list_content-Served :
      (target : Bytes) → IsField target → Served w (asks_contents date user target) r
  list_content-Served target ft = elim (Bool-cases (has_name user r.users)) [
    | inr e ↦ (
      w.disk,
      rw e
          (content_requests_absent w r.users date user rep.stores e fd fu target [] ft
            (omega arith)).2,
      rw e rep,
    )
    | inl e ↦ elim (Bool-cases (has_name target r.users)) [
      | inr f ↦ (w.disk, rw (e, f) (list_content_absent target ft e f), rw (e, f) rep)
      | inl f ↦ (
        w.disk,
        rw (e, f)
            (list_content_request w r.users (r.contents target) rep.stores date user target
              (rep.publishes target f) fd fu ft e f (rep.short target f)),
        rw (e, f) rep,
      )
    ]
  ]
