-- ===== src/Server/Ends/Commands.antt =====
-- The handlers of the commands that change the disk come to their end.
use trabajos_sistemas_distri.Base.{Option, Bytes, ℤ, pos, not, int_eq}
use trabajos_sistemas_distri.Stdio.Decimal.{atoi}
use trabajos_sistemas_distri.Logic.Ends.{
  exist-ne-starved, update_user_ip_port-ne-starved, register_user-ne-starved,
  unregister_user-ne-starved, connect_user-ne-starved, disconnect_user-ne-starved,
  publish_content-ne-starved, delete_content-ne-starved,
}
use trabajos_sistemas_distri.Server.Requests.{
  register, unregister, connect_existing, connect, disconnect, publish_existing, publish,
  delete_existing, delete,
}
use trabajos_sistemas_distri.Server.Ends.{
  Ends, andthen, if-Ends, send-Ends, peer_address-Ends, defined-Ends, on_disk-Ends, ask-Ends,
  announced_then, read_then, disk_then,
}

pub register-Ends : Ends register
unfolding register
register-Ends = read_then _ λ fecha_hora. read_then _ λ user.
    announced_then user fecha_hora _
      λ u. andthen _ _ peer_address-Ends λ ip. disk_then _ _ (register_user-ne-starved u ip (pos 0))

pub unregister-Ends : Ends unregister
unfolding unregister
unregister-Ends = read_then _ λ fecha_hora.
    read_then _
      λ user. announced_then user fecha_hora _ λ u. disk_then _ _ (unregister_user-ne-starved u)

pub connect_existing-Ends : (user ip : Bytes) (port : ℤ) → Ends (connect_existing user ip port)
unfolding connect_existing
connect_existing-Ends user ip port =
    andthen _ _ (on_disk-Ends _ (connect_user-ne-starved user)) λ conn.
      if-Ends (int_eq conn (pos 1)) _ _ (send-Ends _) (
        if-Ends (int_eq conn (pos 0)) _ _
          (andthen _ _ (on_disk-Ends _ (update_user_ip_port-ne-starved user ip port))
            (λ res. send-Ends _))
          (send-Ends _))

pub connect-Ends : Ends connect
unfolding connect
connect-Ends = read_then _ λ fecha_hora. read_then _ λ user. read_then _ λ port_str.
    andthen _ _ (defined-Ends port_str) λ p. announced_then user fecha_hora _ λ u.
      andthen _ _ peer_address-Ends λ ip.
        andthen _ _ (ask-Ends _ (exist-ne-starved u))
          λ reg. if-Ends (not reg) _ _ (send-Ends _) (connect_existing-Ends u ip (atoi p))

pub disconnect-Ends : Ends disconnect
unfolding disconnect
disconnect-Ends = read_then _ λ fecha_hora.
    read_then _
      λ user. announced_then user fecha_hora _ λ u. disk_then _ _ (disconnect_user-ne-starved u)

pub publish_existing-Ends :
    (user : Bytes) (file desc : Option Bytes) → Ends (publish_existing user file desc)
unfolding publish_existing
publish_existing-Ends user file desc =
    andthen _ _ (defined-Ends file)
      λ f. andthen _ _ (defined-Ends desc) λ t. disk_then _ _ (publish_content-ne-starved user f t)

pub publish-Ends : Ends publish
unfolding publish
publish-Ends = read_then _ λ fecha_hora. read_then _ λ user. read_then _ λ file. read_then _ λ desc.
    announced_then user fecha_hora _ λ u.
      andthen _ _ (ask-Ends _ (exist-ne-starved u))
        λ there. if-Ends (not there) _ _ (send-Ends _) (publish_existing-Ends u file desc)

pub delete_existing-Ends : (user : Bytes) (file : Option Bytes) → Ends (delete_existing user file)
unfolding delete_existing
delete_existing-Ends user file =
    andthen _ _ (defined-Ends file) λ f. disk_then _ _ (delete_content-ne-starved user f)

pub delete-Ends : Ends delete
unfolding delete
delete-Ends = read_then _ λ fecha_hora. read_then _ λ user. read_then _ λ file.
    announced_then user fecha_hora _ λ u.
      andthen _ _ (ask-Ends _ (exist-ne-starved u))
        λ there. if-Ends (not there) _ _ (send-Ends _) (delete_existing-Ends u file)
