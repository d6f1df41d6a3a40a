-- ===== src/Server/Requests.antt =====
-- The commands of `tratar_peticion` that change the disk. `printf` uses the user and the date, so
-- both must have been received.
use trabajos_sistemas_distri.Base.{ℕ, Option, [], ◌∷◌, if◌then◌else◌, not, Bytes, ℤ, pos, int_eq}
use trabajos_sistemas_distri.Stdio.Decimal.{atoi}
use trabajos_sistemas_distri.Server.World.{
  Serve, pure, ◌>>=◌, read_text, defined, send, peer_address, on_disk, ask,
}
use trabajos_sistemas_distri.Logic.Users.{
  exist, update_user_ip_port, register_user, unregister_user, connect_user, disconnect_user,
}
use trabajos_sistemas_distri.Logic.Contents.{publish_content, delete_content}

-- `printf ("OPERATION … FROM %s  %s\n", user, fecha_hora)`: the user.
unfoldable pub announced : Option Bytes → Option Bytes → Serve Bytes
announced user fecha_hora = do u ← defined user; f ← defined fecha_hora; pure u

unfoldable pub register_code : ℤ → ℕ
register_code res = if int_eq res (pos 0) then 0 else if int_eq res (pos 1) then 1 else 2

unfoldable pub register : Serve Unit
unfolding register_code
register = do
  fecha_hora ← read_text
  user ← read_text
  u ← announced user fecha_hora
  ip ← peer_address
  res ← on_disk (register_user u ip (pos 0))
  send (register_code res ∷ [])

unfoldable pub unregister : Serve Unit
unregister = do
  fecha_hora ← read_text
  user ← read_text
  u ← announced user fecha_hora
  res ← on_disk (unregister_user u)
  send ((if int_eq res (pos 0) then 0 else 1) ∷ [])

-- `CONNECT` of a user that exists
unfoldable pub connect_existing : Bytes → Bytes → ℤ → Serve Unit
connect_existing user ip port = do
  conn ← on_disk (connect_user user)
  if int_eq conn (pos 1)
      then send (2 ∷ [])
      else if int_eq conn (pos 0)
      then (do res ← on_disk (update_user_ip_port user ip port); send (0 ∷ []))
      else send (3 ∷ [])

unfoldable pub connect : Serve Unit
unfolding connect_existing
connect = do
  fecha_hora ← read_text
  user ← read_text
  port_str ← read_text
  p ← defined port_str
  u ← announced user fecha_hora
  ip ← peer_address
  reg ← ask (exist u)
  if not reg then send (1 ∷ []) else connect_existing u ip (atoi p)

unfoldable pub disconnect_code : ℤ → ℕ
disconnect_code res = if int_eq res (pos 0) then 0 else if int_eq res (pos 1) then 2 else 1

unfoldable pub disconnect : Serve Unit
unfolding disconnect_code
disconnect = do
  fecha_hora ← read_text
  user ← read_text
  u ← announced user fecha_hora
  res ← on_disk (disconnect_user u)
  send (disconnect_code res ∷ [])

-- The code of `PUBLISH` and of `DELETE`.
unfoldable pub content_code : ℤ → ℕ
content_code res =
    if int_eq res (pos 0)
    then 0
    else if int_eq res (pos 2)
    then 2
    else if int_eq res (pos 3)
    then 3
    else 4

-- `PUBLISH` by a user that exists
unfoldable pub publish_existing : Bytes → Option Bytes → Option Bytes → Serve Unit
unfolding content_code
publish_existing user file desc = do
  f ← defined file
  t ← defined desc
  res ← on_disk (publish_content user f t)
  send (content_code res ∷ [])

unfoldable pub publish : Serve Unit
unfolding publish_existing
publish = do
  fecha_hora ← read_text
  user ← read_text
  file ← read_text
  desc ← read_text
  u ← announced user fecha_hora
  there ← ask (exist u)
  if not there then send (1 ∷ []) else publish_existing u file desc

-- `DELETE` by a user that exists
unfoldable pub delete_existing : Bytes → Option Bytes → Serve Unit
unfolding content_code
delete_existing user file = do
  f ← defined file
  res ← on_disk (delete_content user f)
  send (content_code res ∷ [])

unfoldable pub delete : Serve Unit
unfolding delete_existing
delete = do
  fecha_hora ← read_text
  user ← read_text
  file ← read_text
  u ← announced user fecha_hora
  there ← ask (exist u)
  if not there then send (1 ∷ []) else delete_existing u file
