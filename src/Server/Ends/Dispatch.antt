-- ===== src/Server/Ends/Dispatch.antt =====
-- `tratar_peticion` comes to its end, whatever the client sends and the files hold.
use trabajos_sistemas_distri.Base.{◌≢◌, Bytes, codes, str_eq}
use trabajos_sistemas_distri.Stdio.Run.{starved}
use trabajos_sistemas_distri.Server.World.{World}
use trabajos_sistemas_distri.Server.Ends.{
  Ends, andthen, if-Ends, send-Ends, close-Ends, defined-Ends, read_then,
}
use trabajos_sistemas_distri.Server.Ends.Commands.{
  register-Ends, unregister-Ends, connect-Ends, disconnect-Ends, publish-Ends, delete-Ends,
}
use trabajos_sistemas_distri.Server.Ends.Lists.{list_users-Ends, list_content-Ends, get_file-Ends}
use trabajos_sistemas_distri.Server.{dispatch, tratar_peticion}

dispatch-Ends : (command : Bytes) → Ends (dispatch command)
unfolding dispatch
dispatch-Ends command = if-Ends (str_eq command (codes "REGISTER")) _ _ register-Ends (
    if-Ends (str_eq command (codes "UNREGISTER")) _ _ unregister-Ends (
      if-Ends (str_eq command (codes "CONNECT")) _ _ connect-Ends (
        if-Ends (str_eq command (codes "DISCONNECT")) _ _ disconnect-Ends (
          if-Ends (str_eq command (codes "PUBLISH")) _ _ publish-Ends (
            if-Ends (str_eq command (codes "DELETE")) _ _ delete-Ends (
              if-Ends (str_eq command (codes "LIST_USERS")) _ _ list_users-Ends (
                if-Ends (str_eq command (codes "LIST_CONTENT")) _ _ list_content-Ends (
                  if-Ends (str_eq command (codes "GET_FILE")) _ _ get_file-Ends
                    (send-Ends _)))))))))

tratar_peticion-Ends : Ends tratar_peticion
unfolding tratar_peticion
tratar_peticion-Ends = read_then _ λ line.
    andthen _ _ (defined-Ends line) λ command. andthen _ _ (dispatch-Ends command) (λ _. close-Ends)

-- In every state of the disk, and whatever the client sends, `tratar_peticion` comes to its end or
-- to a fault of the C code (an array that is overrun, or read before a text was stored in it): none
-- of its loops runs out of the fuel that the size of its file gives it.
pub tratar_peticion-ne-starved : (w : World) → tratar_peticion w ≢ starved
tratar_peticion-ne-starved w = tratar_peticion-Ends.ends w
