-- ===== src/Sock/Main.antt =====
-- How main of ejercicio_evaluable_2/servidor-sock.c begins. Its loop, and the hand-over of a socket
-- to a thread, are the text of Práctica_Final/server.c, which Server.Main models.
use trabajos_sistemas_distri.Base.{ℕ, ◌==◌, if◌then◌else◌, Bytes, ℤ, pos, minus_one, int_eq}
use trabajos_sistemas_distri.Stdio.Decimal.{atoi}
use trabajos_sistemas_distri.Server.Main.{Start, returns, listens, port_of, is_negative}

-- The number of arguments, the first of them, and what `socket`, `bind` and `listen` return.
unfoldable pub begin : ℕ → Bytes → ℤ → ℤ → ℤ → Start
begin argc argv1 ss bound listening =
    if argc == 2
    then (if is_negative ss
        then returns (pos 0)
        else if int_eq bound minus_one
        then returns minus_one
        else if int_eq listening minus_one
        then returns minus_one
        else listens (port_of (atoi argv1)))
    else returns minus_one
