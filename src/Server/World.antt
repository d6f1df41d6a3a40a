-- ===== src/Server/World.antt =====
-- What the treatment of a request reads and writes: the disk, and the connection to one client.
-- The client takes all that is sent to it.
use trabajos_sistemas_distri.Base.{Bool, true, Option, none, some, List, ◌++◌, Bytes}
use trabajos_sistemas_distri.Stdio.Run.{Run, done, fault, starved}
use trabajos_sistemas_distri.Stdio.Disk.{Disk}
use trabajos_sistemas_distri.Sockets.{Event, read_line, buffer_after}
use trabajos_sistemas_distri.Logic.Users.{max_str}

-- `peer` is what `inet_ntoa` makes of the client's address.
pub record World : Type 0 where
  pub disk : Disk
  pub input : List Event
  pub output : Bytes
  pub peer : Bytes
  pub closed : Bool

abbrev pub Serve : Type 0 → Type 0
Serve A = World → Run (A × World)

abbrev pub pass : {A B : Type 0} → Run (A × World) → (A → Serve B) → Run (B × World)
pass (done (a, w)) f = f a w
pass fault f = fault
pass starved f = starved

infixl 5 ◌>>=◌ ◌>>◌
abbrev pub ◌>>=◌ : {A B : Type 0} → Serve A → (A → Serve B) → Serve B
◌>>=◌ m f w = pass (m w) f

abbrev pub ◌>>◌ : {A B : Type 0} → Serve A → Serve B → Serve B
m >> k = m >>= λ _. k

abbrev pub pure : {A : Type 0} → A → Serve A
pure a w = done (a, w)

-- `readLine` into an array that nothing has been stored in.
unfoldable pub read_text : Serve (Option Bytes)
read_text w =
    let l = read_line max_str w.input in done (buffer_after none l, record w { input = l.rest })

-- The use of an array: what `readLine` has not ended with a NUL is no text.
unfoldable pub defined : Option Bytes → Serve Bytes
defined none w = fault
defined (some s) w = done (s, w)

-- `send_message`, its result ignored
unfoldable pub send : Bytes → Serve Unit
send s w = done (tt, record w { output = w.output ++ s })

unfoldable pub close : Serve Unit
close w = done (tt, record w { closed = true })

-- `getpeername` and `inet_ntoa`
unfoldable pub peer_address : Serve Bytes
peer_address w = done (w.peer, w)

abbrev pub lifted : {A : Type 0} → Run (A × Disk) → World → Run (A × World)
lifted (done (a, d)) w = done (a, record w { disk = d })
lifted fault w = fault
lifted starved w = starved

-- An operation of logic.c
unfoldable pub on_disk : {A : Type 0} → (Disk → Run (A × Disk)) → Serve A
on_disk op w = lifted (op w.disk) w

abbrev pub answered : {A : Type 0} → Run A → World → Run (A × World)
answered (done a) w = done (a, w)
answered fault w = fault
answered starved w = starved

-- A question to the disk
unfoldable pub ask : {A : Type 0} → (Disk → Run A) → Serve A
ask q w = answered (q w.disk) w
