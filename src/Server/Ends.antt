-- ===== src/Server/Ends.antt =====
-- When an action of the server comes to its end in every state, and the actions that the treatment
-- of a request is put together from.
pub mod Commands
pub mod Lists
pub mod Dispatch
use trabajos_sistemas_distri.Base.{
  ℕ, zero, suc, ◌-◌, ◌≤◌, ◌<◌, Bool, true, false, Option, none, some, List, [], ◌∷◌, ◌≡◌, ◌≢◌, refl,
  Bytes, ℤ, pos, length, if◌then◌else◌, not, int_eq, str_eq, codes, arith,
}
use trabajos_sistemas_distri.Stdio.Decimal.{atoi, decimal, print_int}
use trabajos_sistemas_distri.Stdio.Run
use trabajos_sistemas_distri.Stdio.Run.{Run, done, fault, starved, >>=-ne-starved}
use trabajos_sistemas_distri.Stdio.Disk.{Disk, open_read}
use trabajos_sistemas_distri.Stdio.Scan.{take_fgets, records}
use trabajos_sistemas_distri.Stdio.Scan.Ends.{length-take_fgets, records-ne-starved}
use trabajos_sistemas_distri.Logic.Users.{
  max_str, users_file, User, scan_user, contents_name, exist, update_user_ip_port, register_user,
  unregister_user, connect_user, disconnect_user,
}
use trabajos_sistemas_distri.Logic.Users.Print.{scan_user-nil}
use trabajos_sistemas_distri.Logic.Contents.{publish_content, delete_content}
use trabajos_sistemas_distri.Logic.Ends.{
  done-ne-starved, scan_user-Shrinks, contents_name-ne-starved, exist-ne-starved,
  update_user_ip_port-ne-starved, register_user-ne-starved, unregister_user-ne-starved,
  connect_user-ne-starved, disconnect_user-ne-starved, publish_content-ne-starved,
  delete_content-ne-starved,
}
use trabajos_sistemas_distri.Server.World.{
  World, Serve, pass, pure, ◌>>=◌, ◌>>◌, read_text, defined, send, close, peer_address, lifted,
  on_disk, answered, ask,
}
use trabajos_sistemas_distri.Server.Requests.{
  announced, register_code, register, unregister, connect_existing, connect, disconnect_code,
  disconnect, content_code, publish_existing, publish, delete_existing, delete,
}
use trabajos_sistemas_distri.Server.Listing.{
  c_string, send_each_user, send_users, list_users, get_file, fgets_all, fgets_lines, first_word,
  send_found, send_each_file, send_contents, list_content,
}
use trabajos_sistemas_distri.Server.{dispatch, tratar_peticion}

pub record Ends {A : Type 0} (m : Serve A) : Type 0 where
  pub ends : (w : World) → m w ≢ starved

pass-ne-starved :
    {A B : Type 0} (r : Run (A × World)) (f : A → Serve B)
    → r ≢ starved
    → ((a : A) → Ends (f a))
    → pass r f ≢ starved
pass-ne-starved (done (a, w)) f h k = (k a).ends w
pass-ne-starved fault f h k = λ e. cc
pass-ne-starved starved f h k = absurd (h refl)

-- One step after another
pub andthen :
    {A B : Type 0} (m : Serve A) (f : A → Serve B)
    → Ends m
    → ((a : A) → Ends (f a))
    → Ends (m >>= f)
andthen m f h k = record { ends = λ w. pass-ne-starved (m w) f (h.ends w) k }

pub if-Ends : {A : Type 0} (b : Bool) (m k : Serve A) → Ends m → Ends k → Ends (if b then m else k)
if-Ends true m k h l = h
if-Ends false m k h l = l

pure-Ends : {A : Type 0} (a : A) → Ends (pure a)
pure-Ends a = record { ends = λ w. done-ne-starved }

read_text-Ends : Ends read_text
unfolding read_text
read_text-Ends = record { ends = λ w. done-ne-starved }

pub send-Ends : (s : Bytes) → Ends (send s)
unfolding send
send-Ends s = record { ends = λ w. done-ne-starved }

pub close-Ends : Ends close
unfolding close
close-Ends = record { ends = λ w. done-ne-starved }

pub peer_address-Ends : Ends peer_address
unfolding peer_address
peer_address-Ends = record { ends = λ w. done-ne-starved }

defined-ne-starved : (o : Option Bytes) (w : World) → defined o w ≢ starved
unfolding defined
defined-ne-starved none w = λ e. cc
defined-ne-starved (some s) w = done-ne-starved

pub defined-Ends : (o : Option Bytes) → Ends (defined o)
defined-Ends o = record { ends = defined-ne-starved o }

lifted-ne-starved :
    {A : Type 0} (r : Run (A × Disk)) (w : World) → r ≢ starved → lifted r w ≢ starved
lifted-ne-starved (done (a, d)) w h = done-ne-starved
lifted-ne-starved fault w h = λ e. cc
lifted-ne-starved starved w h = absurd (h refl)

pub on_disk-Ends :
    {A : Type 0} (op : Disk → Run (A × Disk)) → ((d : Disk) → op d ≢ starved) → Ends (on_disk op)
unfolding on_disk
on_disk-Ends op h = record { ends = λ w. lifted-ne-starved (op w.disk) w (h w.disk) }

answered-ne-starved : {A : Type 0} (r : Run A) (w : World) → r ≢ starved → answered r w ≢ starved
answered-ne-starved (done a) w h = done-ne-starved
answered-ne-starved fault w h = λ e. cc
answered-ne-starved starved w h = absurd (h refl)

pub ask-Ends : {A : Type 0} (q : Disk → Run A) → ((d : Disk) → q d ≢ starved) → Ends (ask q)
unfolding ask
ask-Ends q h = record { ends = λ w. answered-ne-starved (q w.disk) w (h w.disk) }

announced-Ends : (user fecha_hora : Option Bytes) → Ends (announced user fecha_hora)
unfolding announced
announced-Ends user fecha_hora =
    andthen _ _ (defined-Ends user) (λ u. andthen _ _ (defined-Ends fecha_hora) (λ f. pure-Ends u))

-- The strings that every command begins with
pub announced_then :
    {B : Type 0} (user fecha_hora : Option Bytes) (f : Bytes → Serve B)
    → ((u : Bytes) → Ends (f u))
    → Ends (announced user fecha_hora >>= f)
announced_then user fecha_hora f h = andthen _ f (announced-Ends user fecha_hora) h

pub read_then :
    {B : Type 0} (f : Option Bytes → Serve B)
    → ((o : Option Bytes) → Ends (f o))
    → Ends (read_text >>= f)
read_then f h = andthen _ f read_text-Ends h

pub disk_then :
    {A : Type 0} (op : Disk → Run (A × Disk)) (s : A → Bytes)
    → ((d : Disk) → op d ≢ starved)
    → Ends (on_disk op >>= λ res. send (s res))
disk_then op s h = andthen _ _ (on_disk-Ends op h) (λ res. send-Ends (s res))
