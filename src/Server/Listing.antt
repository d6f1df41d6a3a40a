-- ===== src/Server/Listing.antt =====
-- The commands of `tratar_peticion` that send lists: their number as text, and then their items.
pub mod Lines
use trabajos_sistemas_distri.Base.{
  ℕ, zero, suc, ◌-◌, Bool, true, false, Option, none, some, List, [], ◌∷◌, ◌++◌, ◌==◌,
  if◌then◌else◌, not, Bytes, codes, length,
}
use trabajos_sistemas_distri.Stdio.Decimal.{decimal, print_int}
use trabajos_sistemas_distri.Stdio.Run
use trabajos_sistemas_distri.Stdio.Run.{Run, done, fault, starved}
use trabajos_sistemas_distri.Stdio.Scan.{records, take_line, take_fgets, cons_run}
use trabajos_sistemas_distri.Stdio.Disk.{open_read}
use trabajos_sistemas_distri.Logic.Users.{
  max_str, users_file, User, scan_user, contents_name, exist,
}
use trabajos_sistemas_distri.Server.World.{Serve, World, ◌>>=◌, ◌>>◌, read_text, defined, send, ask}
use trabajos_sistemas_distri.Server.Requests.{announced}

-- `send_message (s, text, strlen (text) + 1)`
abbrev pub c_string : Bytes → Bytes
c_string s = s ++ 0 ∷ []

-- The loop that sends the users.
unfoldable pub send_each_user : List User → Serve Unit
send_each_user [] w = done (tt, w)
send_each_user (u ∷ us) w =
    (send (c_string u.name)
        >> send (c_string u.ip)
        >> send (c_string (print_int u.port))
        >> send_each_user us)
      w

-- The users file is read twice: to count the users, and to send them.
unfoldable pub send_users : Option Bytes → Serve Unit
unfolding send_each_user
send_users none = send (2 ∷ [])
send_users (some text) = do
  send (0 ∷ [])
  counted ← ask (λ _. records scan_user text)
  send (c_string (decimal (length counted)))
  us ← ask (λ _. records scan_user text)
  send_each_user us

unfoldable pub list_users : Serve Unit
unfolding send_users
list_users = do
  fecha_hora ← read_text
  user ← read_text
  u ← announced user fecha_hora
  text ← ask (λ d. done (open_read users_file d))
  send_users text

-- The same, under another name in the log.
unfoldable pub get_file : Serve Unit
unfolding send_users
get_file = do
  fecha_hora ← read_text
  user ← read_text
  u ← announced user fecha_hora
  text ← ask (λ d. done (open_read users_file d))
  send_users text

-- `while (fgets (buffer_local, MAXSTR, fp))`: what each round finds in the buffer.
unfoldable pub fgets_all : ℕ → Bytes → Run (List Bytes)
fgets_all zero s = starved
fgets_all (suc f) [] = done []
fgets_all (suc f) (c ∷ s) =
    let (l, r) = take_fgets (max_str - 1) (c ∷ s) in cons_run l (fgets_all f r)

unfoldable pub fgets_lines : Bytes → Run (List Bytes)
unfolding fgets_all
fgets_lines s = fgets_all (suc (length s)) s

unfoldable pub skip_blanks : Bytes → Bytes
skip_blanks [] = []
skip_blanks (c ∷ s) = if c == b' ' then skip_blanks s else c ∷ s

unfoldable pub until_blank : Bytes → Bytes
until_blank [] = []
until_blank (c ∷ s) = let rest = until_blank s in if c == b' ' then [] else c ∷ rest

abbrev pub non_empty : Bytes → Option Bytes
non_empty [] = none
non_empty (c ∷ s) = some (c ∷ s)

-- `buffer_local[strcspn (buffer_local, "\n")] = 0`, and the first token of `strtok`
unfoldable pub first_word : Bytes → Option Bytes
unfolding skip_blanks until_blank take_line
first_word buffer = let (l, r) = take_line buffer in non_empty (until_blank (skip_blanks l))

abbrev pub send_found : Option Bytes → Serve Unit
send_found none w = done (tt, w)
send_found (some fichero) w = send (c_string fichero) w

unfoldable pub send_each_file : List Bytes → Serve Unit
unfolding first_word
send_each_file [] w = done (tt, w)
send_each_file (l ∷ ls) w = (send_found (first_word l) >> send_each_file ls) w

unfoldable pub send_contents : Option Bytes → Serve Unit
unfolding send_each_file fgets_lines
send_contents none = send (2 ∷ [])
send_contents (some text) = do
  send (0 ∷ [])
  counted ← ask (λ _. fgets_lines text)
  send (c_string (decimal (length counted)))
  ls ← ask (λ _. fgets_lines text)
  send_each_file ls

unfoldable pub list_content : Serve Unit
unfolding send_contents
list_content = do
  fecha_hora ← read_text
  user ← read_text
  target_user ← read_text
  u ← announced user fecha_hora
  there ← ask (exist u)
  if not there then send (1 ∷ []) else (do
    target ← defined target_user
    target_there ← ask (exist target)
    if not target_there then send (1 ∷ []) else (do
      fname ← ask (λ _. contents_name target)
      text ← ask (λ d. done (open_read fname d))
      send_contents text))
