-- ===== src/Server/Ends/Lists.antt =====
-- The handlers of the commands that send lists come to their end.
use trabajos_sistemas_distri.Base.{
  ℕ, zero, suc, ◌≤◌, ◌<◌, Option, none, some, List, [], ◌∷◌, ◌≢◌, Bytes, length, not, arith,
}
use trabajos_sistemas_distri.Stdio.Decimal.{decimal}
use trabajos_sistemas_distri.Stdio.Run.{Run, starved, >>=-ne-starved}
use trabajos_sistemas_distri.Stdio.Scan.{take_fgets, records, cons_run}
use trabajos_sistemas_distri.Stdio.Scan.Ends.{length-take_fgets, records-ne-starved}
use trabajos_sistemas_distri.Logic.Users.{User, scan_user}
use trabajos_sistemas_distri.Logic.Users.Print.{scan_user-nil}
use trabajos_sistemas_distri.Logic.Ends.{
  done-ne-starved, scan_user-Shrinks, contents_name-ne-starved, exist-ne-starved,
}
use trabajos_sistemas_distri.Server.World.{World, Serve, ◌>>=◌, ◌>>◌, send, ask}
use trabajos_sistemas_distri.Server.Listing.{
  c_string, send_each_user, send_users, list_users, get_file, fgets_all, fgets_lines, first_word,
  send_found, send_each_file, send_contents, list_content,
}
use trabajos_sistemas_distri.Server.Ends.{
  Ends, andthen, if-Ends, send-Ends, defined-Ends, ask-Ends, announced_then, read_then,
}

length-fgets : (n c : ℕ) (s : Bytes) → length (take_fgets (suc n) (c ∷ s)).1 ≤ length s
unfolding take_fgets
length-fgets n c s = ground (arith, length-take_fgets n s)

cons_run-ne-starved : (l : Bytes) (r : Run (List Bytes)) → r ≢ starved → cons_run l r ≢ starved
cons_run-ne-starved l r h = >>=-ne-starved r _ h (λ rest. done-ne-starved)

fgets_all-ne-starved : (f : ℕ) (s : Bytes) → length s < f → fgets_all f s ≢ starved
unfolding fgets_all
fgets_all-ne-starved zero s h = absurd (omega arith)
fgets_all-ne-starved (suc f) [] h = done-ne-starved
fgets_all-ne-starved (suc f) (c ∷ s) h =
    cons_run-ne-starved _ _ (fgets_all-ne-starved f _ (omega (arith, length-fgets 254 c s)))

fgets_lines-ne-starved : (s : Bytes) → fgets_lines s ≢ starved
unfolding fgets_lines
fgets_lines-ne-starved s = fgets_all-ne-starved (suc (length s)) s (omega arith)

users-ne-starved : (text : Bytes) → records scan_user text ≢ starved
users-ne-starved text = records-ne-starved scan_user scan_user-nil scan_user-Shrinks text

-- A list is counted, and read again to be sent.
counted_then :
    {A : Type 0} (q : Run (List A)) (each : List A → Serve Unit)
    → q ≢ starved
    → ((items : List A) → Ends (each items))
    → Ends (do
      send (0 ∷ [])
      counted ← ask (λ _. q)
      send (c_string (decimal (length counted)))
      items ← ask (λ _. q)
      each items)
counted_then q each h k = andthen _ _ (send-Ends _) λ _.
    andthen _ _ (ask-Ends _ (λ _. h))
      λ counted. andthen _ _ (send-Ends _) λ _. andthen _ each (ask-Ends _ (λ _. h)) k

send_each_user-ne-starved : (us : List User) (w : World) → send_each_user us w ≢ starved
unfolding send_each_user send
send_each_user-ne-starved [] w = done-ne-starved
send_each_user-ne-starved (u ∷ us) w = send_each_user-ne-starved us _

send_users-Ends : (text : Option Bytes) → Ends (send_users text)
unfolding send_users
send_users-Ends none = send-Ends _
send_users-Ends (some text) =
    counted_then (records scan_user text) send_each_user (users-ne-starved text)
      (λ us. record { ends = send_each_user-ne-starved us })

pub list_users-Ends : Ends list_users
unfolding list_users
list_users-Ends = read_then _ λ fecha_hora. read_then _ λ user.
    announced_then user fecha_hora _
      λ u. andthen _ _ (ask-Ends _ (λ d. done-ne-starved)) send_users-Ends

pub get_file-Ends : Ends get_file
unfolding get_file
get_file-Ends = read_then _ λ fecha_hora. read_then _ λ user.
    announced_then user fecha_hora _
      λ u. andthen _ _ (ask-Ends _ (λ d. done-ne-starved)) send_users-Ends

send_found-Ends : (o : Option Bytes) → Ends (send_found o)
send_found-Ends none = record { ends = λ w. done-ne-starved }
send_found-Ends (some fichero) = record { ends = λ w. (send-Ends (c_string fichero)).ends w }

send_each_file-Ends : (ls : List Bytes) → Ends (send_each_file ls)
unfolding send_each_file
send_each_file-Ends [] = record { ends = λ w. done-ne-starved }
send_each_file-Ends (l ∷ ls) = record {
  ends = λ w.
      (andthen (send_found (first_word l)) _ (send_found-Ends (first_word l))
          (λ _. send_each_file-Ends ls)).ends
        w;
}

send_contents-Ends : (text : Option Bytes) → Ends (send_contents text)
unfolding send_contents
send_contents-Ends none = send-Ends _
send_contents-Ends (some text) =
    counted_then (fgets_lines text) send_each_file (fgets_lines-ne-starved text) send_each_file-Ends

pub list_content-Ends : Ends list_content
unfolding list_content
list_content-Ends = read_then _ λ fecha_hora. read_then _ λ user. read_then _ λ target_user.
    announced_then user fecha_hora _ λ u. andthen _ _ (ask-Ends _ (exist-ne-starved u)) λ there.
      if-Ends (not there) _ _ (send-Ends _) (
        andthen _ _ (defined-Ends target_user) λ target.
          andthen _ _ (ask-Ends _ (exist-ne-starved target)) λ target_there.
            if-Ends (not target_there) _ _ (send-Ends _) (
              andthen _ _ (ask-Ends _ (λ _. contents_name-ne-starved target))
                λ fname. andthen _ _ (ask-Ends _ (λ d. done-ne-starved)) send_contents-Ends))
