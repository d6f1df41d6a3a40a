-- ===== src/Logic/Ends.antt =====
-- Every function of logic.c comes to its end, whatever the files hold and the system allows.
use trabajos_sistemas_distri.Base.{
  Bool, true, false, Option, none, some, pos, ◌≡◌, ◌≢◌, Bytes, ℤ, length, ltb, if◌then◌else◌, [],
}
use trabajos_sistemas_distri.Stdio.Run.{Run, done, fault, starved, >>=-ne-starved}
use trabajos_sistemas_distri.Stdio.Disk.{Disk, unless_null, open_read, open_write, open_append}
use trabajos_sistemas_distri.Stdio.Scan.{stopped, records, search_records}
use trabajos_sistemas_distri.Stdio.Scan.Ends.{
  Shrinks, scan_word-Shrinks, scan_word-Takes, scan_line-Takes, scan_number-Takes, pure-Takes,
  skip-Takes, >>>=-Shrinks, >>>=-Takes, records-ne-starved, search_records-ne-starved,
}
use trabajos_sistemas_distri.Logic.Users.{
  max_str, contents_file, scan_user, scan_name, contents_name, exist, update_user_ip_port,
  register_new, register_user, unregister_user, set_flag, connect_user, disconnect_user,
}
use trabajos_sistemas_distri.Stdio.Scan.Laws.{scan_word-nil}
use trabajos_sistemas_distri.Logic.Users.Print.{scan_user-nil}
use trabajos_sistemas_distri.Logic.Contents.{
  scan_content, add_content, publish_registered, publish_content, delete_registered, delete_content,
}
use trabajos_sistemas_distri.Logic.Contents.Print.{scan_content-nil}

scan_name-nil : scan_name [] ≡ stopped
unfolding scan_name
scan_name-nil = rw (scan_word-nil max_str)

pub scan_user-Shrinks : Shrinks scan_user
unfolding scan_user
scan_user-Shrinks =
    >>>=-Shrinks _
      (λ name.
        >>>=-Takes _
          (λ ip.
            >>>=-Takes _ (λ port. >>>=-Takes _ (λ c. pure-Takes _) _ scan_number-Takes) _
              scan_number-Takes)
          _ (scan_word-Takes 32))
      _ (scan_word-Shrinks max_str)

scan_name-Shrinks : Shrinks scan_name
unfolding scan_name
scan_name-Shrinks = >>>=-Shrinks _ (λ name. skip-Takes (255) name) _ (scan_word-Shrinks max_str)

scan_content-Shrinks : Shrinks scan_content
unfolding scan_content
scan_content-Shrinks =
    >>>=-Shrinks _ (λ file. >>>=-Takes _ (λ d. pure-Takes _) _ (scan_line-Takes max_str)) _
      (scan_word-Shrinks max_str)

pub unless_null-ne-starved :
    {A B : Type 0} (o : Option A) (early : Run B) (next : A → Run B)
    → early ≢ starved
    → ((a : A) → next a ≢ starved)
    → unless_null o early next ≢ starved
unless_null-ne-starved none early next h k = h
unless_null-ne-starved (some a) early next h k = k a

pub done-ne-starved : {B : Type 0} {b : B} → done b ≢ starved
done-ne-starved = λ e. cc

fault-ne-starved : {B : Type 0} → ◌≢◌ {A = Run B} fault starved
fault-ne-starved = λ e. cc

pub if-ne-starved :
    {B : Type 0} (b : Bool) (x y : Run B)
    → x ≢ starved
    → y ≢ starved
    → (if b then x else y) ≢ starved
if-ne-starved true x y h k = h
if-ne-starved false x y h k = k

pub contents_name-ne-starved : (user : Bytes) → contents_name user ≢ starved
unfolding contents_name
contents_name-ne-starved user =
    if-ne-starved (ltb (length (contents_file user)) 320) (done (contents_file user)) fault
      done-ne-starved fault-ne-starved

pub exist-ne-starved : (user : Bytes) (d : Disk) → exist user d ≢ starved
unfolding exist
exist-ne-starved user d =
    unless_null-ne-starved (open_read _ d) _ _ done-ne-starved
      (search_records-ne-starved scan_name scan_name-nil scan_name-Shrinks _)

pub update_user_ip_port-ne-starved :
    (user ip : Bytes) (port : ℤ) (d : Disk) → update_user_ip_port user ip port d ≢ starved
unfolding update_user_ip_port
update_user_ip_port-ne-starved user ip port d =
    unless_null-ne-starved (open_read _ d) _ _ done-ne-starved λ text.
      unless_null-ne-starved (open_write _ d) _ _ done-ne-starved λ d1.
        >>=-ne-starved (records scan_user text) _
          (records-ne-starved scan_user scan_user-nil scan_user-Shrinks text)
          (λ us. done-ne-starved)

register_new-ne-starved :
    (user ip : Bytes) (port : ℤ) (d : Disk) → register_new user ip port d ≢ starved
unfolding register_new
register_new-ne-starved user ip port d =
    unless_null-ne-starved (open_append _ d) _ _ done-ne-starved λ d1.
      >>=-ne-starved (contents_name user) _ (contents_name-ne-starved user) (λ f. done-ne-starved)

pub register_user-ne-starved :
    (user ip : Bytes) (port : ℤ) (d : Disk) → register_user user ip port d ≢ starved
unfolding register_user
register_user-ne-starved user ip port d =
    >>=-ne-starved (exist user d) _ (exist-ne-starved user d)
      λ there. if-ne-starved there _ _ done-ne-starved (register_new-ne-starved user ip port d)

pub unregister_user-ne-starved : (user : Bytes) (d : Disk) → unregister_user user d ≢ starved
unfolding unregister_user
unregister_user-ne-starved user d =
    unless_null-ne-starved (open_read _ d) _ _ done-ne-starved λ text.
      unless_null-ne-starved (open_write _ d) _ _ done-ne-starved λ d1.
        >>=-ne-starved (records scan_user text) _
          (records-ne-starved scan_user scan_user-nil scan_user-Shrinks text)
          λ us.
            >>=-ne-starved (contents_name user) _ (contents_name-ne-starved user)
              (λ f. done-ne-starved)

set_flag-ne-starved : (flag : ℤ) (user : Bytes) (d : Disk) → set_flag flag user d ≢ starved
unfolding set_flag
set_flag-ne-starved flag user d = unless_null-ne-starved (open_read _ d) _ _ done-ne-starved λ text.
    unless_null-ne-starved (open_write _ d) _ _ done-ne-starved λ d1.
      >>=-ne-starved (records scan_user text) _
        (records-ne-starved scan_user scan_user-nil scan_user-Shrinks text) (λ us. done-ne-starved)

pub connect_user-ne-starved : (user : Bytes) (d : Disk) → connect_user user d ≢ starved
unfolding connect_user
connect_user-ne-starved user d = set_flag-ne-starved (pos 1) user d

pub disconnect_user-ne-starved : (user : Bytes) (d : Disk) → disconnect_user user d ≢ starved
unfolding disconnect_user
disconnect_user-ne-starved user d = set_flag-ne-starved (pos 0) user d

publish_registered-ne-starved :
    (user file description : Bytes) (d : Disk)
    → publish_registered user file description d ≢ starved
unfolding publish_registered add_content
publish_registered-ne-starved user file description d =
    >>=-ne-starved (contents_name user) _ (contents_name-ne-starved user) λ fname.
      unless_null-ne-starved (open_read fname d) _ _ done-ne-starved λ text.
        >>=-ne-starved (search_records scan_content _ text) _
          (search_records-ne-starved scan_content scan_content-nil scan_content-Shrinks _ text)
          λ there. if-ne-starved there _ _ done-ne-starved (
            unless_null-ne-starved (open_append fname d) _ _ done-ne-starved
              (λ d1. done-ne-starved))

pub publish_content-ne-starved :
    (user file description : Bytes) (d : Disk) → publish_content user file description d ≢ starved
unfolding publish_content
publish_content-ne-starved user file description d =
    >>=-ne-starved (exist user d) _ (exist-ne-starved user d) λ there.
      if-ne-starved there _ _ (publish_registered-ne-starved user file description d)
        done-ne-starved

delete_registered-ne-starved :
    (user file : Bytes) (d : Disk) → delete_registered user file d ≢ starved
unfolding delete_registered
delete_registered-ne-starved user file d =
    >>=-ne-starved (contents_name user) _ (contents_name-ne-starved user) λ fname.
      unless_null-ne-starved (open_read fname d) _ _ done-ne-starved λ text.
        unless_null-ne-starved (open_write _ d) _ _ done-ne-starved λ d1.
          >>=-ne-starved (records scan_content text) _
            (records-ne-starved scan_content scan_content-nil scan_content-Shrinks text)
            (λ cs. done-ne-starved)

pub delete_content-ne-starved :
    (user file : Bytes) (d : Disk) → delete_content user file d ≢ starved
unfolding delete_content
delete_content-ne-starved user file d =
    >>=-ne-starved (exist user d) _ (exist-ne-starved user d)
      λ there. if-ne-starved there _ _ (delete_registered-ne-starved user file d) done-ne-starved
