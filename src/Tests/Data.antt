-- ===== src/Tests/Data.antt =====
-- Two users, ana and luis, and a file that ana has published.
use trabajos_sistemas_distri.Base.{
  ℕ, ◌<◌, true, false, none, some, List, [], ◌∷◌, ◌≡◌, refl, ◌≢◌, Bytes, codes, str_eq, str_eq_self,
  pos, any, All, length, arith,
}
use trabajos_sistemas_distri.Stdio.Decimal.{is_space}
use trabajos_sistemas_distri.Stdio.Disk.{Disk, put}
use trabajos_sistemas_distri.Stdio.Scan.Laws.{IsWord, print_all}
use trabajos_sistemas_distri.Logic.Users.{users_file, contents_file, User, print_user}
use trabajos_sistemas_distri.Logic.Users.Print.{IsUser, has_name}
use trabajos_sistemas_distri.Logic.Users.Registry.{Stores}
use trabajos_sistemas_distri.Logic.Contents.{Content, print_content}
use trabajos_sistemas_distri.Logic.Contents.Print.{IsContent}
use trabajos_sistemas_distri.Logic.Contents.Refines.{Publishes}
use trabajos_sistemas_distri.Server.World.{World}
use trabajos_sistemas_distri.Server.Replies.Dialogue.{IsField}

abbrev pub ana : Bytes
ana = codes "ana"

abbrev pub luis : Bytes
luis = codes "luis"

abbrev pub eva : Bytes
eva = codes "eva"

abbrev pub home : Bytes
home = codes "10.0.0.1"

abbrev pub date : Bytes
date = codes "today"

abbrev pub users : List User
users =
    record { name = ana; ip = home; port = pos 4000; connected = pos 1 }
    ∷ record { name = luis; ip = home; port = pos 0; connected = pos 0 }
    ∷ []

abbrev pub song : Content
song = record { file = codes "song"; description = codes "a waltz" }

abbrev pub poem : Content
poem = record { file = codes "poem"; description = codes "short" }

abbrev pub contents : List Content
contents = song ∷ []

abbrev pub disk : Disk
disk = record {
  files =
      put (put (λ _. none) (contents_file ana) (some (print_all print_content contents))) users_file
        (some (print_all print_user users));
  readable = λ _. true;
  writable = λ _. true;
}

abbrev pub world : World
world = record { disk = disk; input = []; output = []; peer = home; closed = false }

no_blank : (s : Bytes) → any is_space s ≡ false → All (λ c. is_space c ≡ false) s
no_blank [] h = tt
no_blank (c ∷ s) h = ground (arith, no_blank s)

pub is_word :
    (cap : ℕ) (s : Bytes) → s ≢ [] → any is_space s ≡ false → length s < cap → IsWord cap s
is_word cap s n h k = record { ne_nil = n; no_space = no_blank s h; fits = k }

pub IsWord-ana : IsWord 256 ana
unfolding is_space
IsWord-ana = is_word 256 ana (λ e. cc) refl (omega arith)

pub IsWord-luis : IsWord 256 luis
unfolding is_space
IsWord-luis = is_word 256 luis (λ e. cc) refl (omega arith)

pub IsWord-eva : IsWord 256 eva
unfolding is_space
IsWord-eva = is_word 256 eva (λ e. cc) refl (omega arith)

pub IsWord-home : IsWord 32 home
unfolding is_space
IsWord-home = is_word 32 home (λ e. cc) refl (omega arith)

pub IsContent-song : IsContent song
unfolding is_space
IsContent-song = record {
  file = is_word 256 song.file (λ e. cc) refl (omega arith);
  description = record { starts = refl; no_newline = omega arith; fits = omega arith };
}

pub IsContent-poem : IsContent poem
unfolding is_space
IsContent-poem = record {
  file = is_word 256 poem.file (λ e. cc) refl (omega arith);
  description = record { starts = refl; no_newline = omega arith; fits = omega arith };
}

pub valid_users : All IsUser users
valid_users = (
  record { name = IsWord-ana; ip = IsWord-home; port = omega arith; connected = omega arith },
  (
    record { name = IsWord-luis; ip = IsWord-home; port = omega arith; connected = omega arith },
    tt,
  ),
)

pub Stores-users : Stores users disk
unfolding str_eq
Stores-users = record {
  file = ground (arith, str_eq_self users_file);
  valid = valid_users;
  distinct = (refl, (refl, tt));
  readable = refl;
  may_write = record { users = refl; tmp = refl; flags = refl; temp = refl };
}

pub Publishes-song : Publishes ana contents disk
unfolding contents_file str_eq
Publishes-song = record {
  file = refl;
  valid = (IsContent-song, tt);
  readable = refl;
  writable = refl;
  tmp = refl;
}

pub IsField-ana : IsField ana
IsField-ana = omega arith

pub IsField-luis : IsField luis
IsField-luis = omega arith

pub IsField-eva : IsField eva
IsField-eva = omega arith

pub IsField-date : IsField date
IsField-date = omega arith

pub ana_there : has_name ana users ≡ true
unfolding str_eq
ana_there = refl

pub eva_absent : has_name eva users ≡ false
unfolding str_eq
eva_absent = refl
