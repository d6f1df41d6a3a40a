-- ===== src/Logic/Contents.antt =====
-- The contents that a user has published: one line `file description` for each.
pub mod Print
pub mod Refines
use trabajos_sistemas_distri.Base.{
  Bool, true, false, List, [], ◌∷◌, ◌++◌, if◌then◌else◌, Bytes, codes, str_eq, ℤ, pos, minus_one,
}
use trabajos_sistemas_distri.Stdio.Run.{Run, done, ◌>>=◌}
use trabajos_sistemas_distri.Stdio.Scan.{
  Scanner, pure, ◌>>>=◌, scan_word, scan_line, records, search_records,
}
use trabajos_sistemas_distri.Stdio.Disk.{
  Disk, open_read, open_write, open_append, write, replace_file, unless_null,
}
use trabajos_sistemas_distri.Logic.Users.{max_str, contents_name, exist}

pub record Content : Type 0 where
  pub file : Bytes
  pub description : Bytes

-- `fprintf (fp, "%s %s\n", file, description)`
unfoldable pub print_content : Content → Bytes
print_content c = c.file ++ b' ' ∷ (c.description ++ b'\n' ∷ [])

-- `fscanf (fp, "%s %[^\n]", file, description) == 2`
unfoldable pub scan_content : Scanner Content
scan_content = scan_word max_str >>>= λ file.
    scan_line max_str >>>= λ description. pure (record { file = file; description = description })

-- The end of `publishContent`, where the content is not there yet.
unfoldable pub add_content : Bytes → Content → Disk → Run (ℤ × Disk)
add_content fname c d =
    unless_null (open_append fname d) (done (minus_one, d))
      (λ d1. done (pos 0, write fname (print_content c) d1))

-- `publishContent` behind its test that the user exists
unfoldable pub publish_registered : Bytes → Bytes → Bytes → Disk → Run (ℤ × Disk)
unfolding add_content
publish_registered user file description d = do
  fname ← contents_name user
  unless_null (open_read fname d) (done (minus_one, d)) λ text. do
    there ← search_records scan_content (λ c. str_eq c.file file) text
    if there
        then done (pos 3, d)
        else add_content fname (record { file = file; description = description }) d

unfoldable pub publish_content : Bytes → Bytes → Bytes → Disk → Run (ℤ × Disk)
unfolding publish_registered
publish_content user file description d = do
  registered ← exist user d
  if registered then publish_registered user file description d else done (pos 1, d)

-- The loop of `deleteContent`.
unfoldable pub delete_loop : Bytes → List Content → Bytes → Bool → Bytes × Bool
delete_loop file [] temp found = (temp, found)
delete_loop file (c ∷ cs) temp found =
    let same = str_eq c.file file in
    delete_loop file cs (if same then temp else temp ++ print_content c)
      (if same then true else found)

-- `deleteContent` behind its test that the user exists
unfoldable pub delete_registered : Bytes → Bytes → Disk → Run (ℤ × Disk)
unfolding delete_loop
delete_registered user file d = do
  fname ← contents_name user
  unless_null (open_read fname d) (done (minus_one, d)) λ text.
      unless_null (open_write (codes "tmp_content.txt") d) (done (minus_one, d)) λ d1. do
        cs ← records scan_content text
        let (temp, found) = delete_loop file cs [] false
        done (if found then pos 0 else pos 3, replace_file (codes "tmp_content.txt") fname temp d1)

unfoldable pub delete_content : Bytes → Bytes → Disk → Run (ℤ × Disk)
unfolding delete_registered
delete_content user file d = do
  registered ← exist user d
  if registered then delete_registered user file d else done (pos 1, d)
