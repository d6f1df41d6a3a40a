-- ===== src/Logic/Contents/Print.antt =====
-- A file of contents is read back as it was written, if no description is empty.
use trabajos_sistemas_distri.Base.{
  ℕ, ◌+◌, ◌<◌, Bool, false, List, [], ◌∷◌, ◌++◌, ◌≡◌, refl, ◌||◌, if◌then◌else◌, Bytes, str_eq,
  length, All, any, arith, append_assoc, append-nil, length-append, Bool-cases, inl, inr, ◌≢◌,
  All-append, All-map,
}
use trabajos_sistemas_distri.Stdio.Decimal.{is_space}
use trabajos_sistemas_distri.Stdio.Run.{done}
use trabajos_sistemas_distri.Stdio.Scan.{got, stopped, records, search_records}
use trabajos_sistemas_distri.Stdio.Scan.Laws.{
  IsWord, IsText, scan_word-append, scan_word-newline, scan_word-nil, scan_line-append,
  scan_line-space, scan_line-newline, print_all, records-print_all, search_records-print_all,
}
use trabajos_sistemas_distri.Logic.Users.{max_str}
use trabajos_sistemas_distri.Logic.Contents.{Content, print_content, scan_content, delete_loop}

pub record IsContent (c : Content) : Type 0 where
  pub file : IsWord max_str c.file
  pub description : IsText max_str c.description

print_content-append :
    (c : Content) (rest : Bytes)
    → print_content c ++ rest ≡ c.file ++ 32 ∷ (c.description ++ 10 ∷ rest)
unfolding print_content
print_content-append c rest = simp append_assoc

scan_content-print_content :
    (c : Content) (rest : Bytes)
    → IsContent c
    → scan_content (print_content c ++ rest) ≡ got c (10 ∷ rest)
unfolding scan_content is_space
scan_content-print_content c rest v = rw (
  print_content-append c rest,
  scan_word-append _ v.file refl,
  scan_line-space,
  scan_line-append rest v.description,
)

scan_content-newline : (s : Bytes) → scan_content (10 ∷ s) ≡ scan_content s
unfolding scan_content
scan_content-newline s = rw (scan_word-newline max_str s)

pub scan_content-nil : scan_content [] ≡ stopped
unfolding scan_content
scan_content-nil = rw (scan_word-nil max_str)

length-print_content-pos : (c : Content) → 0 < length (print_content c)
unfolding print_content
length-print_content-pos c = omega (arith, length-append c.file (32 ∷ (c.description ++ 10 ∷ [])))

-- The lines of well-formed contents are read back, by the loops that scan a contents file, as
-- those contents.
pub records-print_contents :
    (cs : List Content)
    → All IsContent cs
    → records scan_content (print_all print_content cs) ≡ done cs
records-print_contents =
    records-print_all scan_content IsContent print_content scan_content-print_content
      scan_content-newline scan_content-nil length-print_content-pos

abbrev pub has_file : Bytes → List Content → Bool
has_file file cs = any (λ c. str_eq c.file file) cs

pub search_files-print_contents :
    (file : Bytes) (cs : List Content)
    → All IsContent cs
    → search_records scan_content (λ c. str_eq c.file file) (print_all print_content cs)
      ≡ done (has_file file cs)
search_files-print_contents file =
    search_records-print_all scan_content IsContent print_content (λ c. c) (λ s. 10 ∷ s)
      scan_content-print_content scan_content-newline scan_content-nil (λ c. str_eq c.file file)
      length-print_content-pos

-- The contents without those of one file name.
unfoldable pub without_file : Bytes → List Content → List Content
without_file file [] = []
without_file file (c ∷ cs) =
    let rest = without_file file cs in if str_eq c.file file then rest else c ∷ rest

pub delete_loop_lem :
    (file : Bytes) (cs : List Content) (temp : Bytes) (found : Bool)
    → delete_loop file cs temp found
      ≡ (temp ++ print_all print_content (without_file file cs), found || has_file file cs)
unfolding delete_loop without_file
delete_loop_lem file [] temp found = ground (arith, append-nil temp)
delete_loop_lem file (c ∷ cs) temp found = elim (Bool-cases (str_eq c.file file)) [
  | inl e ↦ rw (e, delete_loop_lem file cs) (ground arith)
  | inr e ↦ rw (e, delete_loop_lem file cs, append_assoc) refl
]

pub All-without_file :
    (file : Bytes) (cs : List Content) → All IsContent cs → All IsContent (without_file file cs)
unfolding without_file
All-without_file file [] v = tt
All-without_file file (c ∷ cs) (vc, v) = elim (Bool-cases (str_eq c.file file)) [
  | inl e ↦ rw e (All-without_file file cs v)
  | inr e ↦ rw e (vc, All-without_file file cs v)
]

-- A deleted file name is no longer there.
pub has_file-without_file :
    (file : Bytes) (cs : List Content) → has_file file (without_file file cs) ≡ false
unfolding without_file
has_file-without_file file [] = refl
has_file-without_file file (c ∷ cs) = ground (arith, has_file-without_file file cs)

not_newline : (c : ℕ) → is_space c ≡ false → c ≢ 10
unfolding is_space
not_newline c h = ground arith

word_starts :
    (a b : Bytes)
    → IsWord max_str a
    → IsText max_str b
    → length a + length b < 255
    → IsText max_str (a ++ 32 ∷ b)
word_starts [] b v w h = absurd (v.ne_nil refl)
word_starts (c ∷ a) b v w h = record {
  starts = v.no_space.0;
  no_newline =
      All-append _ (c ∷ a) (32 ∷ b) (All-map not_newline (c ∷ a) v.no_space)
        (omega arith, w.no_newline);
  fits = omega (arith, length-append a (32 ∷ b));
}

-- The entry of an empty description, in front of another entry whose line has less than 256
-- characters, is read with that whole line as its description.
pub empty_description_swallows :
    (file : Bytes) (next : Content) (rest : Bytes)
    → IsWord max_str file
    → IsContent next
    → length next.file + length next.description < 255
    → scan_content
        (print_content (record { file = file; description = [] }) ++ print_content next ++ rest)
      ≡ got (record { file = file; description = next.file ++ 32 ∷ next.description }) (10 ∷ rest)
unfolding scan_content is_space
empty_description_swallows file next rest v w h = rw (
  append_assoc,
  print_content-append (record { file = file; description = [] }) (print_content next ++ rest),
  scan_word-append _ v refl,
  scan_line-space,
  scan_line-newline,
  print_content-append next rest,
  ← append_assoc next.file (32 ∷ next.description) (10 ∷ rest),
  scan_line-append rest (word_starts next.file next.description w.file w.description h),
)
