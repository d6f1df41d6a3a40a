-- ===== src/Server/Listing/Lines.antt =====
-- The lines that LIST_CONTENT reads with `fgets`, and the file names that it finds in them.
use trabajos_sistemas_distri.Base.{
  ℕ, zero, suc, ◌+◌, ◌-◌, ◌≤◌, ◌<◌, false, some, List, [], ◌∷◌, ◌++◌, ◌≡◌, refl, ◌≢◌, Bytes, length,
  All, map, arith, append-nil, append_assoc, length-append, All-append, All-map, take, drop, ap,
}
use trabajos_sistemas_distri.Stdio.Decimal.{is_space}
use trabajos_sistemas_distri.Stdio.Run.{done}
use trabajos_sistemas_distri.Stdio.Scan.{take_fgets, cons_run}
use trabajos_sistemas_distri.Stdio.Scan.Laws.{print_all, take_fgets-line, take_line-append}
use trabajos_sistemas_distri.Logic.Contents.{Content, print_content}
use trabajos_sistemas_distri.Logic.Contents.Print.{IsContent}
use trabajos_sistemas_distri.Server.Listing.{
  fgets_all, fgets_lines, non_empty, skip_blanks, until_blank, first_word,
}

-- A line that `fgets` reads at once.
abbrev pub IsShort : Content → Type 0
IsShort c = length c.file + length c.description ≤ 253

pub line_of : Content → Bytes
line_of c = c.file ++ 32 ∷ c.description

print_content-line : (c : Content) (rest : Bytes) → print_content c ++ rest ≡ line_of c ++ 10 ∷ rest
unfolding print_content line_of
print_content-line c rest = simp append_assoc

not_newline : (c : ℕ) → is_space c ≡ false → c ≢ 10
unfolding is_space
not_newline c h = ground arith

All-line_of : (c : Content) → IsContent c → All (λ b. b ≢ 10) (line_of c)
unfolding line_of
All-line_of c v =
    All-append _ c.file (32 ∷ c.description) (All-map not_newline c.file v.file.no_space)
      (omega arith, v.description.no_newline)

length-line_of : (c : Content) → length (line_of c) ≡ length c.file + length c.description + 1
unfolding line_of
length-line_of c = omega (arith, length-append c.file (32 ∷ c.description))

fgets_all-cons :
    (f : ℕ) (s l r : Bytes)
    → s ≢ []
    → take_fgets 255 s ≡ (l, r)
    → fgets_all (suc f) s ≡ cons_run l (fgets_all f r)
unfolding fgets_all
fgets_all-cons f [] l r h e = absurd (h refl)
fgets_all-cons f (c ∷ s) l r h e = rw e refl

line-ne-nil : (s t : Bytes) (c : ℕ) → s ++ c ∷ t ≢ []
line-ne-nil [] t c = λ e. cc
line-ne-nil (b ∷ s) t c = λ e. cc

fgets_all-print_all :
    (f : ℕ) (cs : List Content)
    → All IsContent cs
    → All IsShort cs
    → length cs < f
    → fgets_all f (print_all print_content cs) ≡ done (map (λ c. line_of c ++ 10 ∷ []) cs)
unfolding fgets_all
fgets_all-print_all zero cs v k h = absurd (omega arith)
fgets_all-print_all (suc f) [] v k h = refl
fgets_all-print_all (suc f) (c ∷ cs) (vc, v) (kc, k) h =
    rw
      (
        print_content-line c (print_all print_content cs),
        fgets_all-cons f _ _ _ (line-ne-nil (line_of c) (print_all print_content cs) 10) (
            take_fgets-line 255 (line_of c) (print_all print_content cs) (All-line_of c vc)
              (omega (arith, length-line_of c))),
        fgets_all-print_all f cs v k (omega arith),
      )
      refl

skip_blanks-word :
    (s : Bytes) (rest : Bytes)
    → s ≢ []
    → All (λ c. is_space c ≡ false) s
    → skip_blanks (s ++ rest) ≡ s ++ rest
unfolding skip_blanks is_space
skip_blanks-word [] rest h v = absurd (h refl)
skip_blanks-word (c ∷ s) rest h v = ground arith

until_blank-word :
    (s rest : Bytes) → All (λ c. is_space c ≡ false) s → until_blank (s ++ 32 ∷ rest) ≡ s
unfolding until_blank is_space
until_blank-word [] rest v = refl
until_blank-word (c ∷ s) rest v = ground (arith, until_blank-word s rest)

some_of_ne_nil : (s : Bytes) → s ≢ [] → non_empty s ≡ some s
some_of_ne_nil [] h = absurd (h refl)
some_of_ne_nil (c ∷ s) h = refl

pub first_word-line : (c : Content) → IsContent c → first_word (line_of c ++ 10 ∷ []) ≡ some c.file
unfolding first_word line_of
first_word-line c v =
    rw
      (
        take_line-append (line_of c) [] (All-line_of c v),
        skip_blanks-word c.file (32 ∷ c.description) v.file.ne_nil v.file.no_space,
        until_blank-word c.file c.description v.file.no_space,
      )
      (some_of_ne_nil c.file v.file.ne_nil)

length-le-lines : (cs : List Content) → length cs ≤ length (print_all print_content cs)
length-le-lines [] = omega arith
length-le-lines (c ∷ cs) =
    rw (print_content-line c (print_all print_content cs)) (
      omega
        (arith, length-append (line_of c) (10 ∷ print_all print_content cs), length-le-lines cs))

pub length-map {ℓ κ} :
    {A : Type ℓ} {B : Type κ} (f : A → B) (xs : List A) → length (map f xs) ≡ length xs
length-map f [] = refl
length-map f (x ∷ xs) = ap suc (length-map f xs)

pub fgets_lines-print_all :
    (cs : List Content)
    → All IsContent cs
    → All IsShort cs
    → fgets_lines (print_all print_content cs) ≡ done (map (λ c. line_of c ++ 10 ∷ []) cs)
unfolding fgets_lines
fgets_lines-print_all cs v k =
    fgets_all-print_all (suc (length (print_all print_content cs))) cs v k
      (omega (arith, length-le-lines cs))

-- `fgets` of a text with no line end in its first `n` characters.
take_fgets-long :
    (n : ℕ) (s : Bytes) → All (λ b. b ≢ 10) (take n s) → take_fgets n s ≡ (take n s, drop n s)
unfolding take_fgets
take_fgets-long zero s h = refl
take_fgets-long (suc n) [] h = refl
take_fgets-long (suc n) (c ∷ s) (hc, h) = rw (take_fgets-long n s h) (ground arith)

take-append_left : (n : ℕ) (s t : Bytes) → n ≤ length s → take n (s ++ t) ≡ take n s
take-append_left zero s t h = refl
take-append_left (suc n) [] t h = absurd (omega arith)
take-append_left (suc n) (c ∷ s) t h = rw (take-append_left n s t (omega arith)) refl

drop-append_left : (n : ℕ) (s t : Bytes) → n ≤ length s → drop n (s ++ t) ≡ drop n s ++ t
drop-append_left zero s t h = refl
drop-append_left (suc n) [] t h = absurd (omega arith)
drop-append_left (suc n) (c ∷ s) t h = drop-append_left n s t (omega arith)

All-take : (n : ℕ) (s : Bytes) → All (λ b. b ≢ 10) s → All (λ b. b ≢ 10) (take n s)
All-take zero s h = tt
All-take (suc n) [] h = tt
All-take (suc n) (c ∷ s) (hc, h) = (hc, All-take n s h)

All-drop : (n : ℕ) (s : Bytes) → All (λ b. b ≢ 10) s → All (λ b. b ≢ 10) (drop n s)
All-drop zero s h = h
All-drop (suc n) [] h = tt
All-drop (suc n) (c ∷ s) (hc, h) = All-drop n s h

length-drop : (n : ℕ) (s : Bytes) → length (drop n s) ≡ length s - n
length-drop zero s = omega arith
length-drop (suc n) [] = omega arith
length-drop (suc n) (c ∷ s) = omega (arith, length-drop n s)

-- A line cut in two by the buffer.
fgets_all-cut :
    (f : ℕ) (l : Bytes)
    → All (λ b. b ≢ 10) l
    → 255 ≤ length l
    → length l < 510
    → fgets_all (suc (suc (suc f))) (l ++ 10 ∷ [])
      ≡ done (take 255 (l ++ 10 ∷ []) ∷ drop 255 (l ++ 10 ∷ []) ∷ [])
unfolding fgets_all
fgets_all-cut f l v h k =
    rw
      (
        take-append_left 255 l (10 ∷ []) h,
        drop-append_left 255 l (10 ∷ []) h,
        fgets_all-cons (suc (suc f)) (l ++ 10 ∷ []) (take 255 l) (drop 255 l ++ 10 ∷ [])
            (line-ne-nil l [] 10)
            (rw (← take-append_left 255 l (10 ∷ []) h, ← drop-append_left 255 l (10 ∷ []) h)
              (take_fgets-long 255 (l ++ 10 ∷ [])
                (rw (take-append_left 255 l (10 ∷ []) h) (All-take 255 l v)))),
        fgets_all-cons (suc f) (drop 255 l ++ 10 ∷ []) (drop 255 l ++ 10 ∷ []) []
            (line-ne-nil (drop 255 l) [] 10)
            (take_fgets-line 255 (drop 255 l) [] (All-drop 255 l v)
              (omega (arith, length-drop 255 l))),
      )
      refl

-- A contents file of one content, whose line has 255 to 509 characters, is read by the loop of
-- LIST_CONTENT in two rounds, so it counts as two.
pub long_line_counts_twice :
    (c : Content)
    → IsContent c
    → 254 ≤ length c.file + length c.description
    → length c.file + length c.description ≤ 508
    → fgets_lines (print_content c)
      ≡ done (take 255 (print_content c) ∷ drop 255 (print_content c) ∷ [])
unfolding fgets_lines
long_line_counts_twice c v h k =
    let e : print_content c ≡ line_of c ++ 10 ∷ [] = rw append-nil at (print_content-line c []) in
    let f : length (line_of c ++ 10 ∷ []) ≡ suc (suc (length c.file + length c.description)) =
      omega (arith, length-append (line_of c) (10 ∷ []), length-line_of c) in
    rw (e, f)
      (fgets_all-cut (length c.file + length c.description) (line_of c) (All-line_of c v)
        (omega (arith, length-line_of c)) (omega (arith, length-line_of c)))
