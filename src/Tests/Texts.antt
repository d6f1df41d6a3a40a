-- ===== src/Tests/Texts.antt =====
-- Sockets and texts at concrete bytes.
use trabajos_sistemas_distri.Base.{
  any, true, length, ◌<◌, ℕ, zero, suc, ap, All, ◌<◌, true, [], ◌∷◌, ◌++◌, ◌≡◌, refl, ◌≢◌, ◌⊎◌,
  some, Bytes, codes, pos, negsuc, minus_one, take, drop, map, arith, length,
}
use trabajos_sistemas_distri.Stdio.Run.{done}
use trabajos_sistemas_distri.Stdio.Decimal.{is_space, is_digit, print_int, scan_int}
use trabajos_sistemas_distri.Stdio.Decimal.RoundTrip.{scan_int-print_int}
use trabajos_sistemas_distri.Stdio.Scan.{got}
use trabajos_sistemas_distri.Logic.Contents.{Content, print_content, scan_content}
use trabajos_sistemas_distri.Logic.Contents.Print.{IsContent, empty_description_swallows}
use trabajos_sistemas_distri.Sockets.{byte, interrupted, read_line, moved, send_message}
use trabajos_sistemas_distri.Sockets.Reading.{
  read_line-line, read_line-fits, read_line-awake, awake,
}
use trabajos_sistemas_distri.Sockets.Sending.{is_error, send_message_sound, send_message_complete}
use trabajos_sistemas_distri.Server.Listing.{fgets_lines}
use trabajos_sistemas_distri.Server.Listing.Lines.{long_line_counts_twice}
use trabajos_sistemas_distri.Tests.Data.{ana, song, IsContent-song, is_word}

read_line-line_example :
    read_line 3 (map byte ana ++ byte 10 ∷ byte 7 ∷ [])
    ≡ record { count = pos 2; stored = codes "an"; terminated = true; rest = byte 7 ∷ [] }
read_line-line_example = read_line-line 3 ana 10 (byte 7 ∷ []) (omega arith) refl (omega arith)

read_line-fits_example :
    length (read_line 3 (byte 97 ∷ interrupted ∷ byte 98 ∷ byte 99 ∷ [])).stored < 3
read_line-fits_example =
    read_line-fits 3 (byte 97 ∷ interrupted ∷ byte 98 ∷ byte 99 ∷ []) (omega arith)

read_line-awake_example :
    read_line 3 (byte 97 ∷ byte 0 ∷ [])
    ≡ record (read_line 3 (byte 97 ∷ interrupted ∷ byte 0 ∷ [])) { rest = [] }
unfolding read_line awake
read_line-awake_example = read_line-awake 3 (byte 97 ∷ interrupted ∷ byte 0 ∷ [])

send_message_sound_example :
    ((pos 0 ≡ pos 0) × (ana ≡ [] ++ ana))
    ⊎ ((pos 0 ≡ minus_one)
        × (any is_error (moved 2 ∷ moved 2 ∷ []) ≡ true)
        × (k : Bytes) × (0 < length k)
        × ([] ++ ana ≡ ana ++ k))
unfolding send_message
send_message_sound_example =
    send_message_sound (moved 2 ∷ moved 2 ∷ []) ana [] (pos 0) ana (omega arith) refl

send_message_complete_example :
    send_message (moved 1 ∷ moved 5 ∷ moved 1 ∷ []) ana [] ≡ done (pos 0, [] ++ ana)
send_message_complete_example =
    send_message_complete (moved 1 ∷ moved 5 ∷ moved 1 ∷ []) ana [] (omega arith) (omega arith)
      (omega arith)

empty_description_swallows_example :
    scan_content
      (print_content (record { file = ana; description = [] }) ++ print_content song ++ [])
    ≡ got (record { file = ana; description = song.file ++ 32 ∷ song.description }) (10 ∷ [])
unfolding is_space
empty_description_swallows_example =
    empty_description_swallows ana song [] (is_word 256 ana (λ e. cc) refl (omega arith))
      IsContent-song (omega arith)

scan_int-print_int_example :
    scan_int (print_int (negsuc 41) ++ codes " x") ≡ some (negsuc 41, codes " x")
unfolding is_digit
scan_int-print_int_example = scan_int-print_int (negsuc 41) (codes " x") (omega arith) refl

abbrev exes : ℕ → Bytes
exes zero = []
exes (suc n) = b'x' ∷ exes n

exes-no_newline : (n : ℕ) → All (λ c. c ≢ 10) (exes n)
exes-no_newline zero = tt
exes-no_newline (suc n) = (omega arith, exes-no_newline n)

length-exes : (n : ℕ) → length (exes n) ≡ n
length-exes zero = refl
length-exes (suc n) = ap suc (length-exes n)

abbrev long : Content
long = record { file = codes "f"; description = exes 253 }

IsContent-long : IsContent long
unfolding is_space
IsContent-long = record {
  file = is_word 256 (codes "f") (λ e. cc) refl (omega arith);
  description = record {
    starts = refl;
    no_newline = exes-no_newline 253;
    fits = omega (arith, length-exes 253);
  };
}

long_line_counts_twice_example :
    fgets_lines (print_content long)
    ≡ done (take 255 (print_content long) ∷ drop 255 (print_content long) ∷ [])
long_line_counts_twice_example =
    long_line_counts_twice long IsContent-long (omega (arith, length-exes 253))
      (omega (arith, length-exes 253))
