-- ===== src/Sockets/Reading.antt =====
-- `readLine` stays within its buffer, and reads lines whole or cut to the buffer's size.
use trabajos_sistemas_distri.Base.{
  ℕ, zero, suc, ◌-◌, ◌≤◌, ◌<◌, true, false, List, [], ◌∷◌, ◌++◌, ◌≡◌, refl, ◌≢◌, ◌||◌, ltb, ◌==◌,
  if◌then◌else◌, Bytes, All, pos, length, take, length-append, append_assoc, append-nil, map, arith,
  Bool-cases, ltb→lt, inl, inr,
}
use trabajos_sistemas_distri.Sockets.{Event, byte, interrupted, failed, read_loop, read_line}

read_loop-fits :
    (n : ℕ) (es : List Event) (buf : Bytes)
    → length buf < suc n
    → length (read_loop (suc n) es buf).stored < suc n
unfolding read_loop
read_loop-fits n [] [] h = h
read_loop-fits n [] (c ∷ buf) h = h
read_loop-fits n (interrupted ∷ es) buf h = read_loop-fits n es buf h
read_loop-fits n (failed ∷ es) buf h = h
read_loop-fits n (byte ch ∷ es) buf h = ground (
  arith,
  read_loop-fits n es (if ltb (length buf) n then buf ++ ch ∷ [] else buf),
  length-append buf (ch ∷ []),
)

-- Whatever comes over the connection, the bytes that `readLine` stores and a NUL fit a buffer of
-- `n` bytes, for any `n` but 0.
pub read_line-fits : (n : ℕ) (es : List Event) → 0 < n → length (read_line n es).stored < n
unfolding read_line
read_line-fits zero es h = absurd (omega arith)
read_line-fits (suc n) es h = read_loop-fits n es [] (omega arith)

-- No line end and no NUL.
abbrev pub IsLine : Bytes → Type 0
IsLine = All (λ c. (c ≢ 10) × (c ≢ 0))

-- The end of a line: a line end or a NUL.
abbrev pub EndsLine : ℕ → Type 0
EndsLine c = (c == 10 || c == 0) ≡ true

take-nil : (n : ℕ) → take n (let e : Bytes = [] in e) ≡ []
take-nil zero = refl
take-nil (suc n) = refl

-- One more byte for the buffer is one less to take.
take-room :
    (n c : ℕ) (l buf : Bytes)
    → length buf < n
    → (buf ++ c ∷ []) ++ take (n - length (buf ++ c ∷ [])) l ≡ buf ++ take (n - length buf) (c ∷ l)
take-room n c l buf h =
    let e : n - length buf ≡ suc (n - length (buf ++ c ∷ [])) =
      omega (arith, length-append buf (c ∷ [])) in
    rw (e, append_assoc) refl

suc-sub_one : (n : ℕ) → suc n - 1 ≡ n
suc-sub_one n = omega arith

take-full :
    (n c : ℕ) (l buf : Bytes)
    → n ≤ length buf
    → buf ++ take (n - length buf) l ≡ buf ++ take (n - length buf) (c ∷ l)
take-full n c l buf h = let e : n - length buf ≡ 0 = omega arith in rw e refl

not_end : (c : ℕ) → (c ≢ 10) × (c ≢ 0) → (c == 10 || c == 0) ≡ false
not_end c h = ground arith

read_loop-line :
    (n : ℕ) (l buf : Bytes) (e : ℕ) (es : List Event)
    → IsLine l
    → EndsLine e
    → length buf ≤ n
    → read_loop (suc n) (map byte l ++ byte e ∷ es) buf ≡ record {
      count = pos (length (buf ++ take (n - length buf) l));
      stored = buf ++ take (n - length buf) l;
      terminated = true;
      rest = es;
    }
unfolding read_loop
read_loop-line n [] buf e es h k b = rw (k, take-nil (n - length buf), append-nil buf) refl
read_loop-line n (c ∷ l) buf e es (hc, h) k b = elim (Bool-cases (ltb (length buf) n)) [
  | inl room ↦
      rw
        (
          not_end c hc,
          suc-sub_one n,
          room,
          read_loop-line n l (buf ++ c ∷ []) e es h k (ground (arith, length-append buf (c ∷ []))),
          take-room n c l buf (ltb→lt _ _ room),
        )
        refl
  | inr full ↦
      rw
        (
          not_end c hc,
          suc-sub_one n,
          full,
          read_loop-line n l buf e es h k b,
          take-full n c l buf (ground arith),
        )
        refl
]

-- A line that ends in a line end or a NUL is read up to its end, into a buffer of one byte or
-- more. The buffer gets all of it, or as much as fits beside the NUL, the count is what was
-- stored, and the connection is left behind the end of the line.
pub read_line-line :
    (n : ℕ) (l : Bytes) (e : ℕ) (es : List Event)
    → IsLine l
    → EndsLine e
    → 0 < n
    → read_line n (map byte l ++ byte e ∷ es) ≡ record {
      count = pos (length (take (n - 1) l));
      stored = take (n - 1) l;
      terminated = true;
      rest = es;
    }
unfolding read_line
read_line-line zero l e es h k b = absurd (omega arith)
read_line-line (suc n) l e es h k b =
    rw (read_loop-line n l [] e es h k (omega arith), suc-sub_one n)
      (let f : n - 0 ≡ n = omega arith in rw f refl)

-- The same events without the interruptions.
unfoldable pub awake : List Event → List Event
awake [] = []
awake (interrupted ∷ es) = awake es
awake (byte c ∷ es) = byte c ∷ awake es
awake (failed ∷ es) = failed ∷ awake es

read_loop-awake :
    (n : ℕ) (es : List Event) (buf : Bytes)
    → read_loop n (awake es) buf
      ≡ record (read_loop n es buf) { rest = awake (read_loop n es buf).rest }
unfolding read_loop awake
read_loop-awake n [] [] = refl
read_loop-awake n [] (c ∷ buf) = refl
read_loop-awake n (interrupted ∷ es) buf = read_loop-awake n es buf
read_loop-awake n (failed ∷ es) buf = refl
read_loop-awake n (byte c ∷ es) buf =
    ground (arith, read_loop-awake n es (if ltb (length buf) (n - 1) then buf ++ c ∷ [] else buf))

-- Interrupted calls are made again: `readLine` gives what it gives if no call is interrupted.
pub read_line-awake :
    (n : ℕ) (es : List Event)
    → read_line n (awake es) ≡ record (read_line n es) { rest = awake (read_line n es).rest }
unfolding read_line
read_line-awake zero es = refl
read_line-awake (suc n) es = read_loop-awake (suc n) es []
