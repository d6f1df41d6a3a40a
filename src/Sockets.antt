-- ===== src/Sockets.antt =====
-- sockets/sockets.c: whole messages and lines over a connection that may take or give less at a
-- time. What the kernel answers to each call is a list of events.
pub mod Reading
pub mod Sending
use trabajos_sistemas_distri.Base.{
  ℕ, zero, suc, ◌-◌, Bool, true, false, Option, none, some, List, [], ◌∷◌, ◌++◌, ◌||◌, ltb, leb,
  ◌==◌, if◌then◌else◌, Bytes, ℤ, pos, minus_one, length, take, drop,
}
use trabajos_sistemas_distri.Stdio.Run.{Run, done, starved}

-- What one `read (fd, &ch, 1)` gives: a byte, EINTR, or another error. Behind the last event every
-- call says end of file.
pub data Event : Type 0 where
  byte : ℕ → Event
  interrupted : Event
  failed : Event

-- What `readLine` returns, the bytes that it has put into the buffer, whether a NUL stands behind
-- them, and what is left of the connection.
pub record Line : Type 0 where
  pub count : ℤ
  pub stored : Bytes
  pub terminated : Bool
  pub rest : List Event

abbrev finish : Bytes → List Event → Line
finish s es = record { count = pos (length s); stored = s; terminated = true; rest = es }

-- The end of the file: with no byte read, the buffer is left as it is.
at_end : Bytes → Line
at_end [] = record { count = pos 0; stored = []; terminated = false; rest = [] }
at_end (c ∷ s) = finish (c ∷ s) []

-- The loop of `readLine`; `buf` holds the bytes stored so far.
unfoldable pub read_loop : ℕ → List Event → Bytes → Line
unfolding at_end
read_loop n [] buf = at_end buf
read_loop n (interrupted ∷ es) buf = read_loop n es buf
read_loop n (failed ∷ es) buf = record {
  count = minus_one;
  stored = buf;
  terminated = false;
  rest = es;
}
read_loop n (byte ch ∷ es) buf =
    let more = read_loop n es (if ltb (length buf) (n - 1) then buf ++ ch ∷ [] else buf) in
    if ch == b'\n' || ch == 0 then finish buf es else more

unfoldable pub read_line : ℕ → List Event → Line
unfolding read_loop
read_line zero es = record { count = minus_one; stored = []; terminated = false; rest = es }
read_line (suc n) es = read_loop (suc n) es []

-- The text in a buffer that held `old`; `none` is a buffer with no NUL that the program put there.
unfoldable pub buffer_after : Option Bytes → Line → Option Bytes
buffer_after old l = if l.terminated then some l.stored else elim old [
  | none ↦ none
  | some s ↦
      if leb (length l.stored) (length s) then some (l.stored ++ drop (length l.stored) s) else none
]

-- What one `write` or `read` does: so many bytes are moved (never more than asked for), or an error.
pub data Transfer : Type 0 where
  moved : ℕ → Transfer
  error : Transfer

-- The loop of `send_message`, on what is left of the buffer: the result and all that was sent.
-- Behind the last transfer a call does not return.
unfoldable pub send_message : List Transfer → Bytes → Bytes → Run (ℤ × Bytes)
send_message [] buffer wire = starved
send_message (error ∷ ts) buffer wire = done (minus_one, wire)
send_message (moved r ∷ ts) buffer wire =
    let again = send_message ts (drop r buffer) (wire ++ take r buffer) in
    if ltb 0 (length (drop r buffer)) then again else done (pos 0, wire ++ take r buffer)

-- What one `read (socket, buffer, l)` gives: bytes, of which the first `l` are taken, none at the
-- end of the file; or an error.
pub data Chunk : Type 0 where
  bytes : Bytes → Chunk
  error : Chunk

-- The loop of `receive_message` with `l` bytes to come: the result and what was received.
unfoldable pub receive_message : List Chunk → ℕ → Bytes → Run (ℤ × Bytes)
receive_message [] l buffer = starved
receive_message (Chunk.error ∷ cs) l buffer = done (minus_one, buffer)
receive_message (bytes s ∷ cs) l buffer =
    let r = length (take l s) in
    let again = receive_message cs (l - r) (buffer ++ take l s) in
    if ltb 0 (l - r) then again else done (pos 0, buffer ++ take l s)
