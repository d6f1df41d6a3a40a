-- ===== src/Sockets/Sending.antt =====
-- `send_message` over short writes, and `receive_message` at the end of the file.
use trabajos_sistemas_distri.Base.{
  ℕ, zero, suc, ◌-◌, ◌≤◌, ◌<◌, Bool, true, false, any, List, [], ◌∷◌, ◌++◌, ◌≡◌, refl, ◌⊎◌, inl,
  inr, ltb, ltb→lt, Bytes, All, ℤ, pos, minus_one, length, take, drop, append_assoc, append-nil,
  arith, Bool-cases,
}
use trabajos_sistemas_distri.Stdio.Run.{Run, done, starved}
use trabajos_sistemas_distri.Sockets.{
  Transfer, moved, error, send_message, Chunk, bytes, receive_message,
}

take-append-drop {ℓ} : {A : Type ℓ} (n : ℕ) (xs : List A) → take n xs ++ drop n xs ≡ xs
take-append-drop zero xs = refl
take-append-drop (suc n) [] = refl
take-append-drop (suc n) (x ∷ xs) = rw (take-append-drop n xs)

length-drop {ℓ} : {A : Type ℓ} (n : ℕ) (xs : List A) → length (drop n xs) ≡ length xs - n
length-drop zero xs = omega arith
length-drop (suc n) [] = omega arith
length-drop (suc n) (x ∷ xs) = omega (arith, length-drop n xs)

nil_of_length {ℓ} : {A : Type ℓ} (xs : List A) → ltb 0 (length xs) ≡ false → xs ≡ []
nil_of_length [] h = refl
nil_of_length (x ∷ xs) h = ground arith

regroup :
    (wire : Bytes) (r : ℕ) (buffer : Bytes)
    → (wire ++ take r buffer) ++ drop r buffer ≡ wire ++ buffer
regroup wire r buffer = rw (append_assoc, take-append-drop r buffer)

last_round :
    (r : ℕ) (buffer wire : Bytes) (res : ℤ) (sent : Bytes)
    → ltb 0 (length (drop r buffer)) ≡ false
    → ◌≡◌ {A = Run (ℤ × Bytes)} (done (pos 0, wire ++ take r buffer)) (done (res, sent))
    → (res ≡ pos 0) × (sent ≡ wire ++ buffer)
last_round r buffer wire res sent last h =
    let whole : take r buffer ++ [] ≡ buffer =
      rw (nil_of_length (drop r buffer) last) at (take-append-drop r buffer) in
    (cc, cc (append-nil (take r buffer)))

abbrev pub is_error : Transfer → Bool
is_error error = true
is_error (moved r) = false

-- If `send_message` of a byte or more returns, it returns 0 or -1: 0 exactly when the whole message
-- has been sent, and -1 exactly when a write has failed and a last part of the message, one byte at
-- least, has not been sent.
pub send_message_sound :
    (ts : List Transfer) (buffer wire : Bytes) (res : ℤ) (sent : Bytes)
    → 0 < length buffer
    → send_message ts buffer wire ≡ done (res, sent)
    → ((res ≡ pos 0) × (sent ≡ wire ++ buffer))
      ⊎ ((res ≡ minus_one)
          × (any is_error ts ≡ true)
          × (k : Bytes) × (0 < length k)
          × (wire ++ buffer ≡ sent ++ k))
unfolding send_message
send_message_sound [] buffer wire res sent p h = cc
send_message_sound (error ∷ ts) buffer wire res sent p h = inr (cc, refl, buffer, p, cc)
send_message_sound (moved r ∷ ts) buffer wire res sent p h =
    elim (Bool-cases (ltb 0 (length (drop r buffer)))) [
      | inl more ↦ rw (regroup wire r buffer) at (
          send_message_sound ts (drop r buffer) (wire ++ take r buffer) res sent (ltb→lt _ _ more)
            (rw more at h))
      | inr last ↦ inl (last_round r buffer wire res sent last (rw last at h))
    ]

abbrev pub Moves : Transfer → Type 0
Moves (moved r) = 0 < r
Moves error = ⊥

-- So many reads at the end of the file.
abbrev pub ends : ℕ → List Chunk
ends zero = []
ends (suc k) = bytes [] ∷ ends k

-- If no write fails and each takes a byte at least, `send_message` returns 0 and has sent the
-- whole message after as many writes as the message has bytes, one at least.
pub send_message_complete :
    (ts : List Transfer) (buffer wire : Bytes)
    → All Moves ts
    → 0 < length ts
    → length buffer ≤ length ts
    → send_message ts buffer wire ≡ done (pos 0, wire ++ buffer)
unfolding send_message
send_message_complete [] buffer wire v h k = absurd (omega arith)
send_message_complete (error ∷ ts) buffer wire v h k = absurd v.0
send_message_complete (moved r ∷ ts) buffer wire v h k =
    elim (Bool-cases (ltb 0 (length (drop r buffer)))) [
      | inl more ↦
          rw
            (
              more,
              send_message_complete ts (drop r buffer) (wire ++ take r buffer) v.1
                  (omega (arith, length-drop r buffer, ltb→lt _ _ more))
                  (omega (arith, length-drop r buffer)),
              regroup wire r buffer,
            )
            refl
      | inr last ↦ rw last (
          let (p, q) = last_round r buffer wire (pos 0) (wire ++ take r buffer) last refl in
          rw q refl)
    ]

-- `receive_message` of one byte or more does not return while every read says end of file,
-- however many reads there are.
pub receive_message_at_end :
    (k l : ℕ) (buffer : Bytes) → 0 < l → receive_message (ends k) l buffer ≡ starved
unfolding receive_message
receive_message_at_end zero zero buffer h = refl
receive_message_at_end zero (suc l) buffer h = refl
receive_message_at_end (suc k) zero buffer h = absurd (omega arith)
receive_message_at_end (suc k) (suc l) buffer h =
    ground (arith, receive_message_at_end k (suc l - 0) (buffer ++ []))
