-- ===== src/Server/Replies/Dialogue.antt =====
-- A request as it comes over the connection: its fields, each with a NUL behind it.
use trabajos_sistemas_distri.Base.{
  ℕ, zero, suc, ◌≤◌, ◌<◌, some, List, [], ◌∷◌, ◌++◌, ◌≡◌, refl, Bytes, map, length, take, arith,
}
use trabajos_sistemas_distri.Stdio.Run.{done}
use trabajos_sistemas_distri.Sockets.{Event, byte, buffer_after}
use trabajos_sistemas_distri.Sockets.Reading.{IsLine, read_line-line}
use trabajos_sistemas_distri.Logic.Users.{max_str}
use trabajos_sistemas_distri.Server.World.{World, ◌>>◌, read_text, defined, close}
use trabajos_sistemas_distri.Server.{dispatch, tratar_peticion}

pub record IsField (s : Bytes) : Type 0 where
  pub line : IsLine s
  pub fits : length s < max_str

abbrev pub request : List Bytes → List Event
request [] = []
request (s ∷ ss) = map byte s ++ byte 0 ∷ request ss

-- A world in which these fields are to be read.
abbrev pub receiving : World → List Bytes → World
receiving w ss = record w { input = request ss }

take-all : (n : ℕ) (s : Bytes) → length s ≤ n → take n s ≡ s
take-all zero [] h = refl
take-all zero (c ∷ s) h = absurd (omega arith)
take-all (suc n) [] h = refl
take-all (suc n) (c ∷ s) h = rw (take-all n s (omega arith)) refl

pub read_text_field :
    (w : World) (s : Bytes) (ss : List Bytes)
    → IsField s
    → read_text (receiving w (s ∷ ss)) ≡ done (some s, receiving w ss)
unfolding read_text buffer_after
read_text_field w s ss v =
    rw
      (
        read_line-line max_str s 0 (request ss) v.line refl (omega arith),
        take-all 255 s (omega (arith, v.fits)),
      )
      refl

pub tratar_peticion-dispatch :
    (w : World) (command : Bytes) (ss : List Bytes)
    → IsField command
    → tratar_peticion (receiving w (command ∷ ss)) ≡ (dispatch command >> close) (receiving w ss)
unfolding tratar_peticion defined
tratar_peticion-dispatch w command ss v = rw (read_text_field w command ss v) refl
