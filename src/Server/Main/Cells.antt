-- ===== src/Server/Main/Cells.antt =====
-- The cells of memory that hold the sockets of server.c on their way to a thread.
use trabajos_sistemas_distri.Base.{ℕ, List, [], ◌∷◌, ◌≡◌, ◌≢◌, sym, Option, none, some, All, arith}
use trabajos_sistemas_distri.Threads.{Change, All-Change, Change-All}
use trabajos_sistemas_distri.Server.Main.{
  Main, accepting, allocating, creating, locking, testing, waiting, woken, unlocking, Thread,
  started, holding, taken, treating, crashed, cell, signalled,
}

-- The thread does not use that cell.
abbrev pub Avoids : ℕ → Thread → Type 0
Avoids p (started sc q) = p ≢ q
Avoids p (holding sc q) = p ≢ q
Avoids p _ = Unit

abbrev pub Apart : Thread → Thread → Type 0
Apart (started sc p) u = Avoids p u
Apart (holding sc p) u = Avoids p u
Apart _ u = Unit

-- The thread has the socket that it was started for, or finds it in its cell.
abbrev pub Faithful : (ℕ → Option ℕ) → Thread → Type 0
Faithful heap (started sc p) = heap p ≡ some sc
Faithful heap (holding sc p) = heap p ≡ some sc
Faithful heap (taken sc v) = v ≡ sc
Faithful heap (treating sc v) = v ≡ sc
Faithful heap crashed = ⊥

-- The cell of main before the thread is started is its own, and holds the socket.
abbrev pub Owns : Main → (ℕ → Option ℕ) → List Thread → Type 0
Owns (creating sc p) heap ts = (heap p ≡ some sc) × All (Avoids p) ts
Owns _ heap ts = Unit

pub Avoids-fresh :
    (heap : ℕ → Option ℕ) (p : ℕ) (ts : List Thread)
    → heap p ≡ none
    → All (Faithful heap) ts
    → All (Avoids p) ts
Avoids-fresh heap p [] h v = tt
Avoids-fresh heap p (started sc q ∷ ts) h (e, v) = (λ f. cc, Avoids-fresh heap p ts h v)
Avoids-fresh heap p (holding sc q ∷ ts) h (e, v) = (λ f. cc, Avoids-fresh heap p ts h v)
Avoids-fresh heap p (taken sc q ∷ ts) h (e, v) = (tt, Avoids-fresh heap p ts h v)
Avoids-fresh heap p (treating sc q ∷ ts) h (e, v) = (tt, Avoids-fresh heap p ts h v)
Avoids-fresh heap p (crashed ∷ ts) h (e, v) = absurd e

-- A change of one cell is nothing to a thread that avoids it.
pub Faithful-cell :
    (heap : ℕ → Option ℕ) (p : ℕ) (o : Option ℕ) (t : Thread)
    → Avoids p t
    → Faithful heap t
    → Faithful (cell heap p o) t
Faithful-cell heap p o (started sc q) n e = ground arith
Faithful-cell heap p o (holding sc q) n e = ground arith
Faithful-cell heap p o (taken sc q) n e = e
Faithful-cell heap p o (treating sc q) n e = e
Faithful-cell heap p o crashed n e = e

pub All-Faithful-cell :
    (heap : ℕ → Option ℕ) (p : ℕ) (o : Option ℕ) (ts : List Thread)
    → All (Avoids p) ts
    → All (Faithful heap) ts
    → All (Faithful (cell heap p o)) ts
All-Faithful-cell heap p o [] n e = tt
All-Faithful-cell heap p o (t ∷ ts) (n, ns) (e, es) =
    (Faithful-cell heap p o t n e, All-Faithful-cell heap p o ts ns es)

pub Apart-Avoids : (t : Thread) (sc p : ℕ) → Apart t (holding sc p) → Avoids p t
Apart-Avoids (started sd q) sc p n = λ e. n (sym e)
Apart-Avoids (holding sd q) sc p n = λ e. n (sym e)
Apart-Avoids (taken sd q) sc p n = tt
Apart-Avoids (treating sd q) sc p n = tt
Apart-Avoids crashed sc p n = tt

pub Apart-holding : (t : Thread) (sc p : ℕ) → Apart t (started sc p) → Apart t (holding sc p)
Apart-holding (started sd q) sc p n = n
Apart-holding (holding sd q) sc p n = n
Apart-holding (taken sd q) sc p n = tt
Apart-holding (treating sd q) sc p n = tt
Apart-holding crashed sc p n = tt

pub Apart-taken : (t : Thread) (sc v : ℕ) → Apart t (taken sc v)
Apart-taken (started sd q) sc v = tt
Apart-taken (holding sd q) sc v = tt
Apart-taken (taken sd q) sc v = tt
Apart-taken (treating sd q) sc v = tt
Apart-taken crashed sc v = tt

pub Apart-treating : (t : Thread) (sc v : ℕ) → Apart t (treating sc v)
Apart-treating (started sd q) sc v = tt
Apart-treating (holding sd q) sc v = tt
Apart-treating (taken sd q) sc v = tt
Apart-treating (treating sd q) sc v = tt
Apart-treating crashed sc v = tt

-- A move of a thread that uses no other cell than before.
pub Owns-Change :
    (m : Main) (heap : ℕ → Option ℕ) {a b : Thread} {ts us : List Thread}
    → Change a b ts us
    → ((p : ℕ) → Avoids p a → Avoids p b)
    → Owns m heap ts
    → Owns m heap us
Owns-Change (creating sc p) heap c f (e, n) = (e, All-Change (Avoids p) c (f p) n)
Owns-Change accepting heap c f o = tt
Owns-Change (allocating sc) heap c f o = tt
Owns-Change locking heap c f o = tt
Owns-Change testing heap c f o = tt
Owns-Change waiting heap c f o = tt
Owns-Change woken heap c f o = tt
Owns-Change unlocking heap c f o = tt

pub Owns-take :
    (m : Main) (heap : ℕ → Option ℕ) (sc p v : ℕ) {ts us : List Thread}
    → Change (holding sc p) (taken sc v) ts us
    → Owns m heap ts
    → Owns (signalled m) (cell heap p none) us
Owns-take (creating sd q) heap sc p v c (e, n) =
    let other : q ≢ p = Change-All (Avoids q) c n in
    (ground arith, All-Change (Avoids q) c (λ h. tt) n)
Owns-take accepting heap sc p v c o = tt
Owns-take (allocating sd) heap sc p v c o = tt
Owns-take locking heap sc p v c o = tt
Owns-take testing heap sc p v c o = tt
Owns-take waiting heap sc p v c o = tt
Owns-take woken heap sc p v c o = tt
Owns-take unlocking heap sc p v c o = tt

pub Owns-main :
    (m n : Main) (heap : ℕ → Option ℕ) (ts : List Thread) → m ≡ n → Owns m heap ts → Owns n heap ts
Owns-main m n heap ts e o = rw (← e) o
