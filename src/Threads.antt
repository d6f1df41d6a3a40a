-- ===== src/Threads.antt =====
-- Threads of one process: a list, of which one element at a time moves.
use trabajos_sistemas_distri.Base.{
  ℕ, ◌+◌, ◌<◌, List, [], ◌∷◌, ◌≡◌, All, All-map, arith, ltb, ltb→lt, Bool-cases, inl, inr,
}

module _ {T : Type 0} where
  -- One thread goes from `a` to `b`.
  pub data Change (a b : T) : List T → List T → Type 0 where
    here : (ts : List T) → Change a b (a ∷ ts) (b ∷ ts)
    there : (t : T) {ts us : List T} → Change a b ts us → Change a b (t ∷ ts) (t ∷ us)

  abbrev pub total : (T → ℕ) → List T → ℕ
  total w [] = 0
  total w (t ∷ ts) = w t + total w ts

  pub total-Change :
      (w : T → ℕ) {a b : T} {ts us : List T}
      → Change a b ts us
      → total w us + w a ≡ total w ts + w b
  total-Change w (here ts) = omega arith
  total-Change w (there t c) = omega (arith, total-Change w c)

  pub All-Change :
      (P : T → Type 0) {a b : T} {ts us : List T}
      → Change a b ts us
      → (P a → P b)
      → All P ts
      → All P us
  All-Change P (here ts) f (p, ps) = (f p, ps)
  All-Change P (there t c) f (p, ps) = (p, All-Change P c f ps)

  -- What all threads have, the one that moves has.
  pub Change-All : (P : T → Type 0) {a b : T} {ts us : List T} → Change a b ts us → All P ts → P a
  Change-All P (here ts) (p, ps) = p
  Change-All P (there t c) (p, ps) = Change-All P c ps

  All-zip :
      (P Q R : T → Type 0)
      → ((t : T) → P t → Q t → R t)
      → (ts : List T) → All P ts
      → All Q ts
      → All R ts
  All-zip P Q R f [] p q = tt
  All-zip P Q R f (t ∷ ts) (p, ps) (q, qs) = (f t p q, All-zip P Q R f ts ps qs)

  -- A thread that counts can be picked, and sent anywhere.
  pub pick :
      (w : T → ℕ) (ts : List T)
      → 0 < total w ts
      → (a : T) × (0 < w a) × ((b : T) → (us : List T) × Change a b ts us)
  pick w [] h = absurd (omega arith)
  pick w (t ∷ ts) h = elim (Bool-cases (ltb 0 (w t))) [
    | inl e ↦ (t, ltb→lt 0 (w t) e, λ b. (b ∷ ts, here ts))
    | inr e ↦
        let (a, p, go) = pick w ts (ground arith) in
        (a, p, λ b. let (us, c) = go b in (t ∷ us, there t c))
  ]

  -- Any two threads stand so to one another.
  abbrev pub Pairwise : (T → T → Type 0) → List T → Type 0
  Pairwise R [] = Unit
  Pairwise R (t ∷ ts) = All (R t) ts × Pairwise R ts

  pub Pairwise-Change :
      (R : T → T → Type 0) {a b : T} {ts us : List T}
      → Change a b ts us
      → ((t : T) → R a t → R b t)
      → ((t : T) → R t a → R t b)
      → Pairwise R ts
      → Pairwise R us
  Pairwise-Change R {a} {b} (here ts) f g (p, ps) = (All-map f ts p, ps)
  Pairwise-Change R {a} {b} (there t c) f g (p, ps) =
      (All-Change (R t) c (g t) p, Pairwise-Change R c f g ps)

  -- What a move does to the others, if it leaves those alone that stand so to the one that moves.
  pub All-Change_apart :
      (R : T → T → Type 0) (P Q : T → Type 0) {a b : T} {ts us : List T}
      → Change a b ts us
      → Pairwise R ts
      → (P a → Q b)
      → ((t : T) → R a t → P t → Q t)
      → ((t : T) → R t a → P t → Q t)
      → All P ts
      → All Q us
  All-Change_apart R P Q (here ts) (r, rs) f g h (p, ps) = (f p, All-zip (R _) P Q g ts r ps)
  All-Change_apart R P Q (there t c) (r, rs) f g h (p, ps) =
      (h t (Change-All (R t) c r) p, All-Change_apart R P Q c rs f g h ps)
