-- ===== src/Prelude/Split.antt =====
-- Splitting a text at a character and joining the pieces again.
use Prim.Native.Nat.{ℕ}
use mathlib.Core.Path.{◌≡◌, refl}
use mathlib.Core.Logic.{inl, inr}
use mathlib.Core.Bool.{Bool, true, false}
use mathlib.Core.List.{List, [], ◌∷◌, ◌++◌}
use native.Mathlib.Omega.{arith}
use agentic_software_factory.Prelude.Tests.{◌==◌, Bool-cases, ==_refl}
use agentic_software_factory.Prelude.Lists.{any, All, any-append}
use agentic_software_factory.Prelude.Text.{Str, cons_first, split_by, split, join, replace_char}

cons_first-All :
    (q : ℕ → Bool) (c : ℕ) (ws : List Str)
    → q c ≡ false
    → All (λ w. any q w ≡ false) ws
    → All (λ w. any q w ≡ false) (cons_first c ws)
cons_first-All q c [] h hs = (ground arith, tt)
cons_first-All q c (w ∷ ws) h hs = (ground arith, hs.1)

-- What no character of a text is, no character of its pieces is.
pub split_by-All :
    (p q : ℕ → Bool) (s : Str) → any q s ≡ false → All (λ w. any q w ≡ false) (split_by p s)
unfolding split_by
split_by-All p q [] h = (refl, tt)
split_by-All p q (c ∷ s) h = elim (Bool-cases (p c)) [
  | inl e ↦ rw e (refl, split_by-All p q s (ground arith))
  | inr e ↦
      rw e (cons_first-All q c (split_by p s) (ground arith) (split_by-All p q s (ground arith)))
]

-- No piece has a separator.
pub split_by-free : (p : ℕ → Bool) (s : Str) → All (λ w. any p w ≡ false) (split_by p s)
unfolding split_by
split_by-free p [] = (refl, tt)
split_by-free p (c ∷ s) = elim (Bool-cases (p c)) [
  | inl e ↦ rw e (refl, split_by-free p s)
  | inr e ↦ rw e (cons_first-All p c (split_by p s) e (split_by-free p s))
]

pub split_by-cons : (p : ℕ → Bool) (s : Str) → (w : Str) × (ws : List Str) × (split_by p s ≡ w ∷ ws)
unfolding split_by
split_by-cons p [] = ([], [], refl)
split_by-cons p (c ∷ s) =
    let (w, ws, e) = split_by-cons p s in
    elim (Bool-cases (p c)) [ inl h ↦ ([], split_by p s, rw h) | inr h ↦ (c ∷ w, ws, rw (h, e)) ]

-- A separator splits a text in two.
pub split_by-append :
    (p : ℕ → Bool) (s : Str) (c : ℕ) (t : Str)
    → p c ≡ true
    → split_by p (s ++ c ∷ t) ≡ split_by p s ++ split_by p t
unfolding split_by
split_by-append p [] c t h = rw h
split_by-append p (d ∷ s) c t h =
    let (w, ws, e) = split_by-cons p s in
    elim (Bool-cases (p d)) [
      | inl k ↦ rw (k, split_by-append p s c t h)
      | inr k ↦ rw (k, split_by-append p s c t h, e)
    ]

split_by-word : (p : ℕ → Bool) (w : Str) → any p w ≡ false → split_by p w ≡ w ∷ []
unfolding split_by
split_by-word p [] h = refl
split_by-word p (c ∷ w) h = ground (arith, split_by-word p w)

split_by-word_sep :
    (p : ℕ → Bool) (w : Str) (c : ℕ) (s : Str)
    → any p w ≡ false
    → p c ≡ true
    → split_by p (w ++ c ∷ s) ≡ w ∷ split_by p s
unfolding split_by
split_by-word_sep p [] c s h e = rw e
split_by-word_sep p (d ∷ w) c s h e = ground (arith, split_by-word_sep p w c s)

-- Pieces without the separator come back from their join.
pub split-join :
    (sep : ℕ) (w : Str) (ws : List Str)
    → All (λ v. any (λ c. c == sep) v ≡ false) (w ∷ ws)
    → split sep (join (sep ∷ []) (w ∷ ws)) ≡ w ∷ ws
unfolding split join
split-join sep w [] h = split_by-word (λ c. c == sep) w h.0
split-join sep w (v ∷ ws) h =
    rw (split_by-word_sep (λ c. c == sep) w sep (join (sep ∷ []) (v ∷ ws)) h.0 (==_refl sep))
      (rw (split-join sep v ws h.1))

-- What no piece and no separator has, the join has not.
pub any-join :
    (q : ℕ → Bool) (sep : Str) (ws : List Str)
    → any q sep ≡ false
    → All (λ w. any q w ≡ false) ws
    → any q (join sep ws) ≡ false
unfolding join
any-join q sep [] h hs = refl
any-join q sep (w ∷ []) h hs = hs.0
any-join q sep (w ∷ v ∷ ws) h hs = ground (
  arith,
  any-append q w (sep ++ join sep (v ∷ ws)),
  any-append q sep (join sep (v ∷ ws)),
  any-join q sep (v ∷ ws) h hs.1,
)

pub any-replace_char :
    (from to : ℕ) (s : Str)
    → (to == from) ≡ false
    → any (λ c. c == from) (replace_char from to s) ≡ false
unfolding replace_char
any-replace_char from to [] h = refl
any-replace_char from to (c ∷ s) h = ground (arith, any-replace_char from to s)

pub replace_char-eq_self :
    (from to : ℕ) (s : Str) → any (λ c. c == from) s ≡ false → replace_char from to s ≡ s
unfolding replace_char
replace_char-eq_self from to [] h = refl
replace_char-eq_self from to (c ∷ s) h = ground (arith, replace_char-eq_self from to s)
