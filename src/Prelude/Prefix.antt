-- ===== src/Prelude/Prefix.antt =====
-- Prefixes of texts.
use Prim.Native.Nat.{ℕ}
use mathlib.Core.Path.{◌≡◌, refl, ap, sym, ◌∙◌, subst}
use mathlib.Core.Logic.{◌⊎◌, inl, inr}
use mathlib.Core.Bool.{true, false}
use mathlib.Core.List.{[], ◌∷◌, ◌++◌}
use native.Mathlib.Omega.{arith}
use agentic_software_factory.Prelude.Text.{Str, strip_prefix, starts_with, contains_str}

pub starts_with-nil : (s : Str) → starts_with [] s ≡ true
unfolding starts_with strip_prefix
starts_with-nil s = refl

pub starts_with-cons :
    (a b : ℕ) (p s : Str) → starts_with (a ∷ p) (b ∷ s) ≡ true → (a ≡ b) × (starts_with p s ≡ true)
unfolding starts_with strip_prefix
starts_with-cons a b p s h = ground (arith, h)

pub cons-starts_with :
    (a : ℕ) (p s : Str) → starts_with p s ≡ true → starts_with (a ∷ p) (a ∷ s) ≡ true
unfolding starts_with strip_prefix
cons-starts_with a p s h = ground (arith, h)

pub starts_with-short : (a : ℕ) (p : Str) → starts_with (a ∷ p) [] ≡ false
unfolding starts_with strip_prefix
starts_with-short a p = refl

pub starts_with-append : (p s : Str) → starts_with p (p ++ s) ≡ true
starts_with-append [] s = starts_with-nil s
starts_with-append (a ∷ p) s = cons-starts_with a p (p ++ s) (starts_with-append p s)

-- A text that begins with another is the other and a rest.
pub starts_with-rest : (p s : Str) → starts_with p s ≡ true → (r : Str) × (s ≡ p ++ r)
starts_with-rest [] s h = (s, refl)
starts_with-rest (a ∷ p) [] h = absurd (ground (arith, h, starts_with-short a p))
starts_with-rest (a ∷ p) (b ∷ s) h =
    let parts = starts_with-cons a b p s h in
    let rest = starts_with-rest p s (parts.1) in
    (rest.0, subst (λ x. b ∷ s ≡ x ∷ (p ++ rest.0)) (sym (parts.0)) (ap (λ t. b ∷ t) (rest.1)))

-- What begins a text begins the longer one.
pub starts_with-longer : (p s t : Str) → starts_with p s ≡ true → starts_with p (s ++ t) ≡ true
starts_with-longer [] s t h = starts_with-nil (s ++ t)
starts_with-longer (a ∷ p) [] t h = absurd (ground (arith, h, starts_with-short a p))
starts_with-longer (a ∷ p) (b ∷ s) t h =
    let parts = starts_with-cons a b p s h in
    subst (λ x. starts_with (a ∷ p) (x ∷ (s ++ t)) ≡ true) (parts.0)
      (cons-starts_with a p (s ++ t) (starts_with-longer p s t (parts.1)))

-- What begins `s ++ t` begins `s`, or is longer than `s`.
pub starts_with-split :
    (p s t : Str)
    → starts_with p (s ++ t) ≡ true
    → (starts_with p s ≡ true) ⊎ ((x : ℕ) × (u : Str) × (p ≡ s ++ x ∷ u))
starts_with-split [] s t h = inl (starts_with-nil s)
starts_with-split (a ∷ p) [] t h = inr (a, p, refl)
starts_with-split (a ∷ p) (b ∷ s) t h =
    let parts = starts_with-cons a b p (s ++ t) h in
    elim (starts_with-split p s t (parts.1)) [
      | inl k ↦
          inl (subst (λ x. starts_with (a ∷ p) (x ∷ s) ≡ true) (parts.0) (cons-starts_with a p s k))
      | inr (x, u, e) ↦ inr (x, u, ap (λ q. a ∷ q) e ∙ ap (λ y. y ∷ (s ++ x ∷ u)) (parts.0))
    ]

contains_str-here : (p s : Str) → starts_with p s ≡ true → contains_str p s ≡ true
unfolding contains_str
contains_str-here p [] h = h
contains_str-here p (c ∷ s) h = ground (arith, h)

-- What stands in the middle of a text is contained in it.
pub contains_str-middle : (v p t : Str) → contains_str p (v ++ (p ++ t)) ≡ true
unfolding contains_str
contains_str-middle [] p t = contains_str-here p (p ++ t) (starts_with-append p t)
contains_str-middle (a ∷ v) p t = ground (arith, contains_str-middle v p t)
