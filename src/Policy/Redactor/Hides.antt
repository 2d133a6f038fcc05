-- ===== src/Policy/Redactor/Hides.antt =====
-- No secret is left in what a stream returns.
use agentic_software_factory.Prelude.{
  ℕ, ◌≡◌, refl, ap₂, subst, ◌∙◌, inl, inr, arith, true, false, some, List, [], ◌∷◌, ◌++◌, ◌==◌, any,
  is_empty, Str, str, starts_with, strip_prefix, contains, contains_str, Bool-cases, ◌||◌,
  starts_with-nil, starts_with-short, starts_with-cons, cons-starts_with,
}
use agentic_software_factory.Policy.Redactor.{marker, stream}
use agentic_software_factory.Policy.Redactor.Redacts.{Redacts, end, keep, cut, find_match-none}
use agentic_software_factory.Policy.Redactor.Stream.{IsPlain, concat, stream-Redacts}

-- A text that is found neither in the marker nor around its ends.
pub record IsUnlike (s : Str) : Type 0 where
  pub full : is_empty s ≡ false
  pub no_open : any (λ a. a == b'[') s ≡ false
  pub no_close : any (λ a. a == b']') s ≡ false
  pub no_word : contains_str s (str "REDACTED") ≡ false

-- A text that does not begin with a character does not stand before it.
not_before :
    (s : Str) (c : ℕ) (r : Str)
    → is_empty s ≡ false
    → any (λ a. a == c) s ≡ false
    → starts_with s (c ∷ r) ≡ false
not_before [] c r f h = absurd (ground (arith, f))
not_before (a ∷ s) c r f h = elim (Bool-cases (starts_with (a ∷ s) (c ∷ r))) [
  | inr n ↦ n
  | inl t ↦ absurd (ground (arith, h, (starts_with-cons a c s r t).0))
]

-- What is found in a redacted text at its start stood there before.
starts-before :
    (secrets : List Str) (s t q : Str)
    → any (λ a. a == b'[') s ≡ false
    → Redacts secrets t q
    → starts_with s q ≡ true
    → starts_with s t ≡ true
unfolding marker str
starts-before secrets s [] [] h end b = b
starts-before secrets [] t q h (keep e r) b = starts_with-nil t
starts-before secrets (a ∷ s) t q h (keep {c} {s = v} {q = w} e r) b =
    let parts = starts_with-cons a c s w b in
    let later = starts-before secrets s v w (ground (arith, h)) r (parts.1) in
    subst (λ x. starts_with (a ∷ s) (x ∷ v) ≡ true) (parts.0) (cons-starts_with a s v later)
starts-before secrets [] t q h (cut e r) b = starts_with-nil t
starts-before secrets (a ∷ s) t q h (cut {s = v} {q = w} e r) b =
    absurd (ground (arith, h, (starts_with-cons a b'[' s (str "REDACTED]" ++ w) b).0))

-- A text without the end of the marker does not reach over it.
starts-close :
    (s w r : Str) → any (λ a. a == b']') s ≡ false → starts_with s (w ++ b']' ∷ r) ≡ starts_with s w
unfolding starts_with strip_prefix
starts-close [] w r h = refl
starts-close (a ∷ s) [] r h = not_before (a ∷ s) b']' r refl h
starts-close (a ∷ s) (b ∷ w) r h = ground (arith, starts-close s w r (ground (arith, h)))

contains_str-close :
    (s w r : Str)
    → is_empty s ≡ false
    → any (λ a. a == b']') s ≡ false
    → contains_str s (w ++ b']' ∷ r) ≡ (contains_str s w || contains_str s r)
unfolding contains_str
contains_str-close s [] r f h = ground (arith, not_before s b']' r f h, starts-close s [] r h)
contains_str-close s (c ∷ w) r f h =
    ground (arith, starts-close s (c ∷ w) r h, contains_str-close s w r f h)

-- A secret that is unlike the marker is in no redacted text.
Redacts-hides :
    (secrets : List Str) (s t q : Str)
    → contains secrets s ≡ true
    → IsUnlike s
    → Redacts secrets t q
    → contains_str s q ≡ false
unfolding contains_str marker str
Redacts-hides secrets [] t q k u r = absurd (ground (arith, u.full))
Redacts-hides secrets (a ∷ s) [] [] k u end = starts_with-short a s
Redacts-hides secrets (a ∷ s) t q k u (keep {c} {s = v} {q = w} e r) =
    elim (Bool-cases (starts_with (a ∷ s) (c ∷ w))) [
      | inl b ↦
          let there = starts-before secrets (a ∷ s) (c ∷ v) (c ∷ w) u.no_open (keep e r) b in
          absurd (ground (arith, there, find_match-none secrets (c ∷ v) (a ∷ s) e k))
      | inr b ↦ ground (arith, b, Redacts-hides secrets (a ∷ s) v w k u r)
    ]
Redacts-hides secrets (a ∷ s) t q k u (cut {s = v} {q = w} e r) =
    let inside = contains_str-close (a ∷ s) (str "REDACTED") w u.full u.no_close in
    let later = Redacts-hides secrets (a ∷ s) v w k u r in
    ap₂ ◌||◌ (not_before (a ∷ s) b'[' (str "REDACTED" ++ b']' ∷ w) u.full u.no_open)
      (inside ∙ ap₂ ◌||◌ u.no_word later)

-- If no secret is empty, holds another, or holds `[` or `]`, none is a part of the word in the marker,
-- and each is within the bound on what is held, then a stream of any chunks ends, and no secret is in
-- what it returns in all.
pub stream-hides :
    (secrets : List Str) (chunks : List Str)
    → IsPlain secrets
    → ((s : Str) → contains secrets s ≡ true → IsUnlike s)
    → (out : Str) × (stream (record { secrets = secrets; pending = [] }) chunks ≡ some out)
      × ((s : Str) → contains secrets s ≡ true → contains_str s out ≡ false)
stream-hides secrets chunks plain unlike =
    let (out, e, r) = stream-Redacts secrets chunks plain in
    (out, e, λ s k. Redacts-hides secrets s (concat chunks) out k (unlike s k) r)
