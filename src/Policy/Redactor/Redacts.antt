-- ===== src/Policy/Redactor/Redacts.antt =====
-- What redaction is: at each place the first secret that stands there is replaced, else the character
-- is kept.
use agentic_software_factory.Prelude.{
  ℕ, zero, suc, ◌≤◌, ◌≡◌, refl, ap, sym, subst, inl, inr, arith, true, false, none, some, List, [],
  ◌∷◌, ◌++◌, length, length-append, is_empty, Str, str_eq, starts_with, contains, Bool-cases,
  Option-cases, eq_of_some, ◌||◌, starts_with-rest, str_eq_refl, str_eq→eq,
}
use agentic_software_factory.Policy.Redactor.{marker, find_match, drop, redact_loop}

pub data Redacts (secrets : List Str) : Str → Str → Type 0 where
  end : Redacts secrets [] []
  keep :
      {c : ℕ} {s q : Str}
      → find_match secrets (c ∷ s) ≡ none
      → Redacts secrets s q
      → Redacts secrets (c ∷ s) (c ∷ q)
  cut :
      {c : ℕ} {m s q : Str}
      → find_match secrets ((c ∷ m) ++ s) ≡ some (c ∷ m)
      → Redacts secrets s q
      → Redacts secrets ((c ∷ m) ++ s) (marker ++ q)

-- The match is a secret, and it stands there.
pub find_match-found :
    (secrets : List Str) (w m : Str)
    → find_match secrets w ≡ some m
    → (contains secrets m ≡ true) × (starts_with m w ≡ true)
unfolding find_match
find_match-found [] w m h = absurd (ground (arith, h))
find_match-found (s ∷ secrets) w m h = elim (Bool-cases (starts_with s w)) [
  | inl t ↦
      let e = eq_of_some (rw t at h) in
      subst (λ x. ((str_eq s x || contains secrets x) ≡ true) × (starts_with x w ≡ true)) e
        (ground (arith, str_eq_refl s), t)
  | inr f ↦
      let found = find_match-found secrets w m (rw f at h) in (ground (arith, found.0), found.1)
]

pub find_match-none :
    (secrets : List Str) (w m : Str)
    → find_match secrets w ≡ none
    → contains secrets m ≡ true
    → starts_with m w ≡ false
unfolding find_match
find_match-none [] w m h k = absurd (ground (arith, k))
find_match-none (s ∷ secrets) w m h k = elim (Bool-cases (str_eq s m)) [
  | inl t ↦ subst (λ x. starts_with x w ≡ false) (str_eq→eq s m t) (ground (arith, h))
  | inr f ↦ find_match-none secrets w m (ground (arith, h)) (ground (arith, k, f))
]

-- The secrets that stand at the one place stand at the other, and the other way round.
pub find_match-same :
    (secrets : List Str) (v w : Str)
    → ((m : Str) → contains secrets m ≡ true → starts_with m v ≡ starts_with m w)
    → find_match secrets v ≡ find_match secrets w
unfolding find_match
find_match-same [] v w h = refl
find_match-same (s ∷ secrets) v w h = ground (
  arith,
  h s (ground (arith, str_eq_refl s)),
  find_match-same secrets v w (λ m k. h m (ground (arith, k))),
)

-- No secret is empty.
abbrev pub NonEmpty : List Str → Type 0
NonEmpty secrets = (m : Str) → contains secrets m ≡ true → is_empty m ≡ false

drop-append : (p s : Str) → drop (length p) (p ++ s) ≡ s
drop-append [] s = refl
drop-append (a ∷ p) s = drop-append p s

loop_keep :
    (secrets : List Str) (fuel c : ℕ) (t q : Str)
    → find_match secrets (c ∷ t) ≡ none
    → redact_loop fuel secrets t ≡ some q
    → redact_loop (suc fuel) secrets (c ∷ t) ≡ some (c ∷ q)
unfolding redact_loop
loop_keep secrets fuel c t q e h = ground (arith, e, h)

loop_cut :
    (secrets : List Str) (fuel c : ℕ) (m s q : Str)
    → find_match secrets ((c ∷ m) ++ s) ≡ some (c ∷ m)
    → redact_loop fuel secrets s ≡ some q
    → redact_loop (suc fuel) secrets ((c ∷ m) ++ s) ≡ some (marker ++ q)
unfolding redact_loop
loop_cut secrets fuel c m s q e h = ground (arith, e, h, drop-append m s)

-- The loop ends on the text, and redacts it.
abbrev pub Ends : List Str → ℕ → Str → Type 0
Ends secrets fuel t = (q : Str) × (redact_loop fuel secrets t ≡ some q) × Redacts secrets t q

matched :
    (secrets : List Str) (fuel : ℕ) (w m : Str)
    → NonEmpty secrets
    → ((s : Str) → length s ≤ fuel → Ends secrets fuel s)
    → length w ≤ suc fuel
    → find_match secrets w ≡ some m
    → Ends secrets (suc fuel) w
matched secrets fuel w [] n rest h found =
    absurd (ground (arith, n [] ((find_match-found secrets w [] found).0)))
matched secrets fuel w (c ∷ m) n rest h found =
    let split = starts_with-rest (c ∷ m) w ((find_match-found secrets w (c ∷ m) found).1) in
    let s = split.0 in
    let shorter : length s ≤ fuel =
      omega (arith, h, ap length (split.1), length-append (c ∷ m) s) in
    let (q, e, r) = rest s shorter in
    let here = subst (λ v. find_match secrets v ≡ some (c ∷ m)) (split.1) found in
    subst (Ends secrets (suc fuel)) (sym (split.1))
      (marker ++ q, loop_cut secrets fuel c m s q here e, cut here r)

-- As much fuel as there are characters is enough, and the loop redacts.
pub redact_loop-Redacts :
    (secrets : List Str) (fuel : ℕ) (t : Str)
    → NonEmpty secrets
    → length t ≤ fuel
    → Ends secrets fuel t
unfolding redact_loop
redact_loop-Redacts secrets fuel [] n h = ([], refl, end)
redact_loop-Redacts secrets zero (c ∷ t) n h = absurd (omega (arith, h))
redact_loop-Redacts secrets (suc fuel) (c ∷ t) n h =
    let shorter = λ (s : Str) (k : length s ≤ fuel). redact_loop-Redacts secrets fuel s n k in
    elim (Option-cases (find_match secrets (c ∷ t))) [
      | inl gone ↦
          let (q, e, r) = shorter t (omega (arith, h)) in
          (c ∷ q, loop_keep secrets fuel c t q gone e, keep gone r)
      | inr (m, found) ↦ matched secrets fuel (c ∷ t) m n shorter h found
    ]
