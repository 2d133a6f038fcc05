-- ===== src/Policy/Glob/Relation.antt =====
-- The matcher decides a relation between patterns and paths, given as rules.
use agentic_software_factory.Prelude.{
  ℕ, ◌≡◌, refl, Bool, true, false, ◌&&◌, ◌||◌, not, List, [], ◌∷◌, inl, inr, arith, ◌==◌, Str, str,
  str_eq, Bool-cases, or-eq_true, or-eq_true_right, and-eq_true,
}
use agentic_software_factory.Policy.Platform.{Platform}
use agentic_software_factory.Policy.Glob.{component_match, match_component}

-- One component: `*` takes any number of characters, `?` takes one, and the others themselves.
pub data Wild : Str → Str → Type 0 where
  done : Wild [] []
  star_none : {a : ℕ} {p t : Str} → (a == b'*') ≡ true → Wild p t → Wild (a ∷ p) t
  star_more : {a c : ℕ} {p t : Str} → (a == b'*') ≡ true → Wild (a ∷ p) t → Wild (a ∷ p) (c ∷ t)
  one : {a c : ℕ} {p t : Str} → (a == b'?') ≡ true → Wild p t → Wild (a ∷ p) (c ∷ t)
  same : {a c : ℕ} {p t : Str} → (a == c) ≡ true → Wild p t → Wild (a ∷ p) (c ∷ t)

-- A whole path: `**` takes any number of components, another component one that it matches.
pub data Matches (pl : Platform) (cs : Bool) : List Str → List Str → Type 0 where
  end : Matches pl cs [] []
  skip :
      {head : Str} {rest path : List Str}
      → str_eq head (str "**") ≡ true
      → Matches pl cs rest path
      → Matches pl cs (head ∷ rest) path
  eat :
      {head c : Str} {rest path : List Str}
      → str_eq head (str "**") ≡ true
      → Matches pl cs (head ∷ rest) path
      → Matches pl cs (head ∷ rest) (c ∷ path)
  step :
      {head c : Str} {rest path : List Str}
      → str_eq head (str "**") ≡ false
      → match_component pl cs head c ≡ true
      → Matches pl cs rest path
      → Matches pl cs (head ∷ rest) (c ∷ path)

star_all : {a : ℕ} (t : Str) → (a == b'*') ≡ true → Wild (a ∷ []) t
star_all [] h = star_none h done
star_all (c ∷ t) h = star_more h (star_all t h)

-- What the component matcher accepts, the rules derive.
component_match-Wild : (p t : Str) → component_match p t ≡ true → Wild p t
unfolding component_match
component_match-Wild [] [] h = done
component_match-Wild [] (c ∷ t) h = absurd (cc)
component_match-Wild (a ∷ []) [] h = star_none h done
component_match-Wild (a ∷ b ∷ p) [] h = absurd (cc)
component_match-Wild (a ∷ []) (c ∷ t) h = elim (Bool-cases (a == b'*')) [
  | inl s ↦ star_all (c ∷ t) s
  | inr s ↦ elim (Bool-cases (a == b'?')) [
    | inl q ↦ one q (component_match-Wild [] t (ground arith))
    | inr q ↦ same (ground arith) (component_match-Wild [] t (ground arith))
  ]
]
component_match-Wild (a ∷ b ∷ p) (c ∷ t) h = elim (Bool-cases (a == b'*')) [
  | inl s ↦
      elim (or-eq_true (component_match (a ∷ b ∷ p) t) (component_match (b ∷ p) (c ∷ t))
        (rw s at h)) [
          | inl more ↦ star_more s (component_match-Wild (a ∷ b ∷ p) t more)
          | inr none_taken ↦ star_none s (component_match-Wild (b ∷ p) (c ∷ t) none_taken)
        ]
  | inr s ↦ elim (Bool-cases (a == b'?')) [
    | inl q ↦ one q (component_match-Wild (b ∷ p) t (ground arith))
    | inr q ↦ same (ground arith) (component_match-Wild (b ∷ p) t (ground arith))
  ]
]

-- No two stars stand side by side.
abbrev pub no_double_star : Str → Bool
no_double_star [] = true
no_double_star (a ∷ []) = true
no_double_star (a ∷ b ∷ p) = not (a == b'*' && b == b'*') && no_double_star (b ∷ p)

-- A star may take nothing of a text that goes on.
pub prepend_some :
    (a : ℕ) (p : Str) (c : ℕ) (t : Str)
    → (a == b'*') ≡ true
    → component_match p (c ∷ t) ≡ true
    → component_match (a ∷ p) (c ∷ t) ≡ true
unfolding component_match
prepend_some a [] c t s h = rw s
prepend_some a (b ∷ p) c t s h = rw s (or-eq_true_right (component_match (a ∷ b ∷ p) t) _ h)

prepend_star :
    (a : ℕ) (p t : Str)
    → (a == b'*') ≡ true
    → no_double_star (a ∷ p) ≡ true
    → component_match p t ≡ true
    → component_match (a ∷ p) t ≡ true
unfolding component_match
prepend_star a [] [] s d h = s
prepend_star a (b ∷ []) [] s d h = ground arith
prepend_star a (b ∷ e ∷ p) [] s d h = h
prepend_star a p (c ∷ t) s d h = prepend_some a p c t s h

pub extend_star :
    (a c : ℕ) (p t : Str)
    → (a == b'*') ≡ true
    → component_match (a ∷ p) t ≡ true
    → component_match (a ∷ p) (c ∷ t) ≡ true
unfolding component_match
extend_star a c [] t s h = rw s
extend_star a c (b ∷ p) t s h = rw (s, h)

pub take_one :
    (a c : ℕ) (p t : Str)
    → (a == b'?' || a == c) ≡ true
    → (a == b'*') ≡ false
    → component_match p t ≡ true
    → component_match (a ∷ p) (c ∷ t) ≡ true
unfolding component_match
take_one a c [] t o s h = rw (s, o) h
take_one a c (b ∷ p) t o s h = rw (s, o) h

no_double_star-tail : (a : ℕ) (p : Str) → no_double_star (a ∷ p) ≡ true → no_double_star p ≡ true
no_double_star-tail a [] d = refl
no_double_star-tail a (b ∷ p) d = (and-eq_true _ _ d).1

-- What the rules derive, the component matcher accepts, if no two stars stand side by side.
Wild-component_match : {p t : Str} → Wild p t → no_double_star p ≡ true → component_match p t ≡ true
unfolding component_match
Wild-component_match done d = refl
Wild-component_match (star_none {a} {p} {t} s w) d =
    prepend_star a p t s d (Wild-component_match w (no_double_star-tail a p d))
Wild-component_match (star_more {a} {c} {p} {t} s w) d =
    extend_star a c p t s (Wild-component_match w d)
Wild-component_match (one {a} {c} {p} {t} q w) d =
    take_one a c p t (ground arith) (ground arith)
      (Wild-component_match w (no_double_star-tail a p d))
Wild-component_match (same {a} {c} {p} {t} e w) d =
    let rest = Wild-component_match w (no_double_star-tail a p d) in
    elim (Bool-cases (a == b'*')) [
      | inl s ↦ extend_star a c p t s (prepend_star a p t s d rest)
      | inr s ↦ take_one a c p t (ground arith) s rest
    ]
