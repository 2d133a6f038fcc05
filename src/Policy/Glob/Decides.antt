-- ===== src/Policy/Glob/Decides.antt =====
-- `matches_glob` decides the relation of whole paths.
use agentic_software_factory.Prelude.{
  ◌≡◌, refl, ◌↔◌, Bool, true, List, [], ◌∷◌, inl, inr, Str, str, str_eq, split, Bool-cases,
  or-eq_true, and-eq_true, arith,
}
use agentic_software_factory.Policy.Platform.{Platform}
use agentic_software_factory.Policy.Glob.{
  match_component, any_suffix, match_components, matches_glob,
}
use agentic_software_factory.Policy.Glob.Relation.{Matches, end, skip, eat, step}

pub any_suffix_head :
    (f : List Str → Bool) (path : List Str) → f path ≡ true → any_suffix f path ≡ true
unfolding any_suffix
any_suffix_head f [] h = h
any_suffix_head f (c ∷ path) h = rw h

pub any_suffix_tail :
    (f : List Str → Bool) (c : Str) (path : List Str)
    → any_suffix f path ≡ true
    → any_suffix f (c ∷ path) ≡ true
unfolding any_suffix
any_suffix_tail f c path h = ground arith

module _ (pl : Platform) (cs : Bool) where
  pub match_components_star :
      (head : Str) (rest path : List Str)
      → str_eq head (str "**") ≡ true
      → match_components pl cs (head ∷ rest) path ≡ any_suffix (match_components pl cs rest) path
  unfolding match_components
  match_components_star head rest [] s = rw s
  match_components_star head rest (c ∷ path) s = rw s

  suffix-Matches :
      (head : Str) (rest path : List Str)
      → str_eq head (str "**") ≡ true
      → ((path' : List Str) → match_components pl cs rest path' ≡ true → Matches pl cs rest path')
      → any_suffix (match_components pl cs rest) path ≡ true
      → Matches pl cs (head ∷ rest) path
  unfolding any_suffix
  suffix-Matches head rest [] s ih h = skip s (ih [] h)
  suffix-Matches head rest (c ∷ path) s ih h = elim (or-eq_true _ _ h) [
    | inl here ↦ skip s (ih (c ∷ path) here)
    | inr later ↦ eat s (suffix-Matches head rest path s ih later)
  ]

  match_components-Matches :
      (pattern path : List Str)
      → match_components pl cs pattern path ≡ true
      → Matches pl cs pattern path
  unfolding match_components
  match_components-Matches [] [] h = end
  match_components-Matches [] (c ∷ path) h = absurd (cc)
  match_components-Matches (head ∷ rest) [] h = elim (Bool-cases (str_eq head (str "**"))) [
    | inl s ↦ suffix-Matches head rest [] s (match_components-Matches rest) (rw s at h)
    | inr s ↦ absurd (cc)
  ]
  match_components-Matches (head ∷ rest) (c ∷ path) h = elim (Bool-cases (str_eq head (str "**"))) [
    | inl s ↦ suffix-Matches head rest (c ∷ path) s (match_components-Matches rest) (rw s at h)
    | inr s ↦
        let (first, others) = and-eq_true (match_component pl cs head c) _ (rw s at h) in
        step s first (match_components-Matches rest path others)
  ]

  Matches-match_components :
      {pattern path : List Str}
      → Matches pl cs pattern path
      → match_components pl cs pattern path ≡ true
  unfolding match_components
  Matches-match_components end = refl
  Matches-match_components (skip {head} {rest} {path} s m) =
      rw (match_components_star head rest path s)
        (any_suffix_head (match_components pl cs rest) path (Matches-match_components m))
  Matches-match_components (eat {head} {c} {rest} {path} s m) =
      rw (match_components_star head rest (c ∷ path) s) (
        any_suffix_tail (match_components pl cs rest) c path
          (rw (match_components_star head rest path s) at (Matches-match_components m)))
  Matches-match_components (step s h m) = rw (s, h) (Matches-match_components m)

-- `matches_glob` accepts a pattern and a path exactly when the rules relate their components.
pub matches_glob-Matches :
    (pl : Platform) (cs : Bool) (pattern path : Str)
    → (matches_glob pl pattern path cs ≡ true)
      ↔ Matches pl cs (split b'/' pattern) (split b'/' path)
unfolding matches_glob
matches_glob-Matches pl cs pattern path = (
  match_components-Matches pl cs (split b'/' pattern) (split b'/' path),
  Matches-match_components pl cs,
)
