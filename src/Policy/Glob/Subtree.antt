-- ===== src/Policy/Glob/Subtree.antt =====
-- A pattern `dir/**` covers the directory and all below it.
use agentic_software_factory.Prelude.{
  ◌≡◌, refl, Bool, true, false, List, [], ◌∷◌, ◌++◌, inl, inr, arith, ◌==◌, Str, str, str_eq, split,
  split_by-append, Bool-cases, ==_refl, or-eq_true_right,
}
use agentic_software_factory.Policy.Platform.{Platform}
use agentic_software_factory.Policy.Glob.{
  chars, component_match, match_component, any_suffix, match_components, matches_glob,
}
use agentic_software_factory.Policy.Glob.Relation.{prepend_some, extend_star, take_one}
use agentic_software_factory.Policy.Glob.Decides.{
  any_suffix_head, any_suffix_tail, match_components_star,
}
use mathlib.Core.List.{append-nil}

-- Every text matches itself, also where it holds stars.
component_match_self : (s : Str) → component_match s s ≡ true
unfolding component_match
component_match_self [] = refl
component_match_self (a ∷ []) = ground arith
component_match_self (a ∷ b ∷ s) = elim (Bool-cases (a == b'*')) [
  | inl star ↦
      extend_star a a (b ∷ s) (b ∷ s) star
        (prepend_some a (b ∷ s) b s star (component_match_self (b ∷ s)))
  | inr no_star ↦
      take_one a a (b ∷ s) (b ∷ s) (or-eq_true_right (a == b'?') _ (==_refl a)) no_star
        (component_match_self (b ∷ s))
]

at_end :
    (pl : Platform) (cs : Bool) (path : List Str)
    → any_suffix (match_components pl cs []) path ≡ true
unfolding match_components
at_end pl cs [] = refl
at_end pl cs (c ∷ path) = at_end pl cs path

module _ (pl : Platform) (cs : Bool) where
  match_component_self : (s : Str) → match_component pl cs s s ≡ true
  unfolding match_component
  match_component_self s = elim (Bool-cases (str_eq s (str "*"))) [
    | inl e ↦ rw e
    | inr e ↦ rw e (component_match_self (chars pl s cs))
  ]

  -- `**` at the end takes all components that are left.
  all_taken : (path : List Str) → match_components pl cs (str "**" ∷ []) path ≡ true
  unfolding match_components str str_eq
  all_taken [] = refl
  all_taken (c ∷ path) = at_end pl cs path

  module _ (d : Str) (rest path : List Str) (ih : match_components pl cs rest path ≡ true) where
    prefix_star : str_eq d (str "**") ≡ true → match_components pl cs (d ∷ rest) (d ∷ path) ≡ true
    prefix_star star =
        let f = match_components pl cs rest in
        rw (match_components_star pl cs d rest (d ∷ path) star)
          (any_suffix_tail f d path (any_suffix_head f path ih))

    prefix_name : str_eq d (str "**") ≡ false → match_components pl cs (d ∷ rest) (d ∷ path) ≡ true
    unfolding match_components
    prefix_name no_star = rw (no_star, match_component_self d) ih

  -- The components of a directory, then `**`, match the directory and what stands below it.
  match_components-prefix :
      (dir path : List Str) → match_components pl cs (dir ++ str "**" ∷ []) (dir ++ path) ≡ true
  match_components-prefix [] path = all_taken path
  match_components-prefix (d ∷ dir) path =
      let ih = match_components-prefix dir path in
      elim (Bool-cases (str_eq d (str "**"))) [
        | inl star ↦ prefix_star d (dir ++ str "**" ∷ []) (dir ++ path) ih star
        | inr no_star ↦ prefix_name d (dir ++ str "**" ∷ []) (dir ++ path) ih no_star
      ]

-- Every scope `dir/**` covers the directory itself and every path below it, on every platform and
-- whatever the names hold.
pub subtree_matches :
    (pl : Platform) (cs : Bool) (dir sub : Str)
    → (matches_glob pl (dir ++ str "/**") dir cs ≡ true)
      × (matches_glob pl (dir ++ str "/**") (dir ++ b'/' ∷ sub) cs ≡ true)
unfolding matches_glob split str
subtree_matches pl cs dir sub =
    let pattern = split_by-append (λ c. c == b'/') dir b'/' (b'*' ∷ b'*' ∷ []) refl in
    let below = split_by-append (λ c. c == b'/') dir b'/' sub refl in
    (
      rw pattern (rw append-nil at (match_components-prefix pl cs (split b'/' dir) [])),
      rw (pattern, below) (match_components-prefix pl cs (split b'/' dir) (split b'/' sub)),
    )

-- The pattern `**` matches every path.
pub star_star_matches :
    (pl : Platform) (cs : Bool) (path : Str) → matches_glob pl (str "**") path cs ≡ true
unfolding matches_glob split str
star_star_matches pl cs path = all_taken pl cs (split b'/' path)
