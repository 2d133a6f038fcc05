-- ===== src/Policy/Path/Normal.antt =====
-- What `normalize_repo_relative` returns: the join of proper components.
use agentic_software_factory.Prelude.{
  ◌≡◌, refl, false, ◌||◌, none, some, eq_of_some, subst, List, [], ◌∷◌, inl, inr, arith, ◌==◌, ◌++◌,
  if◌then◌else◌, is_empty, any, All, Str, str, str_eq, replace_char, split, join, starts_with, true,
  Bool-cases, Option-cases, is_control, split_by-All, split_by-free, sym, split-join, any-join,
  any-replace_char, replace_char-eq_self, ℕ, is_ascii_alphabetic,
}
use agentic_software_factory.Policy.Path.{
  contains_control, is_drive_prefixed, components, normalize_repo_relative,
}

-- A component that a repository-relative path may have.
pub record IsComponent (c : Str) : Type 0 where
  pub not_empty : str_eq c [] ≡ false
  pub not_dot : str_eq c (str ".") ≡ false
  pub not_dots : str_eq c (str "..") ≡ false
  pub no_slash : any (λ a. a == b'/') c ≡ false
  pub no_backslash : any (λ a. a == b'\\') c ≡ false
  pub no_control : contains_control c ≡ false

-- The pieces that the loop is given.
record IsPiece (c : Str) : Type 0 where
  no_slash : any (λ a. a == b'/') c ≡ false
  no_backslash : any (λ a. a == b'\\') c ≡ false
  no_control : contains_control c ≡ false

zip_pieces :
    (ws : List Str)
    → All (λ w. any (λ a. a == b'/') w ≡ false) ws
    → All (λ w. any (λ a. a == b'\\') w ≡ false) ws
    → All (λ w. contains_control w ≡ false) ws
    → All IsPiece ws
zip_pieces [] a b c = tt
zip_pieces (w ∷ ws) a b c =
    (record { no_slash = a.0; no_backslash = b.0; no_control = c.0 }, zip_pieces ws a.1 b.1 c.1)

pieces :
    (s : Str)
    → contains_control s ≡ false
    → any (λ a. a == b'\\') s ≡ false
    → All IsPiece (split b'/' s)
unfolding split contains_control
pieces s h k =
    zip_pieces (split b'/' s) (split_by-free (λ a. a == b'/') s)
      (split_by-All (λ a. a == b'/') (λ a. a == b'\\') s k) (split_by-All (λ a. a == b'/') _ s h)

kept-IsComponent :
    (w : Str) (ds cs : List Str)
    → IsPiece w
    → All IsComponent ds
    → (if str_eq w (str ".") || str_eq w []
        then some ds
        else if str_eq w (str "..")
        then none
        else some (w ∷ ds))
      ≡ some cs
    → All IsComponent cs
kept-IsComponent w ds cs piece rest e = elim (Bool-cases (str_eq w (str ".") || str_eq w [])) [
  | inl skip ↦ subst (All IsComponent) (eq_of_some (rw skip at e)) rest
  | inr keep ↦ elim (Bool-cases (str_eq w (str ".."))) [
    | inl up ↦ ground arith
    | inr no_up ↦
        let front : IsComponent w = record {
          not_empty = ground arith;
          not_dot = ground arith;
          not_dots = no_up;
          no_slash = piece.no_slash;
          no_backslash = piece.no_backslash;
          no_control = piece.no_control;
        } in
        subst (All IsComponent) (eq_of_some (rw (keep, no_up) at e)) (front, rest)
  ]
]

components-IsComponent :
    (ws cs : List Str) → All IsPiece ws → components ws ≡ some cs → All IsComponent cs
unfolding components
components-IsComponent [] cs hs e = subst (All IsComponent) (eq_of_some e) tt
components-IsComponent (w ∷ ws) cs hs e = elim (Option-cases (components ws)) [
  | inl gone ↦ ground arith
  | inr (ds, found) ↦
      kept-IsComponent w ds cs hs.0 (components-IsComponent ws ds hs.1 found) (rw found at e)
]

-- Proper components all stay.
components-eq_self : (cs : List Str) → All IsComponent cs → components cs ≡ some cs
unfolding components
components-eq_self [] hs = refl
components-eq_self (c ∷ cs) hs = ground (arith, components-eq_self cs hs.1)

-- The normalized path has the parts that every scope check relies on.
pub record IsRepoRelative (q : Str) : Type 0 where
  pub parts : List Str
  pub some_part : is_empty parts ≡ false
  pub proper : All IsComponent parts
  pub joined : q ≡ join (str "/") parts

no_backslash-clean : (path : Str) → any (λ c. c == b'\\') (replace_char b'\\' b'/' path) ≡ false
no_backslash-clean path = any-replace_char b'\\' b'/' path refl

-- Whatever `normalize_repo_relative` returns is a join of one or more components, none of which is
-- empty, `.` or `..`, or holds a slash, a backslash or a control character.
pub normalize-IsRepoRelative :
    (path q : Str) → normalize_repo_relative path ≡ some q → IsRepoRelative q
unfolding normalize_repo_relative
normalize-IsRepoRelative path q h =
    let clean = replace_char b'\\' b'/' path in
    elim (Bool-cases (contains_control clean)) [
      | inl c ↦ ground arith
      | inr c ↦ elim (Option-cases (components (split b'/' clean))) [
        | inl gone ↦ ground arith
        | inr (cs, found) ↦
            let proper =
              components-IsComponent _ cs (pieces clean c (no_backslash-clean path)) found in
            record { parts = cs; some_part = ground arith; proper = proper; joined = ground arith }
      ]
    ]

All-no_slash : (cs : List Str) → All IsComponent cs → All (λ w. any (λ a. a == b'/') w ≡ false) cs
All-no_slash [] h = tt
All-no_slash (c ∷ cs) h = (h.0.no_slash, All-no_slash cs h.1)

All-no_backslash :
    (cs : List Str) → All IsComponent cs → All (λ w. any (λ a. a == b'\\') w ≡ false) cs
All-no_backslash [] h = tt
All-no_backslash (c ∷ cs) h = (h.0.no_backslash, All-no_backslash cs h.1)

All-no_control : (cs : List Str) → All IsComponent cs → All (λ w. contains_control w ≡ false) cs
All-no_control [] h = tt
All-no_control (c ∷ cs) h = (h.0.no_control, All-no_control cs h.1)

starts_with-join :
    (c : Str) (cs : List Str)
    → IsComponent c
    → starts_with (str "/") (join (str "/") (c ∷ cs)) ≡ false
unfolding starts_with join str str_eq
starts_with-join [] cs h = absurd (cc (h.not_empty))
starts_with-join (a ∷ w) [] h = ground (arith, h.no_slash)
starts_with-join (a ∷ w) (d ∷ cs) h = ground (arith, h.no_slash)

module _ (c : Str) (cs : List Str) (h : All IsComponent (c ∷ cs)) where
  abbrev joined : Str
  joined = join (str "/") (c ∷ cs)

  joined_no_backslash : any (λ a. a == b'\\') joined ≡ false
  unfolding str
  joined_no_backslash = any-join _ (str "/") (c ∷ cs) refl (All-no_backslash (c ∷ cs) h)

  joined_no_control : contains_control joined ≡ false
  unfolding contains_control str is_control
  joined_no_control = any-join _ (str "/") (c ∷ cs) refl (All-no_control (c ∷ cs) h)

  joined_components : components (split b'/' joined) ≡ some (c ∷ cs)
  unfolding str
  joined_components =
      rw (split-join b'/' c cs (All-no_slash (c ∷ cs) h)) (components-eq_self (c ∷ cs) h)

  -- A join of proper components that does not begin like a drive is its own normal form.
  normalize-join : is_drive_prefixed joined ≡ false → normalize_repo_relative joined ≡ some joined
  unfolding normalize_repo_relative
  normalize-join d =
      rw (replace_char-eq_self b'\\' b'/' joined joined_no_backslash)
        (ground (arith, joined_no_control, starts_with-join c cs h.0, d, joined_components))

  dot_no_drive : is_drive_prefixed (str "./" ++ joined) ≡ false
  unfolding is_drive_prefixed str is_ascii_alphabetic
  dot_no_drive = go joined
    where
      go : (s : Str) → is_drive_prefixed (b'.' ∷ b'/' ∷ s) ≡ false
      go [] = refl
      go (b ∷ s) = refl

  dot_no_control : contains_control (str "./" ++ joined) ≡ false
  unfolding contains_control str is_control
  dot_no_control = joined_no_control

  dot_no_slash : starts_with (str "/") (str "./" ++ joined) ≡ false
  unfolding str starts_with
  dot_no_slash = refl

  dot_components : components (split b'/' (str "./" ++ joined)) ≡ some (c ∷ cs)
  unfolding str split components str_eq
  dot_components = joined_components

  -- A leading `./` is dropped.
  normalize-dot : normalize_repo_relative (str "./" ++ joined) ≡ some joined
  unfolding normalize_repo_relative
  normalize-dot =
      rw (replace_char-eq_self b'\\' b'/' (str "./" ++ joined) (unfold str in joined_no_backslash))
        (ground (arith, dot_no_control, dot_no_drive, dot_components, dot_no_slash))

normalize-parts :
    (cs : List Str)
    → is_empty cs ≡ false
    → All IsComponent cs
    → is_drive_prefixed (join (str "/") cs) ≡ false
    → normalize_repo_relative (join (str "/") cs) ≡ some (join (str "/") cs)
normalize-parts [] e h d = cc
normalize-parts (c ∷ cs) e h d = normalize-join c cs h d

-- Normalizing is idempotent, at every result that does not begin like a drive.
pub normalize-normalize :
    (path q : Str)
    → normalize_repo_relative path ≡ some q
    → is_drive_prefixed q ≡ false
    → normalize_repo_relative q ≡ some q
normalize-normalize path q h d =
    let r = normalize-IsRepoRelative path q h in
    subst (λ t. is_drive_prefixed t ≡ false → normalize_repo_relative t ≡ some t) (sym r.joined)
      (normalize-parts r.parts r.some_part r.proper) d

drive-IsComponent : (a : ℕ) → is_ascii_alphabetic a ≡ true → IsComponent (a ∷ b':' ∷ [])
unfolding str_eq str contains_control is_control is_ascii_alphabetic
drive-IsComponent a l = ground arith

-- Below `./` a drive is not refused: for every drive letter and every proper component, the result
-- begins like a drive.
normalize-drive :
    (a : ℕ) (name : Str)
    → is_ascii_alphabetic a ≡ true
    → IsComponent name
    → (normalize_repo_relative (str "./" ++ (a ∷ b':' ∷ b'/' ∷ name))
        ≡ some (a ∷ b':' ∷ b'/' ∷ name))
      × (is_drive_prefixed (a ∷ b':' ∷ b'/' ∷ name) ≡ true)
unfolding str join is_drive_prefixed
normalize-drive a name l h =
    (normalize-dot (a ∷ b':' ∷ []) (name ∷ []) (drive-IsComponent a l, (h, tt)), ground arith)
