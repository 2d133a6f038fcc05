-- ===== src/Policy/Path.antt =====
-- crates/factory-policy/src/path.rs: evidence paths and scope patterns.
pub mod Normal
use agentic_software_factory.Prelude.{
  Bool, true, false, ◌&&◌, ◌||◌, Option, none, some, List, [], ◌∷◌, ◌++◌, String, Result, ok, err,
  ◌==◌, if◌then◌else◌, is_empty, any, Str, str, str_eq, is_control, is_ascii_alphabetic,
  replace_char, split, join, trim, starts_with, contains_str,
}

-- `is_control` holds of the three characters that the code names besides.
unfoldable pub contains_control : Str → Bool
contains_control path = any (λ c. is_control c || (c == b'\n' || c == b'\r' || c == 0)) path

abbrev drive : Str → Bool
drive (a ∷ b ∷ c ∷ rest) = is_ascii_alphabetic a && (b == b':' && c == b'/')
drive _ = false

unfoldable pub is_drive_prefixed : Str → Bool
is_drive_prefixed path = drive path

-- The loop over the components: those that are kept, or `none` at a `..`.
unfoldable pub components : List Str → Option (List Str)
components [] = some []
components (component ∷ rest) =
    let kept = components rest in
    if str_eq component (str ".") || str_eq component []
    then kept
    else if str_eq component (str "..")
    then none
    else elim kept [ none ↦ none | some cs ↦ some (component ∷ cs) ]

abbrev join_components : Option (List Str) → Option Str
join_components none = none
join_components (some cs) = if is_empty cs then none else some (join (str "/") cs)

unfoldable pub normalize_repo_relative : Str → Option Str
unfolding contains_control is_drive_prefixed components
normalize_repo_relative path =
    let clean = replace_char b'\\' b'/' path in
    if contains_control clean
    then none
    else if starts_with (str "/") clean || is_drive_prefixed clean
    then none
    else join_components (components (split b'/' clean))

-- `pattern.trim_start_matches("./")`
unfoldable pub trim_start_dot_slash : Str → Str
trim_start_dot_slash [] = []
trim_start_dot_slash (a ∷ []) = a ∷ []
trim_start_dot_slash (a ∷ b ∷ rest) =
    let trimmed = trim_start_dot_slash rest in
    if a == b'.' && b == b'/' then trimmed else a ∷ b ∷ rest

unfoldable pub validate_scope : Str → Result (Unit {0}) Str
unfolding trim_start_dot_slash
validate_scope pattern =
    if is_empty (trim pattern)
    then err (str "scope pattern must not be empty")
    else elim (normalize_repo_relative (trim_start_dot_slash pattern)) [
      | none ↦ err (str "scope pattern '" ++ pattern ++ str "' must be repository-relative")
      | some _ ↦
          if contains_str (str "..") pattern
          then err (str "scope pattern '" ++ pattern ++ str "' must not traverse directories")
          else ok tt
    ]
