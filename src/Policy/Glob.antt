-- ===== src/Policy/Glob.antt =====
-- crates/factory-policy/src/path.rs: the glob matcher.
pub mod Relation
pub mod Decides
pub mod Subtree
use agentic_software_factory.Prelude.{
  ℕ, Bool, true, false, ◌&&◌, ◌||◌, List, [], ◌∷◌, ◌==◌, if◌then◌else◌, Str, str, str_eq, split,
}
use agentic_software_factory.Policy.Platform.{Platform}

-- `chars`: the characters that are compared.
pub chars : Platform → Str → Bool → Str
chars p value case_sensitive = if case_sensitive then value else p.to_lowercase value

-- The arms of the match in their order: a lone `*`, a leading `*`, `?` or an equal character.
unfoldable pub component_match : Str → Str → Bool
component_match [] [] = true
component_match [] (t ∷ text_rest) = false
component_match (p ∷ []) [] = p == b'*'
component_match (p ∷ q ∷ pat_rest) [] = false
component_match (p ∷ []) (t ∷ text_rest) =
    let rest = component_match [] text_rest in
    if p == b'*' then true else if p == b'?' || p == t then rest else false
component_match (p ∷ q ∷ pat_rest) (t ∷ text_rest) =
    let longer = component_match (p ∷ q ∷ pat_rest) text_rest in
    let none_taken = component_match (q ∷ pat_rest) (t ∷ text_rest) in
    let rest = component_match (q ∷ pat_rest) text_rest in
    if p == b'*' then longer || none_taken else if p == b'?' || p == t then rest else false

pub match_component : Platform → Bool → Str → Str → Bool
unfolding component_match chars
match_component p case_sensitive pattern text =
    if str_eq pattern (str "*")
    then true
    else component_match (chars p pattern case_sensitive) (chars p text case_sensitive)

-- The loop of `**`: the rest of the pattern at some suffix of the path.
pub any_suffix : (List Str → Bool) → List Str → Bool
any_suffix f [] = f []
any_suffix f (x ∷ xs) = f (x ∷ xs) || any_suffix f xs

pub match_components : Platform → Bool → List Str → List Str → Bool
unfolding any_suffix match_component
match_components p case_sensitive [] [] = true
match_components p case_sensitive [] (t ∷ path_rest) = false
match_components p case_sensitive (head ∷ pat_rest) [] =
    let rest = match_components p case_sensitive pat_rest in
    if str_eq head (str "**") then any_suffix rest [] else false
match_components p case_sensitive (head ∷ pat_rest) (t ∷ path_rest) =
    let rest = match_components p case_sensitive pat_rest in
    if str_eq head (str "**")
    then any_suffix rest (t ∷ path_rest)
    else match_component p case_sensitive head t && rest path_rest

unfoldable pub matches_glob : Platform → Str → Str → Bool → Bool
unfolding match_components
matches_glob p pattern path_dir case_sensitive =
    match_components p case_sensitive (split b'/' pattern) (split b'/' path_dir)
