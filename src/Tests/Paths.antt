-- ===== src/Tests/Paths.antt =====
-- Paths and patterns (crates/factory-policy/src/path.rs).
use agentic_software_factory.Prelude.{
  ◌≡◌, refl, ◌↔◌, true, false, some, str, str_eq, split, split_by, join, replace_char, starts_with,
  strip_prefix, contains_str, is_control, is_ascii_alphabetic, trim, trim_start, is_whitespace,
}
use agentic_software_factory.Policy.Platform.{unix}
use agentic_software_factory.Policy.Path.{
  contains_control, is_drive_prefixed, components, normalize_repo_relative, trim_start_dot_slash,
  validate_scope,
}
use agentic_software_factory.Policy.Path.Normal.{
  IsRepoRelative, normalize-IsRepoRelative, normalize-normalize,
}
use agentic_software_factory.Policy.Glob.{matches_glob, component_match}
use agentic_software_factory.Policy.Glob.Relation.{Matches}
use agentic_software_factory.Policy.Glob.Decides.{matches_glob-Matches}

program : Unit {0}
unfolding str str_eq split split_by join replace_char starts_with strip_prefix is_control
    is_ascii_alphabetic trim trim_start is_whitespace contains_str contains_control
    is_drive_prefixed components normalize_repo_relative trim_start_dot_slash validate_scope
    component_match
program = tt

normal : normalize_repo_relative (str "./src//lib.rs") ≡ some (str "src/lib.rs")
unfolding program
normal = refl

no_drive : is_drive_prefixed (str "src/lib.rs") ≡ false
unfolding program
no_drive = refl

normalize-IsRepoRelative_example : IsRepoRelative (str "src/lib.rs")
normalize-IsRepoRelative_example =
    normalize-IsRepoRelative (str "./src//lib.rs") (str "src/lib.rs") normal

normalize-normalize_example : normalize_repo_relative (str "src/lib.rs") ≡ some (str "src/lib.rs")
normalize-normalize_example =
    normalize-normalize (str "./src//lib.rs") (str "src/lib.rs") normal no_drive

matches_glob-Matches_example :
    (matches_glob unix (str "src/**/*.rs") (str "src/a/lib.rs") true ≡ true)
    ↔ Matches unix true (split 47 (str "src/**/*.rs")) (split 47 (str "src/a/lib.rs"))
matches_glob-Matches_example =
    matches_glob-Matches unix true (str "src/**/*.rs") (str "src/a/lib.rs")

wild : component_match (str "a*.rs") (str "abc.rs") ≡ true
unfolding program
wild = refl
