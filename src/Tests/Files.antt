-- ===== src/Tests/Files.antt =====
-- The filesystem policy and the effective policy (crates/factory-policy/src/policy.rs).
use agentic_software_factory.Prelude.{
  ◌≡◌, refl, ◌↔◌, true, false, not, ◌&&◌, ◌||◌, none, some, [], ◌∷◌, ◌++◌, str, str_eq, is_empty,
  All, is_ok,
}
use agentic_software_factory.Policy.Platform.{unix}
use agentic_software_factory.Policy.Model.{read_only, role, lookup}
use agentic_software_factory.Policy.Filesystem.{
  default_filesystem, resolve, restrict, in_scopes, in_allowed, read_allowed, write_allowed,
  write_violations,
}
use agentic_software_factory.Policy.Filesystem.Narrowing.{restrict_exact}
use agentic_software_factory.Policy.Filesystem.Baseline.{
  factory_state, git_metadata, protected_refused,
}
use agentic_software_factory.Policy.Filesystem.Writes.{IsWritable, write_violations-IsWritable}
use agentic_software_factory.Policy.Effective.{
  effective, effective_restricted, operation_is_mutating, validate_executable,
}
use agentic_software_factory.Policy.Effective.Narrowing.{
  IsNarrower, effective_restricted_narrows, effective_protected,
}
use agentic_software_factory.Policy.Effective.Presets.{of_read_only, read_only_preset}
use agentic_software_factory.Tests.Samples.{docs, docs_scope, config, with_preset_only}

effective_restricted_narrows_example :
    IsNarrower unix
      (effective_restricted config (str "writer") (str "ada") (some docs_scope))
      (effective config (str "writer") (str "ada"))
effective_restricted_narrows_example =
    effective_restricted_narrows unix config (str "writer") (str "ada") (some docs_scope)

effective_protected_example :
    (write_allowed unix
        (effective_restricted config (str "writer") (str "ada") none).filesystem
        (str ".git")
      ≡ false)
    × (write_allowed unix
          (effective_restricted config (str "writer") (str "ada") none).filesystem
          (str ".git" ++ 47 ∷ str "config")
        ≡ false)
effective_protected_example =
    effective_protected unix config (str "writer") (str "ada") none (str "config") git_metadata

auditor : role config (str "auditor") ≡ some (with_preset_only read_only)
unfolding role lookup str str_eq
auditor = refl

implements : operation_is_mutating (str "implement") ≡ true
unfolding operation_is_mutating str str_eq
implements = refl

read_only_preset_example :
    (write_allowed unix
        (effective_restricted config (str "auditor") (str "ada") (some docs_scope)).filesystem
        (str "docs/a.md")
      ≡ false)
    × (is_ok (
          validate_executable
            (effective_restricted config (str "auditor") (str "ada") (some docs_scope))
            (str "implement"))
        ≡ false)
read_only_preset_example =
    read_only_preset unix config (str "auditor") (str "ada") (some docs_scope)
      (with_preset_only read_only) (str "docs/a.md") (str "implement") auditor refl refl
      of_read_only implements

write_violations-IsWritable_example :
    (write_violations unix (resolve (some docs_scope) none) (str "docs/a.md" ∷ str "../x" ∷ [])
      ≡ [])
    ↔ All (IsWritable unix (resolve (some docs_scope) none)) (str "docs/a.md" ∷ str "../x" ∷ [])
write_violations-IsWritable_example =
    write_violations-IsWritable unix (resolve (some docs_scope) none)
      (str "docs/a.md" ∷ str "../x" ∷ [])

restrict_exact_example :
    (write_allowed unix
        (restrict default_filesystem (str "recipe") (some docs_scope))
        (str "docs/a.md")
      ≡ (write_allowed unix default_filesystem (str "docs/a.md")
          && (in_allowed unix (str "docs/a.md") docs.write
              && not (in_scopes unix (str "docs/a.md") docs.deny_write))))
    × (read_allowed unix
          (restrict default_filesystem (str "recipe") (some docs_scope))
          (str "docs/a.md")
        ≡ (read_allowed unix default_filesystem (str "docs/a.md")
            && ((is_empty docs.read || in_allowed unix (str "docs/a.md") docs.read)
                && not (in_scopes unix (str "docs/a.md") docs.deny_write))))
restrict_exact_example =
    restrict_exact unix default_filesystem (str "recipe") docs_scope docs (str "docs/a.md") refl

protected_refused_example :
    (write_allowed unix
        (restrict (resolve (some docs_scope) none) (str "recipe") none)
        (str ".factory")
      ≡ false)
    × (read_allowed unix
          (restrict (resolve (some docs_scope) none) (str "recipe") none)
          (str ".factory")
        ≡ false)
    × (write_allowed unix
          (restrict (resolve (some docs_scope) none) (str "recipe") none)
          (str ".factory" ++ 47 ∷ str "db")
        ≡ false)
    × (read_allowed unix
          (restrict (resolve (some docs_scope) none) (str "recipe") none)
          (str ".factory" ++ 47 ∷ str "db")
        ≡ false)
protected_refused_example =
    protected_refused unix (some docs_scope) none none (str "recipe") (str "db") factory_state
