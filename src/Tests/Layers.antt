-- ===== src/Tests/Layers.antt =====
-- Commands, tools, Git and the environment (crates/factory-policy/src/policy.rs and environment.rs).
use agentic_software_factory.Prelude.{
  ◌≡◌, refl, true, false, not, none, some, [], ◌∷◌, str, str_eq, contains, if◌then◌else◌,
  to_ascii_lowercase, split_whitespace, split, split_by, replace_char, eq_ignore_ascii_case,
}
use agentic_software_factory.Policy.Platform.{unix}
use agentic_software_factory.Policy.Model.{ToolPolicy, push, lookup}
use agentic_software_factory.Policy.Model.Names.{is_dangerous}
use agentic_software_factory.Policy.Glob.{matches_glob}
use agentic_software_factory.Policy.Git as Git
use agentic_software_factory.Policy.Git.Safety.{git_narrow}
use agentic_software_factory.Policy.Tools as Tools
use agentic_software_factory.Policy.Tools.Narrowing.{tools_narrow, exact_grant}
use agentic_software_factory.Policy.Commands as Commands
use agentic_software_factory.Policy.Commands.Narrowing.{
  agent_narrows_commands, role_deny_wins, agent_widens,
}
use agentic_software_factory.Policy.Environment as Environment
use agentic_software_factory.Policy.Environment.Forwarding.{
  last_value, lookup-environment, disjoint_allow_lists,
}
use agentic_software_factory.Tests.Samples.{
  commands_scope, run_commands, environment_scope, forward, tools_scope, git_scope,
}

program : Unit {0}
unfolding str str_eq split split_by replace_char split_whitespace to_ascii_lowercase
    eq_ignore_ascii_case matches_glob Tools.allowed Tools.restrict Tools.resolve
    Tools.tool_pattern_matches Commands.allowed Commands.restrict Commands.resolve Commands.common
    Commands.is_dangerous_git_invocation Commands.command_executable
program = tt

git_narrow_example :
    (Git.allows (Git.restrict (Git.resolve (some (git_scope (str "push"))) none) none) push ≡ true
      → is_dangerous push ≡ false)
    × (Git.allows (Git.restrict (Git.resolve (some (git_scope (str "push"))) none) none) push ≡ true
        → Git.allows (Git.resolve (some (git_scope (str "push"))) none) push ≡ true)
    × (Git.allows (Git.resolve (some (git_scope (str "push"))) none) push ≡ true
        → Git.allows (Git.resolve (some (git_scope (str "push"))) none) push ≡ true)
git_narrow_example = git_narrow (some (git_scope (str "push"))) none none push

tools_narrow_example :
    (Tools.allowed unix
          (Tools.restrict (Tools.resolve (some (tools_scope (str "docs.*"))) none) none)
          (str "docs.read")
          false
        ≡ true
      → Tools.allowed unix
          (Tools.resolve (some (tools_scope (str "docs.*"))) none)
          (str "docs.read")
          false
        ≡ true)
    × (Tools.allowed unix
            (Tools.resolve (some (tools_scope (str "docs.*"))) none)
            (str "docs.read")
            false
          ≡ true
        → Tools.allowed unix
            (Tools.resolve (some (tools_scope (str "docs.*"))) none)
            (str "docs.read")
            false
          ≡ true)
tools_narrow_example =
    tools_narrow unix (some (tools_scope (str "docs.*"))) none none (str "docs.read") false

exact :
    Tools.allowed unix
      (Tools.restrict (Tools.resolve (some (tools_scope (str "gh.merge"))) none) none)
      (str "gh.merge")
      true
    ≡ true
unfolding program
exact = refl

exact_grant_example :
    (t : ToolPolicy) × (Tools.tools_of (some (tools_scope (str "gh.merge"))) ≡ some t)
    × (contains t.allow (str "gh.merge") ≡ true)
exact_grant_example =
    exact_grant unix (some (tools_scope (str "gh.merge"))) none none (str "gh.merge") exact

named : Commands.names unix (str "cargo test") (str "cargo" ∷ []) ≡ true
unfolding program
named = refl

safe : Commands.is_dangerous_git_invocation unix (str "cargo test") ≡ false
unfolding program
safe = refl

by_both :
    Commands.allowed unix
      (Commands.resolve
        (some (commands_scope (str "cargo" ∷ []) []))
        (some (commands_scope (str "cargo" ∷ []) [])))
      (str "cargo test")
    ≡ true
unfolding program
by_both = refl

agent_narrows_commands_example :
    Commands.allowed unix
      (Commands.resolve (some (commands_scope (str "cargo" ∷ []) [])) none)
      (str "cargo test")
    ≡ true
agent_narrows_commands_example =
    agent_narrows_commands unix (some (commands_scope (str "cargo" ∷ []) []))
      (some (commands_scope (str "cargo" ∷ []) [])) (str "cargo test") refl by_both

role_deny_wins_example :
    Commands.allowed unix
      (Commands.restrict
        (Commands.resolve
          (some (commands_scope [] (str "cargo" ∷ [])))
          (some (commands_scope (str "cargo" ∷ []) [])))
        none)
      (str "cargo test")
    ≡ false
role_deny_wins_example =
    role_deny_wins unix (commands_scope [] (str "cargo" ∷ []))
      (some (commands_scope (str "cargo" ∷ []) [])) none (run_commands [] (str "cargo" ∷ []))
      (str "cargo test") refl named

agent_widens_example :
    (Commands.allowed unix (Commands.resolve (some (commands_scope [] [])) none) (str "cargo test")
      ≡ false)
    × (Commands.allowed unix
          (Commands.resolve
            (some (commands_scope [] []))
            (some (commands_scope (str "cargo" ∷ []) [])))
          (str "cargo test")
        ≡ true)
agent_widens_example =
    agent_widens unix (commands_scope [] []) (commands_scope (str "cargo" ∷ []) [])
      (run_commands [] []) (run_commands (str "cargo" ∷ []) []) (str "cargo test") refl refl refl
      refl refl safe named

abbrev passed : Environment.EffectiveEnvironment
passed = record { filtered = true; allowed = str "PATH" ∷ []; denied = [] }

lookup-environment_example :
    lookup (str "PATH") (Environment.environment unix passed ((str "PATH", str "/bin") ∷ [])) ≡ (
      if Environment.kept unix (str "PATH" ∷ []) [] (str "PATH")
      then last_value (str "PATH") ((str "PATH", str "/bin") ∷ [])
      else none)
lookup-environment_example =
    lookup-environment unix passed ((str "PATH", str "/bin") ∷ []) (str "PATH")

apart : Commands.common (str "A" ∷ []) (str "B" ∷ []) ≡ []
unfolding program
apart = refl

disjoint_allow_lists_example :
    ((Environment.resolve
        (some (environment_scope (str "A")))
        (some (environment_scope (str "B")))).filtered
      ≡ false)
    × (Environment.kept unix
          (Environment.resolve
            (some (environment_scope (str "A")))
            (some (environment_scope (str "B")))).allowed
          (Environment.resolve
            (some (environment_scope (str "A")))
            (some (environment_scope (str "B")))).denied
          (str "SECRET")
        ≡ not (Environment.names unix (str "TOKEN" ∷ str "TOKEN" ∷ []) (str "SECRET")))
disjoint_allow_lists_example =
    disjoint_allow_lists unix (environment_scope (str "A")) (environment_scope (str "B"))
      (forward (str "A")) (forward (str "B")) (str "SECRET") refl refl refl refl apart
