-- ===== src/Policy/Commands.antt =====
-- crates/factory-policy/src/policy.rs: the command rules after role, agent and recipe composition.
pub mod Narrowing
use agentic_software_factory.Prelude.{
  ◌≡◌, Bool, true, false, ◌&&◌, ◌||◌, not, Option, none, some, and_then, unwrap_or, List, [], ◌∷◌,
  ◌++◌, if◌then◌else◌, ◌==◌, is_empty, any, filter, Str, str, str_eq, eq_ignore_ascii_case,
  split_by, split_whitespace, trim,
}
use agentic_software_factory.Policy.Platform.{Platform}
use agentic_software_factory.Policy.Model.{
  CommandsMode, unrestricted, restricted, denied, CommandsPolicy, PolicyScope,
}

pub record EffectiveCommands : Type 0 where
  pub mode : CommandsMode
  pub allow : List Str
  pub deny : List Str

-- The derived order of the modes: `unrestricted < restricted < denied`.
abbrev pub max_mode : CommandsMode → CommandsMode → CommandsMode
max_mode unrestricted m = m
max_mode restricted denied = denied
max_mode restricted _ = restricted
max_mode denied _ = denied

abbrev pub is_restricted : CommandsMode → Bool
is_restricted restricted = true
is_restricted _ = false

abbrev pub is_unrestricted : CommandsMode → Bool
is_unrestricted unrestricted = true
is_unrestricted _ = false

-- `EffectiveCommands::default`
abbrev pub default_commands : EffectiveCommands
default_commands = record { mode = unrestricted; allow = []; deny = [] }

abbrev commands_of : Option PolicyScope → Option CommandsPolicy
commands_of scope = and_then scope (λ s. s.commands)

-- The entries of the first list that the second one names too.
unfoldable pub common : List Str → List Str → List Str
common allow declared =
    filter (λ candidate. any (λ other. eq_ignore_ascii_case candidate other) declared) allow

abbrev narrow_allow : List Str → CommandsPolicy → List Str
narrow_allow allow commands =
    if is_restricted commands.mode && not (is_empty commands.allow)
    then (if is_empty allow then commands.allow else common allow commands.allow)
    else allow

-- One round of the loop over the scopes.
abbrev with_scope : EffectiveCommands → Option CommandsPolicy → EffectiveCommands
with_scope c none = c
with_scope c (some commands) = record {
  mode = max_mode c.mode commands.mode;
  allow = narrow_allow c.allow commands;
  deny = c.deny ++ commands.deny;
}

-- Restricted with nothing allowed is denied.
abbrev closed : EffectiveCommands → EffectiveCommands
closed c = record c { mode = if is_restricted c.mode && is_empty c.allow then denied else c.mode }

-- `EffectiveCommands::resolve`
unfoldable pub resolve : Option PolicyScope → Option PolicyScope → EffectiveCommands
resolve role agent =
    closed (with_scope (with_scope default_commands (commands_of role)) (commands_of agent))

abbrev restrict_by : EffectiveCommands → Option CommandsPolicy → EffectiveCommands
restrict_by c none = c
restrict_by c (some commands) = closed (with_scope c (some commands))

-- `EffectiveCommands::restrict`
unfoldable pub restrict : EffectiveCommands → Option PolicyScope → EffectiveCommands
restrict c restriction = restrict_by c (commands_of restriction)

abbrev head_or : List Str → Str → Str
head_or [] d = d
head_or (w ∷ ws) d = w

abbrev last_or : List Str → Str → Str
last_or [] d = d
last_or (w ∷ ws) d = last_or ws w

abbrev is_branch_deletion : List Str → Bool
is_branch_deletion [] = false
is_branch_deletion (flag ∷ _) =
    str_eq flag (str "-d") || str_eq flag (str "-D") || str_eq flag (str "--delete")

module _ (pl : Platform) where
  -- `rsplit` gives the last piece first.
  unfoldable pub command_executable : Str → Str
  command_executable command =
      let first = pl.to_lowercase (head_or (split_whitespace command) (trim command)) in
      last_or (split_by (λ c. c == b'/' || c == b'\\') first) first

  abbrev dangerous_subcommand : List Str → Bool
  dangerous_subcommand [] = false
  dangerous_subcommand (part ∷ parts) =
      let subcommand = pl.to_lowercase part in
      if str_eq subcommand (str "push")
        || str_eq subcommand (str "reset")
        || str_eq subcommand (str "remote")
      then true
      else if str_eq subcommand (str "branch")
      then is_branch_deletion parts
      else false

  abbrev dangerous_parts : List Str → Bool
  dangerous_parts [] = false
  dangerous_parts (first ∷ parts) =
      if not (str_eq (command_executable first) (str "git"))
      then false
      else dangerous_subcommand parts

  unfoldable pub is_dangerous_git_invocation : Str → Bool
  is_dangerous_git_invocation command = dangerous_parts (split_whitespace command)

  abbrev pub names : Str → List Str → Bool
  names command patterns =
      any (λ pattern. str_eq (command_executable command) (command_executable pattern)) patterns

  abbrev allowed_by : CommandsMode → List Str → Str → Bool
  allowed_by unrestricted allow command = true
  allowed_by restricted allow command =
      if is_dangerous_git_invocation command then false else names command allow
  allowed_by denied allow command = false

  -- `EffectiveCommands::allowed`
  unfoldable pub allowed : EffectiveCommands → Str → Bool
  allowed c command = if names command c.deny then false else allowed_by c.mode c.allow command

  unfoldable pub violations : EffectiveCommands → List Str → List Str
  violations c commands =
      if is_unrestricted c.mode then [] else filter (λ command. not (allowed c command)) commands
