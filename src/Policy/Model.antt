-- ===== src/Policy/Model.antt =====
-- crates/factory-policy/src/policy.rs: the declared policies and the presets. A `BTreeMap` is its list
-- of entries in the order of the keys.
pub mod Names
use agentic_software_factory.Prelude.{
  ◌≡◌, refl, Bool, true, false, ◌||◌, not, Option, none, some, List, [], ◌∷◌, ◌++◌, String, Result,
  ok, err, ◌>>◌, map_err, try_each, ltb, ◌==◌, if◌then◌else◌, is_empty, any, length, map, Str, str,
  str_eq, is_ascii_alphanumeric, trim,
}
use agentic_software_factory.Policy.Path.{validate_scope}

pub data PolicyPreset : Type 0 where
  read_only implementation documentation review custom : PolicyPreset

pub record FilesystemPolicy : Type 0 where
  pub read : List Str
  pub write : List Str
  pub deny_write : List Str

pub data CommandsMode : Type 0 where
  unrestricted restricted denied : CommandsMode

pub record CommandsPolicy : Type 0 where
  pub mode : CommandsMode
  pub allow : List Str
  pub deny : List Str

pub data NetworkMode : Type 0 where
  allow deny : NetworkMode

pub record NetworkPolicy : Type 0 where
  pub mode : NetworkMode

pub record EnvironmentPolicy : Type 0 where
  pub allow : List Str
  pub deny : List Str

pub data GitOperation : Type 0 where
  read commit_in_task_worktree push force_push delete_branch reset_branch modify_remotes :
      GitOperation

pub record GitPolicy : Type 0 where
  pub allow : List Str

pub record ToolPolicy : Type 0 where
  pub allow : List Str
  pub deny : List Str

pub record PolicyScope : Type 0 where
  pub preset : Option PolicyPreset
  pub filesystem : Option FilesystemPolicy
  pub commands : Option CommandsPolicy
  pub network : Option NetworkPolicy
  pub environment : Option EnvironmentPolicy
  pub git : Option GitPolicy
  pub tools : Option ToolPolicy

pub record PoliciesConfig : Type 0 where
  pub roles : List (Str × PolicyScope)
  pub agents : List (Str × PolicyScope)

-- `BTreeMap::get`
unfoldable pub lookup {ℓ} : {V : Type ℓ} → Str → List (Str × V) → Option V
lookup k [] = none
lookup k ((j, v) ∷ m) = let rest = lookup k m in if str_eq j k then some v else rest

unfoldable pub role : PoliciesConfig → Str → Option PolicyScope
role config id = lookup id config.roles

unfoldable pub agent : PoliciesConfig → Str → Option PolicyScope
agent config name = lookup name config.agents

abbrev pub strings : List String → List Str
strings = map str

unfoldable pub baseline_deny_write : List Str
baseline_deny_write = strings (".factory/**" ∷ ".git/**" ∷ ".git" ∷ [])

pub default_command_allow : List Str
default_command_allow =
    strings ("git" ∷ "cargo" ∷ "npm" ∷ "pnpm" ∷ "yarn" ∷ "node" ∷ "python" ∷ "python3" ∷ [])

pub default_denied_shells : List Str
default_denied_shells = strings ("powershell" ∷ "cmd" ∷ "bash" ∷ "sh" ∷ [])

pub environment_essentials : List Str
environment_essentials = strings (
    "PATH" ∷ "HOME" ∷ "USERPROFILE" ∷ "HOMEDRIVE" ∷ "HOMEPATH" ∷ "USERNAME" ∷ "TEMP" ∷ "TMP"
    ∷ "TMPDIR" ∷ "SYSTEMDRIVE" ∷ "SYSTEMROOT" ∷ "WINDIR" ∷ "PATHEXT" ∷ "ComSpec" ∷ "RUST_BACKTRACE"
    ∷ "RUST_LOG" ∷ [])

abbrev pub essentials_only : EnvironmentPolicy
essentials_only = record { allow = environment_essentials; deny = [] }

abbrev pub network_open : NetworkPolicy
network_open = record { mode = allow }

read_only_defaults : PolicyPreset → PolicyScope
read_only_defaults preset = record {
  preset = some preset;
  filesystem = some (record { read = strings ("**" ∷ []); write = []; deny_write = [] });
  commands =
      some
        (record { mode = restricted; allow = strings ("git" ∷ []); deny = default_denied_shells });
  network = some network_open;
  environment = some essentials_only;
  git = none;
  tools = none;
}

unfoldable pub defaults : PolicyPreset → PolicyScope
unfolding read_only_defaults
defaults read_only = read_only_defaults read_only
defaults implementation = record {
  preset = some implementation;
  filesystem = some (record {
    read = strings ("**" ∷ []);
    write = strings ("**" ∷ []);
    deny_write = baseline_deny_write;
  });
  commands =
      some
        (record { mode = restricted; allow = default_command_allow; deny = default_denied_shells });
  network = some network_open;
  environment = some essentials_only;
  git = none;
  tools = none;
}
defaults documentation = record {
  preset = some documentation;
  filesystem = some (record {
    read = strings ("**" ∷ []);
    write = strings ("README.md" ∷ "docs/**" ∷ []);
    deny_write = baseline_deny_write;
  });
  commands =
      some
        (record { mode = restricted; allow = strings ("git" ∷ []); deny = default_denied_shells });
  network = some network_open;
  environment = some essentials_only;
  git = none;
  tools = none;
}
defaults review = read_only_defaults review
defaults custom = record {
  preset = some custom;
  filesystem = none;
  commands = none;
  network = none;
  environment = none;
  git = none;
  tools = none;
}

-- `a.or(b)`
abbrev or_else {ℓ} : {A : Type ℓ} → Option A → Option A → Option A
or_else (some a) b = some a
or_else none b = b

abbrev with_preset : PolicyScope → Option PolicyPreset → PolicyScope
with_preset scope none = scope
with_preset scope (some preset) =
    let from_preset = defaults preset in
    record {
      preset = scope.preset;
      filesystem = or_else scope.filesystem from_preset.filesystem;
      commands = or_else scope.commands from_preset.commands;
      network = or_else scope.network from_preset.network;
      environment = or_else scope.environment from_preset.environment;
      git = or_else scope.git from_preset.git;
      tools = or_else scope.tools from_preset.tools;
    }

unfoldable pub merged_scope : Option PolicyScope → Option PolicyScope
merged_scope none = none
merged_scope (some scope) = some (with_preset scope scope.preset)

unfoldable pub validate_tool_pattern : Str → Result (Unit {0}) Str
validate_tool_pattern pattern =
    if is_empty pattern || ltb 160 (length pattern)
    then err (str "pattern must contain 1..=160 characters")
    else if any
        (λ c. not (
          is_ascii_alphanumeric c
          || (c == b'.' || c == b'_' || c == b'-' || c == b'*' || c == b'?')))
        pattern
    then err (str "pattern '" ++ pattern ++ str "' contains unsupported characters")
    else ok tt

abbrev validate_filesystem : Str → Option FilesystemPolicy → Result (Unit {0}) Str
validate_filesystem context none = ok tt
validate_filesystem context (some filesystem) =
    try_each
      (λ pattern.
        map_err (λ reason. str "invalid filesystem scope in " ++ context ++ str ": " ++ reason)
          (validate_scope pattern))
      (filesystem.read ++ filesystem.write)
    >> try_each
        (λ pattern.
          map_err (λ reason. str "invalid deny_write scope in " ++ context ++ str ": " ++ reason)
            (validate_scope pattern))
        filesystem.deny_write

abbrev validate_tools : Str → Option ToolPolicy → Result (Unit {0}) Str
validate_tools context none = ok tt
validate_tools context (some tools) =
    try_each
      (λ pattern.
        map_err (λ reason. str "invalid external-tool pattern in " ++ context ++ str ": " ++ reason)
          (validate_tool_pattern pattern))
      (tools.allow ++ tools.deny)

-- `PolicyScope::validate`
unfoldable pub validate_policy_scope : PolicyScope → Str → Result (Unit {0}) Str
validate_policy_scope scope context =
    validate_filesystem context scope.filesystem >> validate_tools context scope.tools

abbrev validate_entry : Str → Str × PolicyScope → Result (Unit {0}) Str
validate_entry table (name, scope) =
    map_err (λ reason. reason ++ str " (" ++ table ++ name ++ str ")")
      (validate_policy_scope scope (table ++ name))

-- `PoliciesConfig::validate`
unfoldable pub validate_config : PoliciesConfig → Result (Unit {0}) Str
unfolding validate_policy_scope
validate_config config =
    try_each (validate_entry (str "policies.roles.")) config.roles
    >> try_each (validate_entry (str "policies.agents.")) config.agents
