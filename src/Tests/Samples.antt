-- ===== src/Tests/Samples.antt =====
-- Small policies: a documentation role, an agent and a recipe. (crates/factory-policy/src/policy.rs)
use agentic_software_factory.Prelude.{none, some, List, [], ◌∷◌, Str, str}
use agentic_software_factory.Policy.Model.{
  FilesystemPolicy, CommandsPolicy, EnvironmentPolicy, PolicyScope, PoliciesConfig, PolicyPreset,
  read_only, restricted,
}

abbrev pub with_preset_only : PolicyPreset → PolicyScope
with_preset_only preset = record {
  preset = some preset;
  filesystem = none;
  commands = none;
  network = none;
  environment = none;
  git = none;
  tools = none;
}

abbrev pub docs : FilesystemPolicy
docs = record { read = []; write = str "docs/**" ∷ []; deny_write = str "docs/private/**" ∷ [] }

abbrev pub docs_scope : PolicyScope
docs_scope = record {
  preset = none;
  filesystem = some docs;
  commands = none;
  network = none;
  environment = none;
  git = none;
  tools = none;
}

abbrev pub run_commands : List Str → List Str → CommandsPolicy
run_commands allow deny = record { mode = restricted; allow = allow; deny = deny }

abbrev pub commands_scope : List Str → List Str → PolicyScope
commands_scope allow deny = record {
  preset = none;
  filesystem = none;
  commands = some (run_commands allow deny);
  network = none;
  environment = none;
  git = none;
  tools = none;
}

abbrev pub forward : Str → EnvironmentPolicy
forward key = record { allow = key ∷ []; deny = str "TOKEN" ∷ [] }

abbrev pub environment_scope : Str → PolicyScope
environment_scope key = record {
  preset = none;
  filesystem = none;
  commands = none;
  network = none;
  environment = some (forward key);
  git = none;
  tools = none;
}

abbrev pub tools_scope : Str → PolicyScope
tools_scope name = record {
  preset = none;
  filesystem = none;
  commands = none;
  network = none;
  environment = none;
  git = none;
  tools = some (record { allow = name ∷ []; deny = [] });
}

abbrev pub git_scope : Str → PolicyScope
git_scope op = record {
  preset = none;
  filesystem = none;
  commands = none;
  network = none;
  environment = none;
  git = some (record { allow = op ∷ [] });
  tools = none;
}

-- The roles `writer` and `auditor`, and the agent `ada`.
abbrev pub config : PoliciesConfig
config = record {
  roles = (str "writer", docs_scope) ∷ (str "auditor", with_preset_only read_only) ∷ [];
  agents = (str "ada", git_scope (str "push")) ∷ [];
}
