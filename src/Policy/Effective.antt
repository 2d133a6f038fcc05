-- ===== src/Policy/Effective.antt =====
-- crates/factory-policy/src/policy.rs: the resolver, the gate before a start and the view.
pub mod Narrowing
pub mod Presets
use agentic_software_factory.Prelude.{
  ◌≡◌, Bool, true, false, ◌&&◌, ◌||◌, not, Option, none, some, is_some, List, [], ◌∷◌, ◌++◌, map,
  Result, ok, err, if◌then◌else◌, is_empty, Str, str, str_eq, join,
}
use agentic_software_factory.Policy.Model.{
  CommandsMode, unrestricted, restricted, denied, NetworkMode, allow, deny, GitOperation, push,
  force_push, delete_branch, reset_branch, modify_remotes, PolicyScope, PoliciesConfig,
  merged_scope, role, agent,
}
use agentic_software_factory.Policy.Model.Names.{git_as_str}
use agentic_software_factory.Policy.Filesystem.{
  EffectiveFilesystem, read_only, mode_name, effective_write_scopes,
}
use agentic_software_factory.Policy.Filesystem
use agentic_software_factory.Policy.Commands.{EffectiveCommands}
use agentic_software_factory.Policy.Commands
use agentic_software_factory.Policy.Network.{EffectiveNetwork}
use agentic_software_factory.Policy.Network
use agentic_software_factory.Policy.Environment.{EffectiveEnvironment}
use agentic_software_factory.Policy.Environment
use agentic_software_factory.Policy.Git.{EffectiveGit}
use agentic_software_factory.Policy.Git
use agentic_software_factory.Policy.Tools.{EffectiveTools, allow_patterns}
use agentic_software_factory.Policy.Tools

pub record EffectivePolicy : Type 0 where
  pub source : Str
  pub permissive : Bool
  pub filesystem : EffectiveFilesystem
  pub commands : EffectiveCommands
  pub network : EffectiveNetwork
  pub environment : EffectiveEnvironment
  pub git : EffectiveGit
  pub tools : EffectiveTools

abbrev source_of : Str → Str → Bool → Bool → Str
source_of role_id agent_name true true = str "role:" ++ role_id ++ str " + agent:" ++ agent_name
source_of role_id agent_name true false = str "role:" ++ role_id
source_of role_id agent_name false true = str "agent:" ++ agent_name
source_of role_id agent_name false false = str "default"

-- `PoliciesConfig::effective_inner`
pub effective_inner : PoliciesConfig → Str → Str → Option PolicyScope → EffectivePolicy
effective_inner config role_id agent_name declared =
    let has_role = is_some (role config role_id) in
    let has_agent = is_some (agent config agent_name) in
    let source = source_of role_id agent_name has_role has_agent in
    let by_role = merged_scope (role config role_id) in
    let by_agent = merged_scope (agent config agent_name) in
    let restriction = merged_scope declared in
    record {
      source = if is_some declared then source ++ str " + recipe" else source;
      permissive = not (is_some declared) && not has_role && not has_agent;
      filesystem =
          Filesystem.restrict (Filesystem.resolve by_role by_agent) (str "recipe") restriction;
      commands = Commands.restrict (Commands.resolve by_role by_agent) restriction;
      network = Network.restrict (Network.resolve by_role by_agent) restriction;
      environment = Environment.restrict (Environment.resolve by_role by_agent) restriction;
      git = Git.restrict (Git.resolve by_role by_agent) restriction;
      tools = Tools.restrict (Tools.resolve by_role by_agent) restriction;
    }

-- `PoliciesConfig::effective`
unfoldable pub effective : PoliciesConfig → Str → Str → EffectivePolicy
unfolding effective_inner
effective config role_id agent_name = effective_inner config role_id agent_name none

-- `PoliciesConfig::effective_for_role`
unfoldable pub effective_for_role : PoliciesConfig → Str → EffectivePolicy
unfolding effective
effective_for_role config role_id = effective config role_id []

-- `PoliciesConfig::effective_for_agent`
unfoldable pub effective_for_agent : PoliciesConfig → Str → EffectivePolicy
unfolding effective
effective_for_agent config agent_name = effective config [] agent_name

-- `PoliciesConfig::effective_restricted`
unfoldable pub effective_restricted :
    PoliciesConfig → Str → Str → Option PolicyScope → EffectivePolicy
unfolding effective_inner
effective_restricted config role_id agent_name restriction =
    effective_inner config role_id agent_name restriction

-- `PoliciesConfig::effective_for_role_restricted`
unfoldable pub effective_for_role_restricted :
    PoliciesConfig → Str → Option PolicyScope → EffectivePolicy
unfolding effective_inner
effective_for_role_restricted config role_id restriction =
    effective_inner config role_id [] restriction

unfoldable pub operation_is_mutating : Str → Bool
operation_is_mutating operation =
    str_eq operation (str "implement")
    || str_eq operation (str "verify")
    || str_eq operation (str "post_process")

describe_scopes : List Str → Str
describe_scopes scopes = if is_empty scopes then str "none" else join (str ", ") scopes

unfoldable pub validate_executable : EffectivePolicy → Str → Result (Unit {0}) Str
unfolding describe_scopes
validate_executable policy operation =
    if operation_is_mutating operation && read_only policy.filesystem
    then err (
        str "cannot perform operation '"
        ++ operation
        ++ str "' with no writable filesystem scope (allowed writes: "
        ++ describe_scopes (effective_write_scopes policy.filesystem)
        ++ str ")")
    else ok tt

pub record PolicyView : Type 0 where
  pub source : Str
  pub permissive : Bool
  pub filesystem_mode : Str
  pub read_scopes : List Str
  pub write_scopes : List Str
  pub deny_write_scopes : List Str
  pub commands_mode : Str
  pub commands_allow : List Str
  pub commands_deny : List Str
  pub network : Str
  pub network_enforcement : Str
  pub environment_mode : Str
  pub environment_allowed : List Str
  pub environment_denied : List Str
  pub git_allowed : List Str
  pub git_denied : List Str
  pub tools_allow : List Str
  pub tools_deny : List Str

abbrev commands_mode_name : CommandsMode → Str
commands_mode_name unrestricted = str "unrestricted"
commands_mode_name restricted = str "restricted"
commands_mode_name denied = str "denied"

abbrev network_name : NetworkMode → Str
network_name allow = str "allow"
network_name deny = str "deny"

pub all_dangerous_git_operations : List Str
all_dangerous_git_operations =
    map git_as_str (push ∷ force_push ∷ delete_branch ∷ reset_branch ∷ modify_remotes ∷ [])

-- `EffectivePolicy::view`
pub view : EffectivePolicy → PolicyView
view p = record {
  source = p.source;
  permissive = p.permissive;
  filesystem_mode = mode_name p.filesystem;
  read_scopes = p.filesystem.read_scopes;
  write_scopes = effective_write_scopes p.filesystem;
  deny_write_scopes = p.filesystem.deny_scopes;
  commands_mode = commands_mode_name p.commands.mode;
  commands_allow = p.commands.allow;
  commands_deny = p.commands.deny;
  network = network_name p.network.mode;
  network_enforcement = str "advisory";
  environment_mode = Environment.mode p.environment;
  environment_allowed = p.environment.allowed;
  environment_denied = p.environment.denied;
  git_allowed = map git_as_str p.git.allowed;
  git_denied = all_dangerous_git_operations;
  tools_allow = allow_patterns p.tools;
  tools_deny = p.tools.deny;
}
