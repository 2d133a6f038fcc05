-- ===== src/Policy/Effective/Narrowing.antt =====
-- The restriction that a recipe adds takes access away in every dimension.
use agentic_software_factory.Prelude.{◌≡◌, Bool, true, false, Option, ◌∷◌, ◌++◌, is_empty, Str, str}
use agentic_software_factory.Policy.Platform.{Platform}
use agentic_software_factory.Policy.Model.{
  GitOperation, PolicyScope, PoliciesConfig, merged_scope, role, agent,
}
use agentic_software_factory.Policy.Filesystem
use agentic_software_factory.Policy.Filesystem.Narrowing.{restrict_narrows}
use agentic_software_factory.Policy.Filesystem.Baseline.{IsProtected, protected_refused}
use agentic_software_factory.Policy.Commands
use agentic_software_factory.Policy.Commands.Narrowing.{commands_narrow}
use agentic_software_factory.Policy.Network
use agentic_software_factory.Policy.Network.{network_narrow}
use agentic_software_factory.Policy.Environment
use agentic_software_factory.Policy.Environment.Forwarding.{kept-restrict}
use agentic_software_factory.Policy.Git
use agentic_software_factory.Policy.Git.Safety.{git_narrow}
use agentic_software_factory.Policy.Tools
use agentic_software_factory.Policy.Tools.Narrowing.{tools_narrow}
use agentic_software_factory.Policy.Effective.{EffectivePolicy, effective, effective_restricted}

-- The first policy permits nothing that the second does not. A variable counts where the first policy
-- filters the environment by a list that names some variable.
pub record IsNarrower (pl : Platform) (p q : EffectivePolicy) : Type 0 where
  pub writes :
      (path : Str)
      → Filesystem.write_allowed pl p.filesystem path ≡ true
      → Filesystem.write_allowed pl q.filesystem path ≡ true
  pub reads :
      (path : Str)
      → Filesystem.read_allowed pl p.filesystem path ≡ true
      → Filesystem.read_allowed pl q.filesystem path ≡ true
  pub runs :
      (command : Str)
      → Commands.allowed pl p.commands command ≡ true
      → Commands.allowed pl q.commands command ≡ true
  pub connects : Network.allowed p.network ≡ true → Network.allowed q.network ≡ true
  pub forwards :
      (key : Str)
      → is_empty p.environment.allowed ≡ false
      → Environment.kept pl p.environment.allowed p.environment.denied key ≡ true
      → Environment.kept pl q.environment.allowed q.environment.denied key ≡ true
  pub commits : (op : GitOperation) → Git.allows p.git op ≡ true → Git.allows q.git op ≡ true
  pub calls :
      (name : Str) (exact : Bool)
      → Tools.allowed pl p.tools name exact ≡ true
      → Tools.allowed pl q.tools name exact ≡ true

-- With the restriction of a recipe, a role and an agent are permitted nothing that they are not
-- permitted without it: no write, read, command, network access, Git operation or tool, and, where
-- the composed allow list names some variable, no variable of the environment.
pub effective_restricted_narrows :
    (pl : Platform) (config : PoliciesConfig) (role_id agent_name : Str)
    (restriction : Option PolicyScope)
    → IsNarrower pl
        (effective_restricted config role_id agent_name restriction)
        (effective config role_id agent_name)
unfolding effective_restricted effective merged_scope Filesystem.restrict Commands.restrict
    Network.restrict Environment.restrict Git.restrict Tools.restrict
effective_restricted_narrows pl config role_id agent_name restriction =
    let r = merged_scope (role config role_id) in
    let a = merged_scope (agent config agent_name) in
    let x = merged_scope restriction in
    record {
      writes = λ path. (restrict_narrows pl r a x (str "recipe") path).0;
      reads = λ path. (restrict_narrows pl r a x (str "recipe") path).2;
      runs = λ command. commands_narrow pl r a x command;
      connects = (network_narrow r a x).0;
      forwards = λ key. kept-restrict pl r a x key;
      commits = λ op. (git_narrow r a x op).1;
      calls = λ name exact. (tools_narrow pl r a x name exact).0;
    }

-- Under every configuration, for every role, agent and recipe, neither `.factory` and `.git` nor any
-- path below them may be written.
pub effective_protected :
    (pl : Platform) (config : PoliciesConfig) (role_id agent_name : Str)
    (restriction : Option PolicyScope) {dir : Str} (sub : Str)
    → IsProtected dir
    → (Filesystem.write_allowed pl
          (effective_restricted config role_id agent_name restriction).filesystem
          dir
        ≡ false)
      × (Filesystem.write_allowed pl
            (effective_restricted config role_id agent_name restriction).filesystem
            (dir ++ b'/' ∷ sub)
          ≡ false)
unfolding effective_restricted
effective_protected pl config role_id agent_name restriction sub p =
    let r = merged_scope (role config role_id) in
    let a = merged_scope (agent config agent_name) in
    let (itself, _, below, _) =
      protected_refused pl r a (merged_scope restriction) (str "recipe") sub p in
    (itself, below)
