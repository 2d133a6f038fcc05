-- ===== src/Policy/Git.antt =====
-- crates/factory-policy/src/policy.rs: the Git operations left to a task agent. A `BTreeSet` of
-- operations is its list in ascending order.
pub mod Safety
use agentic_software_factory.Prelude.{
  ◌≡◌, Bool, true, false, ◌&&◌, not, Option, none, some, and_then, List, [], ◌∷◌, if◌then◌else◌,
  is_empty, any, filter, filter_map, Str, ℕ, ◌==◌,
}
use agentic_software_factory.Policy.Model.{
  GitOperation, read, commit_in_task_worktree, push, force_push, delete_branch, reset_branch,
  modify_remotes, GitPolicy, PolicyScope,
}
use agentic_software_factory.Policy.Model.Names.{git_parse, is_dangerous}

pub record EffectiveGit : Type 0 where
  pub allowed : List GitOperation

-- The place in the derived order, and the derived equality.
abbrev pub rank : GitOperation → ℕ
rank read = 0
rank commit_in_task_worktree = 1
rank push = 2
rank force_push = 3
rank delete_branch = 4
rank reset_branch = 5
rank modify_remotes = 6

abbrev pub same : GitOperation → GitOperation → Bool
same a b = rank a == rank b

abbrev pub has : List GitOperation → GitOperation → Bool
has operations operation = any (same operation) operations

-- `factory_git_baseline_allowed`
abbrev pub factory_git_baseline_allowed : List GitOperation
factory_git_baseline_allowed = read ∷ commit_in_task_worktree ∷ []

abbrev git_of : Option PolicyScope → Option GitPolicy
git_of scope = and_then scope (λ s. s.git)

-- The intersection with the declared operations, less the dangerous ones.
abbrev narrowed : List GitOperation → List Str → List GitOperation
narrowed allowed names =
    let declared = filter_map git_parse names in
    filter (λ operation. not (is_dangerous operation)) (filter (has declared) allowed)

-- A scope with no list, or with an empty one, changes nothing.
abbrev narrow_by : List GitOperation → Option GitPolicy → List GitOperation
narrow_by allowed none = allowed
narrow_by allowed (some git) = if is_empty git.allow then allowed else narrowed allowed git.allow

-- `EffectiveGit::resolve`
pub resolve : Option PolicyScope → Option PolicyScope → EffectiveGit
resolve role agent = record {
  allowed = narrow_by (narrow_by factory_git_baseline_allowed (git_of role)) (git_of agent);
}

-- `EffectiveGit::restrict`
unfoldable pub restrict : EffectiveGit → Option PolicyScope → EffectiveGit
restrict g restriction = record g { allowed = narrow_by g.allowed (git_of restriction) }

-- `EffectiveGit::allows`
pub allows : EffectiveGit → GitOperation → Bool
allows g operation = has g.allowed operation
