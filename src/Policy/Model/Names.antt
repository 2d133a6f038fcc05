-- ===== src/Policy/Model/Names.antt =====
-- crates/factory-policy/src/policy.rs: the names by which presets and Git operations are written.
use agentic_software_factory.Prelude.{
  ◌≡◌, refl, ◌⊎◌, Bool, true, false, ◌||◌, Option, none, some, arith, if◌then◌else◌, Str, str,
  str_eq, str_eq→eq, trim,
}
use agentic_software_factory.Policy.Model.{
  PolicyPreset, read_only, implementation, documentation, review, custom, GitOperation, read,
  commit_in_task_worktree, push, force_push, delete_branch, reset_branch, modify_remotes,
}

-- `PolicyPreset::as_str`
unfoldable pub preset_as_str : PolicyPreset → Str
preset_as_str read_only = str "read_only"
preset_as_str implementation = str "implementation"
preset_as_str documentation = str "documentation"
preset_as_str review = str "review"
preset_as_str custom = str "custom"

-- `PolicyPreset::parse`
unfoldable pub preset_parse : Str → Option PolicyPreset
preset_parse value =
    let name = trim value in
    if str_eq name (str "read_only")
    then some read_only
    else if str_eq name (str "implementation")
    then some implementation
    else if str_eq name (str "documentation")
    then some documentation
    else if str_eq name (str "review")
    then some review
    else if str_eq name (str "custom")
    then some custom
    else none

-- `GitOperation::as_str`
unfoldable pub git_as_str : GitOperation → Str
git_as_str read = str "read"
git_as_str commit_in_task_worktree = str "commit_in_task_worktree"
git_as_str push = str "push"
git_as_str force_push = str "force_push"
git_as_str delete_branch = str "delete_branch"
git_as_str reset_branch = str "reset_branch"
git_as_str modify_remotes = str "modify_remotes"

-- `GitOperation::parse`
unfoldable pub git_parse : Str → Option GitOperation
git_parse value =
    if str_eq value (str "read")
    then some read
    else if str_eq value (str "commit_in_task_worktree") || str_eq value (str "commit")
    then some commit_in_task_worktree
    else if str_eq value (str "push")
    then some push
    else if str_eq value (str "force_push")
    then some force_push
    else if str_eq value (str "delete_branch")
    then some delete_branch
    else if str_eq value (str "reset_branch")
    then some reset_branch
    else if str_eq value (str "modify_remotes")
    then some modify_remotes
    else none

-- `GitOperation::is_dangerous`
unfoldable pub is_dangerous : GitOperation → Bool
is_dangerous push = true
is_dangerous force_push = true
is_dangerous delete_branch = true
is_dangerous reset_branch = true
is_dangerous modify_remotes = true
is_dangerous _ = false

preset_parse-as_str : (p : PolicyPreset) → preset_parse (preset_as_str p) ≡ some p
unfolding preset_parse preset_as_str str str_eq trim
preset_parse-as_str read_only = refl
preset_parse-as_str _ = refl

preset_parse_inv :
    (value : Str) (p : PolicyPreset) → preset_parse value ≡ some p → trim value ≡ preset_as_str p
unfolding preset_parse preset_as_str
preset_parse_inv value p h = ground (
  arith,
  str_eq→eq (trim value) (str "read_only"),
  str_eq→eq (trim value) (str "implementation"),
  str_eq→eq (trim value) (str "documentation"),
  str_eq→eq (trim value) (str "review"),
  str_eq→eq (trim value) (str "custom"),
)

-- A preset is parsed from its name, and from nothing else but that name with whitespace around it.
pub preset_parse-preset_as_str :
    (p : PolicyPreset)
    → (preset_parse (preset_as_str p) ≡ some p)
      × ((value : Str) → preset_parse value ≡ some p → trim value ≡ preset_as_str p)
preset_parse-preset_as_str p = (preset_parse-as_str p, λ value. preset_parse_inv value p)

git_parse-as_str : (op : GitOperation) → git_parse (git_as_str op) ≡ some op
unfolding git_parse git_as_str str str_eq
git_parse-as_str read = refl
git_parse-as_str _ = refl

git_parse_inv :
    (value : Str) (op : GitOperation)
    → git_parse value ≡ some op
    → (value ≡ git_as_str op) ⊎ ((value ≡ str "commit") × (op ≡ commit_in_task_worktree))
unfolding git_parse git_as_str
git_parse_inv value op h = ground (
  arith,
  str_eq→eq value (str "read"),
  str_eq→eq value (str "commit_in_task_worktree"),
  str_eq→eq value (str "commit"),
  str_eq→eq value (str "push"),
  str_eq→eq value (str "force_push"),
  str_eq→eq value (str "delete_branch"),
  str_eq→eq value (str "reset_branch"),
  str_eq→eq value (str "modify_remotes"),
)

-- A Git operation is parsed from its name, and from nothing else, save that `commit` is a second
-- name of `commit_in_task_worktree`.
pub git_parse-git_as_str :
    (op : GitOperation)
    → (git_parse (git_as_str op) ≡ some op)
      × ((value : Str)
          → git_parse value ≡ some op
          → (value ≡ git_as_str op) ⊎ ((value ≡ str "commit") × (op ≡ commit_in_task_worktree)))
git_parse-git_as_str op = (git_parse-as_str op, λ value. git_parse_inv value op)
