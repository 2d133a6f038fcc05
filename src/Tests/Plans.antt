-- ===== src/Tests/Plans.antt =====
-- A plan of three tasks, edits and replans of it, and what they come to.
use agentic_software_factory.Prelude.{
  Option, ℕ, ◌≡◌, refl, Bool, true, none, some, List, [], ◌∷◌, Str, str, ℤ, pos, negsuc, ok, err,
  Result, trim, trim_start, is_whitespace, str_eq, if◌then◌else◌, map, same_int, has_int,
}
use mathlib.Core.Logic.{◌↔◌}
use native.Mathlib.Omega.{arith}
use agentic_software_factory.Prelude.{parse_i64, digits_value}
use agentic_software_factory.PlanEdit.{resolved_from_task}
use agentic_software_factory.PlanEdit.Cycle.Search.{Chain}
use agentic_software_factory.PlanEdit.Cycle.Decides.{has_cycle_iff}
use agentic_software_factory.PlanEdit.Alone.{of_id, moved}
use agentic_software_factory.PlanEdit.Outcomes.{accepted-acyclic, immutable-unchanged}
use agentic_software_factory.PlanEdit.Returns.{resolve_patch-returns}
use agentic_software_factory.PlanEdit.Scope.{mutable_scope, scope_from, scan}
use agentic_software_factory.PlanEdit.Scope.Reached.{mutable_scope_iff}
use agentic_software_factory.PlanEdit.Scope.Scanning.{Affected}
use agentic_software_factory.PlanEdit.Replan.{
  ReplanRequest, resolve_replan, replan_from, replan_diags, check_plan, check_tasks,
  check_dependency, check_dependencies, plan_placeholders, new_tasks, splice,
}
use agentic_software_factory.PlanEdit.Replanned.{resolve_replan-returns, replan-superseded}
use agentic_software_factory.PlanEdit.Kept.{replan-immutable-unchanged}
use agentic_software_factory.Workflow.{next_state_for_dependent}
use agentic_software_factory.PlanEdit.States.Agrees.{looked_up, next_state-next_state_for_dependent}
use agentic_software_factory.TaskState.{
  failed, blocked, superseded, TaskState, pending, ready, completed,
}
use agentic_software_factory.PlanEdit.{
  Task, TaskRef, id_ref, client_ref, PlanMutation, add_task, remove_task, add_dependency,
  reorder_task, PlanPatch, PlanState, ResolvedTask, ResolvedPlan, PlanDiagnostic, Diags, resolve_id,
  check_content, check_planning_role,
}
use agentic_software_factory.PlanEdit.Drafts.{placeholders, add_draft, add_drafts}
use agentic_software_factory.PlanEdit.Calls.{Outcome, returns, panics}
use agentic_software_factory.PlanEdit.Steps.{
  update_step, updated, remove_step, handle_dependency, reorder_step, step, steps,
}
use agentic_software_factory.PlanEdit.Patch.{finish, prune, reorder, number_from, resolve_patch}
use agentic_software_factory.PlanEdit.Cycle.{has_cycle, search_each, search_from, dependencies_of}
use agentic_software_factory.PlanEdit.States.{
  recompute_states, indegree, initial_queue, topological_order, order_from, release, assign,
  next_state,
}

abbrev task : ℕ → TaskState → List ℤ → ℕ → Task
task n s deps at = record {
  id = pos n;
  run_id = pos 1;
  title = str "T";
  objective = str "O";
  acceptance_criteria = str "C" ∷ [];
  state = s;
  position = pos at;
  dependencies = deps;
  worktree_path = none;
  role = none;
  operation = none;
  agent_override = none;
  created_at = [];
  updated_at = [];
}

-- The first task is completed, and the others wait for it.
abbrev three_tasks : PlanState
three_tasks = record {
  revision = pos 4;
  objective = str "Goal";
  tasks = task 1 completed [] 0 ∷ task 2 ready (pos 1 ∷ []) 1 ∷ task 3 pending (pos 2 ∷ []) 2 ∷ [];
  attempts = λ id. if same_int id (pos 1) then some 1 else none;
}

abbrev draft : Str → List TaskRef → PlanMutation
draft name deps = add_task (record {
  client_id = name;
  title = str "New";
  objective = str "Do";
  acceptance_criteria = str "Done" ∷ [];
  dependencies = deps;
  role = none;
  operation = none;
})

abbrev edit : List PlanMutation → PlanPatch
edit l = record { expected_revision = pos 4; mutations = l }

-- A draft after the last task, which goes to the front, and the second task removed.
abbrev some_edits : PlanPatch
some_edits = edit (
    draft (str "a") (id_ref (pos 3) ∷ [])
    ∷ reorder_task (client_ref (str "a")) 0
    ∷ remove_task (id_ref (pos 2))
    ∷ [])

abbrev no_plan : ResolvedPlan
no_plan = record { revision = pos 0; objective = []; tasks = []; removed = []; superseded = [] }

abbrev plan_of : Outcome (Result ResolvedPlan Diags) → ResolvedPlan
plan_of (returns (ok plan)) = plan
plan_of _ = no_plan

abbrev codes : Outcome (Result ResolvedPlan Diags) → List Str
codes (returns (err diags)) = map (λ d. PlanDiagnostic.error_code d) diags
codes _ = []

unfoldable edited : ResolvedPlan
unfolding resolve_patch placeholders add_draft add_drafts step steps update_step updated remove_step
    handle_dependency reorder_step finish prune reorder number_from has_cycle search_each
    search_from dependencies_of recompute_states topological_order indegree initial_queue order_from
    release assign next_state resolve_id check_content check_planning_role trim trim_start
    is_whitespace str str_eq
edited = plan_of (resolve_patch three_tasks some_edits)

accepted : resolve_patch three_tasks some_edits ≡ returns (ok edited)
unfolding resolve_patch placeholders add_draft add_drafts step steps update_step updated remove_step
    handle_dependency reorder_step finish prune reorder number_from has_cycle search_each
    search_from dependencies_of recompute_states topological_order indegree initial_queue order_from
    release assign next_state resolve_id check_content check_planning_role trim trim_start
    is_whitespace str str_eq edited
accepted = refl

edited_ids : map (λ t. ResolvedTask.id t) edited.tasks ≡ negsuc 0 ∷ pos 1 ∷ pos 3 ∷ []
unfolding resolve_patch placeholders add_draft add_drafts step steps update_step updated remove_step
    handle_dependency reorder_step finish prune reorder number_from has_cycle search_each
    search_from dependencies_of recompute_states topological_order indegree initial_queue order_from
    release assign next_state resolve_id check_content check_planning_role trim trim_start
    is_whitespace str str_eq edited
edited_ids = refl

-- An operation on a draft that the patch has removed panics.
removed_draft :
    resolve_patch three_tasks (
      edit (
        draft (str "a") []
        ∷ remove_task (client_ref (str "a"))
        ∷ reorder_task (client_ref (str "a")) 0
        ∷ []))
    ≡ panics
unfolding resolve_patch placeholders add_draft add_drafts step steps update_step updated remove_step
    handle_dependency reorder_step finish prune reorder number_from has_cycle search_each
    search_from dependencies_of recompute_states topological_order indegree initial_queue order_from
    release assign next_state resolve_id check_content check_planning_role trim trim_start
    is_whitespace str str_eq
removed_draft = refl

-- Client ids that are used twice are not reported, and can give a draft the placeholder of another.
same_placeholder :
    map
      (λ t. ResolvedTask.id t)
      (ResolvedPlan.tasks (
        plan_of (
          resolve_patch three_tasks
            (edit (draft (str "a") [] ∷ draft (str "a") [] ∷ draft (str "b") [] ∷ [])))))
    ≡ pos 1 ∷ pos 2 ∷ pos 3 ∷ negsuc 1 ∷ negsuc 1 ∷ negsuc 1 ∷ []
unfolding resolve_patch placeholders add_draft add_drafts step steps update_step updated remove_step
    handle_dependency reorder_step finish prune reorder number_from has_cycle search_each
    search_from dependencies_of recompute_states topological_order indegree initial_queue order_from
    release assign next_state resolve_id check_content check_planning_role trim trim_start
    is_whitespace str str_eq
same_placeholder = refl

cycle :
    codes (resolve_patch three_tasks (edit (add_dependency (id_ref (pos 2)) (id_ref (pos 3)) ∷ [])))
    ≡ str "dependency_cycle" ∷ []
unfolding resolve_patch placeholders add_draft add_drafts step steps update_step updated remove_step
    handle_dependency reorder_step finish prune reorder number_from has_cycle search_each
    search_from dependencies_of recompute_states topological_order indegree initial_queue order_from
    release assign next_state resolve_id check_content check_planning_role trim trim_start
    is_whitespace str str_eq
cycle = refl

abbrev seen_tasks : List ResolvedTask
seen_tasks = map resolved_from_task three_tasks.tasks

has_cycle_iff_example :
    (b : Bool) × (has_cycle seen_tasks ≡ some b) × ((b ≡ true) ↔ ((x : ℤ) × Chain seen_tasks x x))
has_cycle_iff_example = has_cycle_iff seen_tasks

resolve_patch-returns_example :
    (result : Result ResolvedPlan Diags) × (resolve_patch three_tasks
        (edit (draft (str "a") [] ∷ remove_task (id_ref (pos 2)) ∷ []))
      ≡ returns result)
resolve_patch-returns_example =
    resolve_patch-returns three_tasks
      (edit (draft (str "a") [] ∷ remove_task (id_ref (pos 2)) ∷ [])) refl

accepted-acyclic_example : ¬ (Chain edited.tasks (pos 3) (pos 3))
accepted-acyclic_example = accepted-acyclic three_tasks some_edits edited (pos 3) accepted

immutable-unchanged_example :
    (p : ℤ) × (of_id (pos 1) edited.tasks
      ≡ moved (resolved_from_task (task 1 completed [] 0)) p ∷ [])
immutable-unchanged_example =
    immutable-unchanged three_tasks some_edits edited 1 (task 1 completed [] 0) refl
      (λ d h. absurd (ground (arith, h))) refl accepted

mutable_scope_iff_example :
    (scope : List ℤ) × (mutable_scope three_tasks (pos 1) ≡ returns scope)
    × ((x : ℤ) → (has_int scope x ≡ true) ↔ Affected three_tasks (pos 1) x)
mutable_scope_iff_example = mutable_scope_iff three_tasks (pos 1)

-- A new task after the completed one, in place of the others.
abbrev request : ReplanRequest
request = record {
  expected_revision = pos 4;
  seed = id_ref (pos 1);
  reason = none;
  plan = record {
    objective = str "Goal ";
    tasks =
        record {
          id = str "x";
          title = str "X";
          objective = str "O";
          dependencies = str "1" ∷ [];
          acceptance_criteria = str "C" ∷ [];
          role = none;
          operation = none;
        }
        ∷ [];
  };
}

unfoldable replanned_tasks : ResolvedPlan
unfolding resolve_replan replan_from replan_diags check_plan check_tasks check_dependency
    check_dependencies plan_placeholders new_tasks splice number_from mutable_scope scope_from scan
    has_cycle search_each search_from dependencies_of recompute_states topological_order indegree
    initial_queue order_from release assign next_state check_content check_planning_role trim
    trim_start is_whitespace str str_eq parse_i64 digits_value
replanned_tasks = plan_of (resolve_replan three_tasks request)

accepted_request : resolve_replan three_tasks request ≡ returns (ok replanned_tasks)
unfolding resolve_replan replan_from replan_diags check_plan check_tasks check_dependency
    check_dependencies plan_placeholders new_tasks splice number_from mutable_scope scope_from scan
    has_cycle search_each search_from dependencies_of recompute_states topological_order indegree
    initial_queue order_from release assign next_state check_content check_planning_role trim
    trim_start is_whitespace str str_eq parse_i64 digits_value replanned_tasks
accepted_request = refl

replaced_ids : replanned_tasks.superseded ≡ pos 2 ∷ pos 3 ∷ []
unfolding resolve_replan replan_from replan_diags check_plan check_tasks check_dependency
    check_dependencies plan_placeholders new_tasks splice number_from mutable_scope scope_from scan
    has_cycle search_each search_from dependencies_of recompute_states topological_order indegree
    initial_queue order_from release assign next_state check_content check_planning_role trim
    trim_start is_whitespace str str_eq parse_i64 digits_value replanned_tasks
replaced_ids = refl

resolve_replan-returns_example :
    (result : Result ResolvedPlan Diags) × (resolve_replan three_tasks request ≡ returns result)
resolve_replan-returns_example = resolve_replan-returns three_tasks request

replan-superseded_example :
    (has_int replanned_tasks.superseded (pos 3) ≡ true) ↔ Affected three_tasks (pos 1) (pos 3)
replan-superseded_example =
    replan-superseded three_tasks request replanned_tasks (pos 1) refl accepted_request (pos 3)

replan-immutable-unchanged_example :
    (p : ℤ) × (of_id (pos 1) replanned_tasks.tasks
      ≡ moved (resolved_from_task (task 1 completed [] 0)) p ∷ [])
replan-immutable-unchanged_example =
    replan-immutable-unchanged three_tasks request replanned_tasks 1 (task 1 completed [] 0) refl
      refl accepted_request

abbrev known_states : ℤ → Option TaskState
known_states id = if same_int id (pos 1) then some completed else some failed

next_state-next_state_for_dependent_example :
    next_state known_states (pos 1 ∷ pos 2 ∷ [])
    ≡ next_state_for_dependent (looked_up known_states (pos 1 ∷ pos 2 ∷ []))
next_state-next_state_for_dependent_example =
    next_state-next_state_for_dependent known_states (pos 1 ∷ pos 2 ∷ []) refl

-- On a superseded dependency the two differ.
edit_blocks : next_state (λ id. some superseded) (pos 1 ∷ []) ≡ blocked
unfolding next_state
edit_blocks = refl

workflow_goes_on : next_state_for_dependent (superseded ∷ []) ≡ ready
unfolding next_state_for_dependent
workflow_goes_on = refl
