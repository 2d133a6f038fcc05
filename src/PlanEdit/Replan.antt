-- ===== src/PlanEdit/Replan.antt =====
-- crates/factory-types/src/plan_edit.rs: `resolve_replan`.
use agentic_software_factory.Prelude.{
  Bool, true, not, ltb, Option, none, some, List, [], ◌∷◌, ◌++◌, map, filter, filter_map, length,
  is_empty, if◌then◌else◌, unwrap_or, is_some, ℤ, negsuc, has_int, greater, next_i64, parse_i64,
  show_int, Str, str, str_eq, trim, contains, Result, ok, err,
}
use agentic_software_factory.TaskState.{pending}
use agentic_software_factory.Planner.{PlannedTask, Plan, name}
use agentic_software_factory.PlanEdit.{
  Task, TaskRef, client_ref, ref_id, PlanState, ResolvedTask, ResolvedPlan, Diags, diag, report,
  is_immutable, resolved_from_task, max_plan_tasks, check_content, check_planning_role, Clients,
  get, insert_client,
}
use agentic_software_factory.PlanEdit.Drafts.{i32_max, self_dependency}
use agentic_software_factory.PlanEdit.Calls.{Outcome, returns, panics, and_then_outcome, fueled}
use agentic_software_factory.PlanEdit.Cycle.{detect_cycle}
use agentic_software_factory.PlanEdit.States.{recompute_states}
use agentic_software_factory.PlanEdit.Patch.{number_from}
use agentic_software_factory.PlanEdit.Scope.{find_task, mutable_scope}

pub record ReplanRequest : Type 0 where
  pub expected_revision : ℤ
  pub seed : TaskRef
  pub reason : Option Str
  pub plan : Plan

-- The reference in the diagnostics of a planned task.
abbrev pub planned_ref : PlannedTask → TaskRef
planned_ref task = client_ref (str "replan:" ++ name task)

-- What the first loop pushes, with the names seen before.
unfoldable pub check_tasks : List Str → List PlannedTask → Diags
check_tasks seen [] = []
check_tasks seen (task ∷ tasks) =
    let tref = planned_ref task in
    report (is_empty (name task))
      (diag (some tref) (some (str "id")) (str "empty_task_id") (str "Every task needs an id."))
    ++ (report (contains seen (name task)) (
          diag (some tref) (some (str "id")) (str "duplicate_task_id")
            (str "Duplicate task id '" ++ (name task ++ str "'.")))
        ++ (check_content (some tref) task.title task.objective task.acceptance_criteria
            ++ (check_planning_role tref task.role task.operation
                ++ check_tasks (name task ∷ seen) tasks)))

-- The map `plan_placeholders`.
unfoldable pub plan_placeholders : List PlannedTask → Clients → Clients
plan_placeholders [] clients = clients
plan_placeholders (task ∷ tasks) clients =
    plan_placeholders tasks (insert_client (name task) (negsuc (length clients)) clients)

abbrev pub unknown_dependency : TaskRef → Str → Diags
unknown_dependency tref text =
    diag (some tref) (some (str "dependencies")) (str "unknown_dependency")
      (str "Dependency " ++ (text ++ str " does not exist."))
    ∷ []

-- What one dependency of a planned task pushes.
unfoldable pub check_dependency : (scope allowed : List ℤ) → Clients → PlannedTask → Str → Diags
check_dependency scope allowed clients task dep =
    let tref = planned_ref task in
    if str_eq (trim dep) (name task)
    then self_dependency tref ∷ []
    else if is_some (get clients (trim dep))
    then []
    else elim (parse_i64 (trim dep)) [
      | none ↦ unknown_dependency tref (trim dep)
      | some external ↦
          if has_int allowed external
          then []
          else if has_int scope external
          then diag (some tref) (some (str "dependencies")) (str "scope_dependency")
              (str "The replan cannot depend on a task it is replacing.")
            ∷ []
          else unknown_dependency tref (show_int external)
    ]

abbrev pub check_each : (scope allowed : List ℤ) → Clients → PlannedTask → List Str → Diags
check_each scope allowed clients task [] = []
check_each scope allowed clients task (dep ∷ deps) =
    check_dependency scope allowed clients task dep ++ check_each scope allowed clients task deps

unfoldable pub check_dependencies : (scope allowed : List ℤ) → Clients → List PlannedTask → Diags
check_dependencies scope allowed clients [] = []
check_dependencies scope allowed clients (task ∷ tasks) =
    check_each scope allowed clients task task.dependencies
    ++ check_dependencies scope allowed clients tasks

abbrev pub dependency_id : Clients → Str → Option ℤ
dependency_id clients dep = elim (get clients (trim dep)) [
  | some n ↦ some n
  | none ↦ parse_i64 (trim dep)
]

abbrev pub new_task : Clients → PlannedTask → ℤ → ResolvedTask
new_task clients task placeholder = record {
  id = placeholder;
  insert = true;
  title = task.title;
  objective = task.objective;
  acceptance_criteria = task.acceptance_criteria;
  state = pending;
  position = i32_max;
  dependencies = filter_map (dependency_id clients) task.dependencies;
  role = task.role;
  operation = task.operation;
}

-- The planned tasks as tasks of the plan; an `expect` takes each name to have a placeholder.
unfoldable pub new_tasks : Clients → List PlannedTask → Outcome (List ResolvedTask)
new_tasks clients [] = returns []
new_tasks clients (task ∷ tasks) = elim (get clients (name task)) [
  | none ↦ panics
  | some placeholder ↦
      and_then_outcome (new_tasks clients tasks)
        (λ rest. returns (new_task clients task placeholder ∷ rest))
]

abbrev pub in_scope : List ℤ → Task → Bool
in_scope scope t = has_int scope t.id

-- `min` of the positions.
abbrev pub earliest : List ℤ → List Task → Option ℤ
earliest scope [] = none
earliest scope (t ∷ tasks) =
    let rest = earliest scope tasks in
    if in_scope scope t
    then elim rest [
      | none ↦ some t.position
      | some p ↦ if greater t.position p then some p else some t.position
    ]
    else rest

-- The new tasks put before the first task that stands after the position, or at the end.
abbrev pub splice_after : ℤ → List ResolvedTask → List ResolvedTask → List ResolvedTask
splice_after p new [] = new
splice_after p new (t ∷ tasks) =
    let rest = splice_after p new tasks in
    if greater t.position p then new ++ (t ∷ tasks) else t ∷ rest

unfoldable pub splice : Option ℤ → List ResolvedTask → List ResolvedTask → List ResolvedTask
splice none new remaining = remaining ++ new
splice (some p) new remaining = splice_after p new remaining

abbrev pub remaining : List ℤ → List Task → List ResolvedTask
remaining scope tasks = map resolved_from_task (filter (λ t. not (in_scope scope t)) tasks)

-- What the seed and the plan as a whole push.
unfoldable pub check_plan : PlanState → ReplanRequest → ℤ → Task → Diags
check_plan state request seed_id seed_task =
    report (not (is_immutable seed_task (unwrap_or (state.attempts seed_id) 0))) (
      diag (some request.seed) (some (str "seed")) (str "mutable_seed")
        (str "A replan can only be seeded by a task that has already produced work."))
    ++ (report (is_empty (trim request.plan.objective)) (
          diag none (some (str "objective")) (str "empty_objective")
            (str "The replan needs an objective."))
        ++ (report (is_empty request.plan.tasks)
              (diag none none (str "empty_plan") (str "A replan must contain at least one task."))
            ++ report (ltb max_plan_tasks (length request.plan.tasks))
                (diag none none (str "too_many_tasks") (str "A plan cannot exceed 50 tasks."))))

unfoldable pub replan_diags : PlanState → ReplanRequest → ℤ → Task → List ℤ → Clients → Diags
replan_diags state request seed_id seed_task scope clients =
    check_plan state request seed_id seed_task
    ++ (check_tasks [] request.plan.tasks
        ++ check_dependencies scope
            (filter (λ id. not (has_int scope id)) (map (λ t. Task.id t) state.tasks)) clients
            request.plan.tasks)

-- The tasks of the plan that comes of it, before their states are computed.
abbrev pub replanned : PlanState → List ℤ → List ResolvedTask → List ResolvedTask
replanned state scope new =
    number_from 0 (splice (earliest scope state.tasks) new (remaining scope state.tasks))

unfoldable pub replan_from :
    PlanState → ReplanRequest → ℤ → Task → List ℤ → Outcome (Result ResolvedPlan Diags)
replan_from state request seed_id seed_task scope =
    let clients = plan_placeholders request.plan.tasks [] in
    let diags = replan_diags state request seed_id seed_task scope clients in
    and_then_outcome (new_tasks clients request.plan.tasks) (λ new.
      fueled (detect_cycle new) (λ found.
        and_then_outcome (recompute_states (replanned state scope new) state.attempts) (λ settled.
          returns (
            if is_empty (diags ++ found)
            then ok (record {
              revision = next_i64 state.revision;
              objective = trim request.plan.objective;
              tasks = settled;
              removed = [];
              superseded = scope;
            })
            else err (diags ++ found)))))

abbrev pub unknown_seed : TaskRef → Diags
unknown_seed seed =
    diag (some seed) (some (str "seed")) (str "unknown_seed")
      (str "The replan seed must reference an existing task.")
    ∷ []

abbrev pub seed_of : PlanState → ReplanRequest → Option (ℤ × Task)
seed_of state request = elim (ref_id request.seed) [
  | none ↦ none
  | some id ↦ elim (find_task state.tasks id) [ none ↦ none | some t ↦ some (id, t) ]
]

unfoldable pub resolve_replan : PlanState → ReplanRequest → Outcome (Result ResolvedPlan Diags)
resolve_replan state request = elim (seed_of state request) [
  | none ↦ returns (err (unknown_seed request.seed))
  | some seed ↦
      and_then_outcome (mutable_scope state (seed.0))
        (λ scope. replan_from state request (seed.0) (seed.1) scope)
]
