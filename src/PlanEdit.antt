-- ===== src/PlanEdit.antt =====
-- crates/factory-types/src/plan_edit.rs and plans.rs: the data of plan edits, and the checks and the
-- look-ups that an edit and a replan share. The maps that the source collects from lists are
-- functions of the lists.
pub mod Calls
pub mod Cycle
pub mod States
pub mod Drafts
pub mod Steps
pub mod Patch
pub mod Scope
pub mod Replan
pub mod Alone
pub mod Immutable
pub mod Unchanged
pub mod Accepted
pub mod Outcomes
pub mod Placed
pub mod Returns
pub mod Replanned
pub mod Kept
use agentic_software_factory.Prelude.{
  ℕ, Bool, true, false, ◌&&◌, ◌||◌, not, Option, none, some, List, [], ◌∷◌, ◌++◌, ltb, length, any,
  is_empty, if◌then◌else◌, is_some, unwrap_or, Str, str, str_eq, trim, ℤ, same_int, show_int,
  Result,
}
use agentic_software_factory.TaskState.{
  TaskState, pending, ready, running, awaiting_integration, integrating, blocked, completed,
  superseded,
}
use agentic_software_factory.Roles.{TaskOperation, op_planning, same_op, planner}

abbrev pub max_plan_tasks : ℕ
max_plan_tasks = 50

pub record Task : Type 0 where
  pub id : ℤ
  pub run_id : ℤ
  pub title : Str
  pub objective : Str
  pub acceptance_criteria : List Str
  pub state : TaskState
  pub position : ℤ
  pub dependencies : List ℤ
  pub worktree_path : Option Str
  pub role : Option Str
  pub operation : Option TaskOperation
  pub agent_override : Option Str
  pub created_at : Str
  pub updated_at : Str

pub data TaskRef : Type 0 where
  id_ref : ℤ → TaskRef
  client_ref : Str → TaskRef

-- `TaskRef::id`
abbrev pub ref_id : TaskRef → Option ℤ
ref_id (id_ref n) = some n
ref_id (client_ref name) = none

-- `TaskRef::label`
unfoldable pub label : TaskRef → Str
unfolding show_int
label (id_ref n) = str "task " ++ show_int n
label (client_ref name) = name

pub record Draft : Type 0 where
  pub client_id : Str
  pub title : Str
  pub objective : Str
  pub acceptance_criteria : List Str
  pub dependencies : List TaskRef
  pub role : Option Str
  pub operation : Option TaskOperation

pub record Update : Type 0 where
  pub title : Option Str
  pub objective : Option Str
  pub acceptance_criteria : Option (Option (List Str))
  pub role : Option (Option Str)
  pub operation : Option (Option TaskOperation)

-- The fields of `AddTask` and `UpdateTask` stand in records.
pub data PlanMutation : Type 0 where
  add_task : Draft → PlanMutation
  update_task : TaskRef → Update → PlanMutation
  remove_task : TaskRef → PlanMutation
  add_dependency : (task depends_on : TaskRef) → PlanMutation
  remove_dependency : (task depends_on : TaskRef) → PlanMutation
  reorder_task : TaskRef → ℕ → PlanMutation

pub record PlanPatch : Type 0 where
  pub expected_revision : ℤ
  pub mutations : List PlanMutation

pub record PlanDiagnostic : Type 0 where
  pub task : Option TaskRef
  pub field : Option Str
  pub error_code : Str
  pub message : Str

pub record PlanState : Type 0 where
  pub revision : ℤ
  pub objective : Str
  pub tasks : List Task
  pub attempts : ℤ → Option ℕ

pub record ResolvedTask : Type 0 where
  pub id : ℤ
  pub insert : Bool
  pub title : Str
  pub objective : Str
  pub acceptance_criteria : List Str
  pub state : TaskState
  pub position : ℤ
  pub dependencies : List ℤ
  pub role : Option Str
  pub operation : Option TaskOperation

pub record ResolvedPlan : Type 0 where
  pub revision : ℤ
  pub objective : Str
  pub tasks : List ResolvedTask
  pub removed : List ℤ
  pub superseded : List ℤ

-- The states that cannot be rolled back.
abbrev pub rolls_on : TaskState → Bool
rolls_on running = true
rolls_on awaiting_integration = true
rolls_on integrating = true
rolls_on completed = true
rolls_on superseded = true
rolls_on _ = false

abbrev pub is_immutable : Task → ℕ → Bool
is_immutable task attempts = ltb 0 attempts || rolls_on task.state

abbrev pub is_working_immutable : ResolvedTask → (ℤ → Option ℕ) → Bool
is_working_immutable task attempts = ltb 0 (unwrap_or (attempts task.id) 0) || rolls_on task.state

abbrev pub diag : Option TaskRef → Option Str → Str → Str → PlanDiagnostic
diag t f code text = record { task = t; field = f; error_code = code; message = text }

abbrev pub resolved_from_task : Task → ResolvedTask
resolved_from_task t = record {
  id = t.id;
  insert = false;
  title = t.title;
  objective = t.objective;
  acceptance_criteria = t.acceptance_criteria;
  state = t.state;
  position = t.position;
  dependencies = t.dependencies;
  role = t.role;
  operation = t.operation;
}

-- `tasks.iter().find(|t| t.id == id)`
abbrev pub find : ℤ → List ResolvedTask → Option ResolvedTask
find n [] = none
find n (t ∷ tasks) = let rest = find n tasks in if same_int t.id n then some t else rest

-- `tasks.iter().any(|t| t.id == id)`
abbrev pub has_task : List ResolvedTask → ℤ → Bool
has_task tasks n = any (λ t. same_int (ResolvedTask.id t) n) tasks

-- A `HashMap<String, i64>` as a list of its entries: `get`, and `insert`, which replaces.
abbrev pub Clients : Type 0
Clients = List (Str × ℤ)

abbrev pub get : Clients → Str → Option ℤ
get [] name = none
get (entry ∷ clients) name =
    let rest = get clients name in if str_eq (entry.0) name then some (entry.1) else rest

abbrev pub insert_client : Str → ℤ → Clients → Clients
insert_client name n [] = (name, n) ∷ []
insert_client name n (entry ∷ clients) =
    let rest = insert_client name n clients in
    if str_eq (entry.0) name then (name, n) ∷ clients else entry ∷ rest

unfoldable pub resolve_id : TaskRef → List ResolvedTask → Clients → Option ℤ
resolve_id (id_ref n) tasks clients = if has_task tasks n then some n else none
resolve_id (client_ref name) tasks clients = get clients name

abbrev pub Diags : Type 0
Diags = List PlanDiagnostic

abbrev pub report : Bool → PlanDiagnostic → Diags
report b d = if b then d ∷ [] else []

-- What the checks push.
unfoldable pub check_content : Option TaskRef → Str → Str → List Str → Diags
check_content tref title objective criteria =
    report (is_empty (trim title))
      (diag tref (some (str "title")) (str "empty_title") (str "Every task needs a title."))
    ++ (report (is_empty (trim objective)) (
          diag tref (some (str "objective")) (str "empty_objective")
            (str "Every task needs an objective."))
        ++ (if is_empty criteria
            then diag tref (some (str "acceptanceCriteria")) (str "empty_acceptance_criteria")
                (str "Every task needs at least one acceptance criterion.")
              ∷ []
            else report (any (λ c. is_empty (trim c)) criteria) (
                diag tref (some (str "acceptanceCriteria")) (str "empty_acceptance_criterion")
                  (str "Acceptance criteria must not be empty strings."))))

abbrev pub is_planner : Option Str → Bool
is_planner none = false
is_planner (some role) = str_eq role planner

abbrev pub is_planning : Option TaskOperation → Bool
is_planning none = false
is_planning (some operation) = same_op operation op_planning

abbrev pub planner_role : TaskRef → PlanDiagnostic
planner_role tref =
    diag (some tref) (some (str "role")) (str "planner_role")
      (str "The planner role cannot appear as a planned task.")

abbrev pub planning_operation : TaskRef → PlanDiagnostic
planning_operation tref =
    diag (some tref) (some (str "operation")) (str "planning_operation")
      (str "Planned tasks cannot use the planning operation.")

unfoldable pub check_planning_role : TaskRef → Option Str → Option TaskOperation → Diags
check_planning_role tref role operation =
    report (is_planner role) (planner_role tref)
    ++ report (is_planning operation) (planning_operation tref)
