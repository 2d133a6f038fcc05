-- ===== src/Planner/Operations.antt =====
-- The operations of the planned tasks: what the plan declares, and what is derived.
use agentic_software_factory.Prelude.{
  ◌≡◌, refl, ◌∙◌, ap, inl, inr, true, Option, none, some, List, [], ◌∷◌, ◌++◌, map, Str, str,
  str_eq, str_eq→eq, contains, is_some, all, unwrap_or, map_err, Result, ok, err, ◌>>◌,
  if◌then◌else◌, arith, Bool-cases,
}
use agentic_software_factory.Policy.Model.{lookup}
use agentic_software_factory.Roles.{
  RoleCatalog, ExecutionClass, execution, TaskOperation, worker, test_engineer,
  validate_operation_compatibility, default_operation_for_role,
}
use agentic_software_factory.Roles.Compatible.{default-compatible}
use agentic_software_factory.Planner.{PlannedTask, Plan}

-- The loop of `validate_plan_roles`.
unfoldable check_roles : List Str → List PlannedTask → Result (Unit {0}) Str
check_roles allowed [] = ok tt
check_roles allowed (task ∷ tasks) =
    let rest = check_roles allowed tasks in
    elim task.role [
      | none ↦ rest
      | some role ↦
          if contains allowed role
          then rest
          else err (
              str "task "
              ++ (task.id
                  ++ (str " uses role '"
                      ++ (role ++ str "' which is not enabled for this workflow"))))
    ]

unfoldable pub validate_plan_roles : Plan → List Str → Result (Unit {0}) Str
unfolding check_roles
validate_plan_roles plan allowed = check_roles allowed plan.tasks

abbrev pub task_role : PlannedTask → Str
task_role task = unwrap_or task.role worker

-- A role that the catalogue does not have counts as an execution role.
unfoldable pub class_of : RoleCatalog → Str → ExecutionClass
class_of catalog role = elim (lookup role catalog) [
  | none ↦ execution
  | some definition ↦ definition.execution_class
]

abbrev check_operation : RoleCatalog → PlannedTask → Result (Unit {0}) Str
check_operation catalog task = elim task.operation [
  | none ↦ ok tt
  | some operation ↦
      map_err (λ reason. str "task " ++ (task.id ++ (str " is invalid: " ++ reason)))
        (validate_operation_compatibility (task_role task) (class_of catalog (task_role task))
          operation)
]

unfoldable check_operations : RoleCatalog → List PlannedTask → Result (Unit {0}) Str
check_operations catalog [] = ok tt
check_operations catalog (task ∷ tasks) =
    check_operation catalog task >> check_operations catalog tasks

unfoldable pub validate_plan_operations : Plan → RoleCatalog → Result (Unit {0}) Str
unfolding check_operations
validate_plan_operations plan catalog = check_operations catalog plan.tasks

-- The assignment `task.operation = Some(..)` where there was none.
abbrev with_default : RoleCatalog → PlannedTask → PlannedTask
with_default catalog task = record {
  id = task.id;
  title = task.title;
  objective = task.objective;
  dependencies = task.dependencies;
  acceptance_criteria = task.acceptance_criteria;
  role = task.role;
  operation = elim task.operation [
    | none ↦ some (default_operation_for_role (task_role task) (class_of catalog (task_role task)))
    | some operation ↦ some operation
  ];
}

unfoldable pub normalize_plan_with_operations : Plan → RoleCatalog → Result Plan Str
unfolding validate_plan_operations
normalize_plan_with_operations plan catalog =
    validate_plan_operations plan catalog
    >> ok (record { objective = plan.objective; tasks = map (with_default catalog) plan.tasks })

-- The catalogue has the test engineer, if at all, as an execution role.
abbrev pub TestsExecute : RoleCatalog → Type 0
TestsExecute catalog = class_of catalog test_engineer ≡ execution

default-ok :
    (catalog : RoleCatalog) (role : Str)
    → TestsExecute catalog
    → validate_operation_compatibility role
        (class_of catalog role)
        (default_operation_for_role role (class_of catalog role))
      ≡ ok tt
default-ok catalog role t = elim (Bool-cases (str_eq role test_engineer)) [
  | inl e ↦
      (default-compatible role (class_of catalog role)).1
        (inr (ap (class_of catalog) (str_eq→eq role test_engineer e) ∙ t))
  | inr f ↦ (default-compatible role (class_of catalog role)).1 (inl f)
]

both : (a b : Result (Unit {0}) Str) → (a >> b) ≡ ok tt → (a ≡ ok tt) × (b ≡ ok tt)
both (ok u) b h = (refl, h)
both (err e) b h = absurd (ground (arith, h))

with_default-ok :
    (catalog : RoleCatalog) (task : PlannedTask)
    → TestsExecute catalog
    → check_operation catalog task ≡ ok tt
    → check_operation catalog (with_default catalog task) ≡ ok tt
with_default-ok catalog task t h = go task.operation h
  where
    with_op : Option TaskOperation → PlannedTask
    with_op o = record {
      id = task.id;
      title = task.title;
      objective = task.objective;
      dependencies = task.dependencies;
      acceptance_criteria = task.acceptance_criteria;
      role = task.role;
      operation = o;
    }

    go :
        (o : Option TaskOperation)
        → check_operation catalog (with_op o) ≡ ok tt
        → check_operation catalog (with_default catalog (with_op o)) ≡ ok tt
    go none k =
        ap (map_err (λ reason. str "task " ++ (task.id ++ (str " is invalid: " ++ reason))))
          (default-ok catalog (task_role task) t)
    go (some operation) k = k

check_operations-default :
    (catalog : RoleCatalog) (tasks : List PlannedTask)
    → TestsExecute catalog
    → check_operations catalog tasks ≡ ok tt
    → check_operations catalog (map (with_default catalog) tasks) ≡ ok tt
unfolding check_operations
check_operations-default catalog [] t h = refl
check_operations-default catalog (task ∷ tasks) t h =
    let parts = both (check_operation catalog task) (check_operations catalog tasks) h in
    ap (λ r. r >> check_operations catalog (map (with_default catalog) tasks))
      (with_default-ok catalog task t (parts.0))
    ∙ check_operations-default catalog tasks t (parts.1)

all-declared :
    (catalog : RoleCatalog) (tasks : List PlannedTask)
    → all (λ task. is_some task.operation) (map (with_default catalog) tasks) ≡ true
all-declared catalog [] = refl
all-declared catalog (task ∷ tasks) = ground (arith, all-declared catalog tasks)

-- Given a catalogue in which the test engineer is an execution role, or is absent: a plan whose
-- declared operations are valid is normalized to a plan with the same task ids in which every task
-- declares an operation and all the operations are valid.
pub normalize_plan_with_operations_lem :
    (plan : Plan) (catalog : RoleCatalog)
    → class_of catalog test_engineer ≡ execution
    → validate_plan_operations plan catalog ≡ ok tt
    → (normal : Plan) × (normalize_plan_with_operations plan catalog ≡ ok normal)
      × (validate_plan_operations normal catalog ≡ ok tt)
      × (all (λ task. is_some task.operation) normal.tasks ≡ true)
      × (map (λ task. task.id) normal.tasks ≡ map (λ task. task.id) plan.tasks)
unfolding normalize_plan_with_operations validate_plan_operations
normalize_plan_with_operations_lem plan catalog t h = (
  record { objective = plan.objective; tasks = map (with_default catalog) plan.tasks },
  ap
      (λ r.
        r
        >> ok
            (record { objective = plan.objective; tasks = map (with_default catalog) plan.tasks }))
      h,
  check_operations-default catalog plan.tasks t h,
  all-declared catalog plan.tasks,
  ids plan.tasks,
)
  where
    ids :
        (tasks : List PlannedTask)
        → map (λ task. task.id) (map (with_default catalog) tasks) ≡ map (λ task. task.id) tasks
    ids [] = refl
    ids (task ∷ tasks) = ap (λ l. task.id ∷ l) (ids tasks)
