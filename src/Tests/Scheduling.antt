-- ===== src/Tests/Scheduling.antt =====
-- A plan of two tasks (crates/factory-core/src/planner.rs and roles.rs).
use agentic_software_factory.Prelude.{
  ◌≡◌, refl, ◌≤◌, ◌<◌, ℕ, true, none, some, List, [], ◌∷◌, Str, str, str_eq, map, length, all,
  is_some, ok, err, trim, trim_start, is_whitespace,
}
use agentic_software_factory.Roles.{RoleCatalog, execution, test_engineer}
use agentic_software_factory.Policy.Model.{lookup}
use agentic_software_factory.Planner.{
  PlannedTask, Plan, name, check_contents, check_each_dependency, check_dependencies, indegree,
  subtract, relax, drain, ready_tasks, visited_tasks, check_acyclic, check_planning, validate_plan,
}
use agentic_software_factory.Planner.Graph.{Distinct}
use agentic_software_factory.Planner.Graph.Starting.{IsOrder, visited_tasks-Drained}
use agentic_software_factory.Planner.Graph.Draining.{Drained}
use agentic_software_factory.Planner.Acyclic.{Needs, validate_plan-acyclic}
use agentic_software_factory.Planner.Operations.{
  class_of, validate_plan_operations, normalize_plan_with_operations,
  normalize_plan_with_operations_lem,
}

abbrev task : Str → List Str → PlannedTask
task id dependencies = record {
  id = id;
  title = str "t";
  objective = str "o";
  dependencies = dependencies;
  acceptance_criteria = str "c" ∷ [];
  role = none;
  operation = none;
}

abbrev plan : Plan
plan = record {
  objective = str "o";
  tasks = task (str "b") (str "a" ∷ []) ∷ task (str "a") [] ∷ [];
}

-- A task that lists a dependency twice, in a graph without a cycle.
abbrev doubled : Plan
doubled = record {
  objective = str "o";
  tasks = task (str "b") (str "a" ∷ str "a" ∷ []) ∷ task (str "a") [] ∷ [];
}

abbrev in_order : List Str → List Str
in_order l = l

program : Unit {0}
unfolding str str_eq trim trim_start is_whitespace check_contents check_each_dependency
    check_dependencies indegree subtract relax drain ready_tasks visited_tasks check_acyclic
    check_planning validate_plan
program = tt

doubled_refused :
    validate_plan in_order doubled ≡ err (str "the task dependency graph contains a cycle")
unfolding program
doubled_refused = refl

accepted : validate_plan in_order plan ≡ ok tt
unfolding program
accepted = refl

in_order-IsOrder : IsOrder in_order
in_order-IsOrder = record { distinct = λ l u. u; same_keys = λ l n. refl }

validate_plan-acyclic_example :
    (0 < length plan.tasks)
    × (length plan.tasks ≤ 50)
    × Distinct (map name plan.tasks)
    × ((a : Str) → ¬ Needs plan.tasks a a)
validate_plan-acyclic_example = validate_plan-acyclic in_order plan in_order-IsOrder accepted

Distinct-names : Distinct (map name plan.tasks)
unfolding program
Distinct-names = (refl, (refl, tt))

visited_tasks-Drained_example :
    (v : ℕ) × (visited_tasks in_order plan.tasks ≡ some v) × Drained plan.tasks v
visited_tasks-Drained_example =
    visited_tasks-Drained in_order plan.tasks in_order-IsOrder Distinct-names

abbrev empty : RoleCatalog
empty = []

executes : class_of empty test_engineer ≡ execution
unfolding class_of lookup
executes = refl

valid : validate_plan_operations plan empty ≡ ok tt
unfolding validate_plan_operations
valid = refl

normalize_plan_with_operations_lem_example :
    (normal : Plan) × (normalize_plan_with_operations plan empty ≡ ok normal)
    × (validate_plan_operations normal empty ≡ ok tt)
    × (all (λ task. is_some task.operation) normal.tasks ≡ true)
    × (map (λ task. task.id) normal.tasks ≡ map (λ task. task.id) plan.tasks)
normalize_plan_with_operations_lem_example =
    normalize_plan_with_operations_lem plan empty executes valid
