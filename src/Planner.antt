-- ===== src/Planner.antt =====
-- crates/factory-core/src/planner.rs and crates/factory-types/src/plan.rs: the plan that the planner
-- agent returns, and its validation.
pub mod Known
pub mod Graph
pub mod Acyclic
pub mod Operations
use agentic_software_factory.Prelude.{
  ℕ, zero, suc, ◌+◌, ◌-◌, ◌^◌, Bool, true, false, not, ◌&&◌, Option, none, some, List, [], ◌∷◌,
  ◌++◌, map, ◌==◌, ltb, if◌then◌else◌, Str, str, str_eq, contains, trim, is_empty, length, any,
  filter, Result, ok, err, ◌>>◌,
}
use agentic_software_factory.Roles.{TaskOperation, op_planning, same_op, planner}

pub record PlannedTask : Type 0 where
  pub id : Str
  pub title : Str
  pub objective : Str
  pub dependencies : List Str
  pub acceptance_criteria : List Str
  pub role : Option Str
  pub operation : Option TaskOperation

pub record Plan : Type 0 where
  pub objective : Str
  pub tasks : List PlannedTask

abbrev pub max_tasks : ℕ
max_tasks = 50

-- `task.id.trim()`
abbrev pub name : PlannedTask → Str
name task = trim task.id

-- The first loop, which collects the names in `seen`.
unfoldable pub check_contents : List Str → List PlannedTask → Result (List Str) Str
check_contents seen [] = ok seen
check_contents seen (task ∷ tasks) =
    let rest = check_contents (name task ∷ seen) tasks in
    if is_empty (name task)
    then err (str "a task has an empty id")
    else if is_empty (trim task.title)
    then err (str "task " ++ (task.id ++ str " has an empty title"))
    else if is_empty (trim task.objective)
    then err (str "task " ++ (task.id ++ str " has an empty objective"))
    else if is_empty task.acceptance_criteria
    then err (str "task " ++ (task.id ++ str " has no acceptance criteria"))
    else if any (λ c. is_empty (trim c)) task.acceptance_criteria
    then err (str "task " ++ (task.id ++ str " has an empty acceptance criterion"))
    else if contains seen (name task)
    then err (str "duplicate task id '" ++ (task.id ++ str "'"))
    else rest

unfoldable pub check_each_dependency : List Str → PlannedTask → List Str → Result (Unit {0}) Str
check_each_dependency seen task [] = ok tt
check_each_dependency seen task (dep ∷ deps) =
    let rest = check_each_dependency seen task deps in
    if str_eq dep (name task)
    then err (str "task " ++ (task.id ++ str " depends on itself"))
    else if not (contains seen dep)
    then err (str "task " ++ (task.id ++ (str " depends on unknown task '" ++ (dep ++ str "'"))))
    else rest

-- The second loop.
unfoldable pub check_dependencies : List Str → List PlannedTask → Result (Unit {0}) Str
unfolding check_each_dependency
check_dependencies seen [] = ok tt
check_dependencies seen (task ∷ tasks) =
    check_each_dependency seen task task.dependencies >> check_dependencies seen tasks

-- The map `indegree`, whose keys are the names of the tasks.
abbrev pub Degrees : Type 0
Degrees = Str → Option ℕ

abbrev pub set : Str → ℕ → Degrees → Degrees
set n v degrees m = if str_eq n m then some v else degrees m

unfoldable pub indegree : List PlannedTask → Degrees
indegree [] m = none
indegree (task ∷ tasks) m =
    let rest = indegree tasks m in
    if str_eq (name task) m then some (length task.dependencies) else rest

-- `*e -= 1` on a `usize`, which wraps in a release build.
abbrev pub decrement : ℕ → ℕ
decrement e = if e == 0 then 2 ^ 64 - 1 else e - 1

-- One turn of the inner loop: the popped task is subtracted from a dependent. `none` is the `expect`
-- on a name that the map does not have. The stack is a list whose head is the end of the vector.
unfoldable pub subtract : Str → PlannedTask → Degrees × List Str → Option (Degrees × List Str)
subtract id task (degrees, stack) =
    if contains task.dependencies id
    then elim (degrees (name task)) [
      | none ↦ none
      | some n ↦
          let e = decrement n in
          some (set (name task) e degrees, if e == 0 then name task ∷ stack else stack)
    ]
    else some (degrees, stack)

-- The inner loop.
unfoldable pub relax : Str → List PlannedTask → Degrees × List Str → Option (Degrees × List Str)
relax id [] s = some s
relax id (task ∷ tasks) s = elim (subtract id task s) [
  | none ↦ none
  | some next ↦ relax id tasks next
]

-- The `while` loop, on fuel, which returns `visited`; `none` is a panic or a loop without end.
unfoldable pub drain : ℕ → List PlannedTask → Degrees → List Str → ℕ → Option ℕ
drain fuel tasks degrees [] visited = some visited
drain zero tasks degrees (id ∷ stack) visited = none
drain (suc fuel) tasks degrees (id ∷ stack) visited = elim (relax id tasks (degrees, stack)) [
  | none ↦ none
  | some next ↦ drain fuel tasks (next.0) (next.1) (visited + 1)
]

-- `filter(|(_, &d)| d == 0)`
abbrev pub waits_for_none : Option ℕ → Bool
waits_for_none none = false
waits_for_none (some d) = d == 0

-- The first tasks of the queue, in the order in which the hash map gives its keys.
unfoldable pub ready_tasks : (List Str → List Str) → List PlannedTask → List Str
ready_tasks hash_order tasks =
    filter (λ n. waits_for_none (indegree tasks n)) (hash_order (map name tasks))

-- Every task is popped at most once, so that the fuel is enough.
unfoldable pub visited_tasks : (List Str → List Str) → List PlannedTask → Option ℕ
visited_tasks hash_order tasks =
    drain (length tasks) tasks (indegree tasks) (ready_tasks hash_order tasks) 0

unfoldable pub check_acyclic : (List Str → List Str) → List PlannedTask → Result (Unit {0}) Str
check_acyclic hash_order tasks = elim (visited_tasks hash_order tasks) [
  | none ↦ err (str "panic or out of fuel")
  | some visited ↦
      if visited == length tasks
      then ok tt
      else err (str "the task dependency graph contains a cycle")
]

-- The last loop.
unfoldable pub check_planning : List PlannedTask → Result (Unit {0}) Str
check_planning [] = ok tt
check_planning (task ∷ tasks) =
    let rest = check_planning tasks in
    if elim task.role [ none ↦ false | some role ↦ str_eq role planner ]
    then err (
        str "task "
        ++ (task.id ++ str " uses the planner role, which cannot appear as a planned task"))
    else if elim task.operation [ none ↦ false | some operation ↦ same_op operation op_planning ]
    then err (
        str "task "
        ++ (task.id ++ str " uses operation 'planning'; only the Planner produces plans"))
    else rest

unfoldable pub validate_plan : (List Str → List Str) → Plan → Result (Unit {0}) Str
unfolding check_contents check_dependencies check_acyclic check_planning
validate_plan hash_order plan =
    if is_empty plan.tasks
    then err (str "plan contains no tasks")
    else if ltb max_tasks (length plan.tasks)
    then err (str "plan exceeds the maximum of 50 tasks")
    else elim (check_contents [] plan.tasks) [
      | err e ↦ err e
      | ok seen ↦
          check_dependencies seen plan.tasks
          >> check_acyclic hash_order plan.tasks
          >> check_planning plan.tasks
    ]
