-- ===== src/PlanEdit/Scope.antt =====
-- crates/factory-types/src/plan_edit.rs: `mutable_scope`.
pub mod Children
pub mod Scanning
pub mod Reached
use agentic_software_factory.Prelude.{
  ℕ, zero, suc, Bool, true, false, ◌&&◌, not, Option, none, some, List, [], ◌∷◌, ◌++◌, length,
  if◌then◌else◌, unwrap_or, ℤ, same_int, has_int, greater,
}
use agentic_software_factory.PlanEdit.Calls.{
  Outcome, returns, panics, out_of_fuel, and_then_outcome,
}
use agentic_software_factory.PlanEdit.{Task, PlanState, is_immutable}

-- The entry of `dependents` for an id: each task as often as it lists the dependency.
abbrev pub listings : ℤ → ℤ → List ℤ → List ℤ
listings current id [] = []
listings current id (dep ∷ deps) =
    let rest = listings current id deps in if same_int dep current then id ∷ rest else rest

abbrev pub dependents : List Task → ℤ → List ℤ
dependents [] current = []
dependents (t ∷ tasks) current = listings current t.id t.dependencies ++ dependents tasks current

-- `state.tasks.iter().find(|t| t.id == id)`
abbrev pub find_task : List Task → ℤ → Option Task
find_task [] id = none
find_task (t ∷ tasks) id =
    let rest = find_task tasks id in if same_int t.id id then some t else rest

-- The child is a task that may still change; an `expect` takes it to be a task.
abbrev pub changes : PlanState → ℤ → Outcome Bool
changes state child = elim (find_task state.tasks child) [
  | none ↦ panics
  | some t ↦ returns (not (is_immutable t (unwrap_or (state.attempts child) 0)))
]

-- The loop over the children, with the scope and the queue.
unfoldable pub scan : PlanState → List ℤ → List ℤ × List ℤ → Outcome (List ℤ × List ℤ)
scan state [] s = returns s
scan state (child ∷ children) (scope, queue) = and_then_outcome (changes state child) (λ may_change.
    scan state children (
      if may_change && not (has_int scope child)
      then (child ∷ scope, queue ++ child ∷ [])
      else (scope, queue)))

-- The `while` loop, on fuel: a task joins the queue at most once.
unfoldable pub scope_from : ℕ → PlanState → List ℤ → List ℤ → Outcome (List ℤ)
scope_from fuel state [] scope = returns scope
scope_from zero state (current ∷ queue) scope = out_of_fuel
scope_from (suc fuel) state (current ∷ queue) scope =
    and_then_outcome (scan state (dependents state.tasks current) (scope, queue))
      (λ next. scope_from fuel state (next.1) (next.0))

abbrev pub insert_sorted : ℤ → List ℤ → List ℤ
insert_sorted n [] = n ∷ []
insert_sorted n (m ∷ ms) =
    let rest = insert_sorted n ms in if greater n m then m ∷ rest else n ∷ m ∷ ms

-- `sort` on a list of integers.
abbrev pub sort : List ℤ → List ℤ
sort [] = []
sort (n ∷ ns) = insert_sorted n (sort ns)

unfoldable pub mutable_scope : PlanState → ℤ → Outcome (List ℤ)
mutable_scope state seed =
    and_then_outcome (scope_from (suc (length state.tasks)) state (seed ∷ []) [])
      (λ scope. returns (sort scope))
