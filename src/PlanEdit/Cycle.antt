-- ===== src/PlanEdit/Cycle.antt =====
-- crates/factory-types/src/plan_edit.rs: `detect_cycle`, a depth-first search with a stack.
pub mod Marking
pub mod Pushing
pub mod Search
pub mod Visit
pub mod Visits
pub mod Decides
use agentic_software_factory.Prelude.{
  ℕ, zero, suc, ◌+◌, ◌*◌, Bool, true, false, Option, none, some, List, [], ◌∷◌, ◌==◌, length,
  if◌then◌else◌, ℤ, same_int, str,
}
use agentic_software_factory.PlanEdit.{ResolvedTask, Diags, diag}

-- The map `by_id`: the dependencies of the last task with the id.
abbrev pub by_id : List ResolvedTask → ℤ → Option (List ℤ)
by_id [] id = none
by_id (t ∷ tasks) id = elim (by_id tasks id) [
  | some deps ↦ some deps
  | none ↦ if same_int t.id id then some t.dependencies else none
]

unfoldable pub dependencies_of : List ResolvedTask → ℤ → List ℤ
dependencies_of tasks id = elim (by_id tasks id) [ none ↦ [] | some deps ↦ deps ]

-- The map `state_map`, with 0 on a missing key: 0 unvisited, 1 in the current search, 2 processed.
abbrev pub Marks : Type 0
Marks = ℤ → ℕ

abbrev pub set_mark : ℤ → ℕ → Marks → Marks
set_mark id mark marks other = if same_int id other then mark else marks other

-- The stack, whose head is the end of the vector.
abbrev pub Stack : Type 0
Stack = List (ℤ × Bool)

abbrev pub push_dependencies : Marks → List ℤ → Stack → Stack
push_dependencies marks [] stack = stack
push_dependencies marks (dep ∷ deps) stack =
    push_dependencies marks deps (if marks dep == 2 then stack else (dep, false) ∷ stack)

-- The `while` loop, on fuel, with the marks and `cyclic`.
unfoldable pub search_from : ℕ → List ResolvedTask → Stack → Marks → Bool → Option (Marks × Bool)
unfolding dependencies_of
search_from fuel tasks [] marks cyclic = some (marks, cyclic)
search_from zero tasks (item ∷ stack) marks cyclic = none
search_from (suc fuel) tasks ((id, true) ∷ stack) marks cyclic =
    search_from fuel tasks stack (set_mark id 2 marks) cyclic
search_from (suc fuel) tasks ((id, false) ∷ stack) marks cyclic = elim (marks id == 1) [
  | true ↦ search_from fuel tasks stack marks true
  | false ↦
      let opened = set_mark id 1 marks in
      search_from fuel tasks
        (push_dependencies opened (dependencies_of tasks id) ((id, true) ∷ stack)) opened cyclic
]

abbrev pub edges : List ResolvedTask → ℕ
edges [] = 0
edges (t ∷ tasks) = length t.dependencies + edges tasks

-- Each task is opened once with all its dependencies, and each task on the stack that was processed
-- since then is opened again for a moment.
abbrev pub visit_fuel : ℕ → ℕ
visit_fuel n = 2 + n

abbrev pub search_fuel : List ResolvedTask → ℕ
search_fuel tasks =
    let e = edges tasks in visit_fuel e + (length tasks + e) * (2 + e * visit_fuel e)

-- The `for` loop over the tasks that are left.
unfoldable pub search_each :
    List ResolvedTask → List ResolvedTask → Marks → Bool → Option (Marks × Bool)
unfolding search_from
search_each tasks [] marks cyclic = some (marks, cyclic)
search_each tasks (start ∷ rest) marks cyclic = elim (marks start.id == 0) [
  | true ↦ elim (search_from (search_fuel tasks) tasks ((start.id, false) ∷ []) marks cyclic) [
    | none ↦ none
    | some found ↦ search_each tasks rest (found.0) (found.1)
  ]
  | false ↦ search_each tasks rest marks cyclic
]

-- The returned Boolean.
unfoldable pub has_cycle : List ResolvedTask → Option Bool
unfolding search_each
has_cycle tasks = elim (search_each tasks tasks (λ id. 0) false) [
  | none ↦ none
  | some found ↦ some (found.1)
]

-- What `detect_cycle` pushes when there is a cycle.
abbrev pub cycle_diags : Bool → Diags
cycle_diags false = []
cycle_diags true =
    diag none (some (str "dependencies")) (str "dependency_cycle")
      (str "The task dependency graph must stay acyclic.")
    ∷ []

abbrev pub detect_cycle : List ResolvedTask → Option Diags
detect_cycle tasks = elim (has_cycle tasks) [
  | none ↦ none
  | some cyclic ↦ some (cycle_diags cyclic)
]
