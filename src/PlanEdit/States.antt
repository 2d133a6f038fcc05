-- ===== src/PlanEdit/States.antt =====
-- crates/factory-types/src/plan_edit.rs: `recompute_states`.
pub mod Known
pub mod Ends
pub mod Lookups
pub mod Agrees
use agentic_software_factory.Prelude.{
  ℕ, zero, suc, ◌-◌, Bool, true, false, ◌&&◌, ◌||◌, not, Option, none, some, List, [], ◌∷◌, ◌++◌,
  map, ◌==◌, length, filter, is_empty, if◌then◌else◌, unwrap_or, ℤ, same_int, has_int,
}
use agentic_software_factory.TaskState.{
  TaskState, pending, ready, blocked, failed, completed, superseded,
}
use agentic_software_factory.PlanEdit.{ResolvedTask, find}
use agentic_software_factory.PlanEdit.Calls.{
  Outcome, returns, panics, out_of_fuel, and_then_outcome,
}

-- The map `state_of`: the state of the last task with the id.
abbrev pub state_of : List ResolvedTask → ℤ → Option TaskState
state_of [] id = none
state_of (t ∷ tasks) id = elim (state_of tasks id) [
  | some s ↦ some s
  | none ↦ if same_int t.id id then some t.state else none
]

abbrev pub unsettled : TaskState → Bool
unsettled pending = true
unsettled ready = true
unsettled blocked = true
unsettled _ = false

abbrev pub is_mutable : (ℤ → Option ℕ) → ResolvedTask → Bool
is_mutable attempts t = t.insert || (unwrap_or (attempts t.id) 0 == 0 && unsettled t.state)

abbrev pub mutable : (ℤ → Option ℕ) → List ResolvedTask → List ℤ
mutable attempts tasks = map (λ t. ResolvedTask.id t) (filter (is_mutable attempts) tasks)

-- The dependencies of the first task with the id, which an `expect` takes to be there.
abbrev pub first_dependencies : List ResolvedTask → ℤ → Outcome (List ℤ)
first_dependencies tasks id = elim (find id tasks) [
  | none ↦ panics
  | some t ↦ returns t.dependencies
]

-- The map `indegree`.
abbrev pub Degrees : Type 0
Degrees = ℤ → Option ℕ

abbrev pub set_degree : ℤ → ℕ → Degrees → Degrees
set_degree id n degrees other = if same_int id other then some n else degrees other

-- `get(..).expect("known")`
abbrev pub degree_of : Degrees → ℤ → Outcome ℕ
degree_of degrees id = elim (degrees id) [ none ↦ panics | some n ↦ returns n ]

-- The map is collected from the ids.
unfoldable pub indegree : List ResolvedTask → List ℤ → List ℤ → Degrees → Outcome Degrees
indegree tasks among [] degrees = returns degrees
indegree tasks among (id ∷ ids) degrees = and_then_outcome (first_dependencies tasks id) (λ deps.
    indegree tasks among ids (set_degree id (length (filter (has_int among) deps)) degrees))

-- The queue before the loop.
unfoldable pub initial_queue : Degrees → List ℤ → Outcome (List ℤ)
initial_queue degrees [] = returns []
initial_queue degrees (id ∷ ids) = and_then_outcome (degree_of degrees id) (λ n.
    and_then_outcome (initial_queue degrees ids)
      (λ queue. returns (if n == 0 then id ∷ queue else queue)))

-- One turn of the inner loop, for an entry of a degree.
abbrev pub release_at :
    List ResolvedTask → ℤ → ℤ → Degrees × List ℤ → ℕ → Outcome (Degrees × List ℤ)
release_at tasks id other (degrees, queue) degree =
    if degree == 0
    then returns (degrees, queue)
    else and_then_outcome (first_dependencies tasks other) (λ deps. returns (
        if has_int deps id
        then (
          set_degree other (degree - 1) degrees,
          if degree - 1 == 0 then queue ++ other ∷ [] else queue,
        )
        else (degrees, queue)))

-- The inner loop, with the degrees and the queue.
unfoldable pub release :
    List ResolvedTask → ℤ → List ℤ → Degrees × List ℤ → Outcome (Degrees × List ℤ)
release tasks id [] s = returns s
release tasks id (other ∷ others) s =
    and_then_outcome (and_then_outcome (degree_of (s.0) other) (release_at tasks id other s))
      (release tasks id others)

-- The `while` loop, on fuel: each entry of the list is popped at most once.
unfoldable pub order_from :
    ℕ → List ResolvedTask → List ℤ → Degrees → List ℤ → List ℤ → Outcome (List ℤ)
order_from fuel tasks among degrees [] order = returns order
order_from zero tasks among degrees (id ∷ queue) order = out_of_fuel
order_from (suc fuel) tasks among degrees (id ∷ queue) order =
    and_then_outcome (release tasks id among (degrees, queue))
      (λ next. order_from fuel tasks among (next.0) (next.1) (order ++ id ∷ []))

unfoldable pub topological_order : List ResolvedTask → List ℤ → Outcome (List ℤ)
topological_order tasks among =
    and_then_outcome (indegree tasks among among (λ id. none)) (λ degrees.
      and_then_outcome (initial_queue degrees among)
        (λ queue. order_from (length among) tasks among degrees queue []))

abbrev pub States : Type 0
States = ℤ → Option TaskState

abbrev pub stops : TaskState → Bool
stops failed = true
stops blocked = true
stops superseded = true
stops _ = false

abbrev pub is_completed : TaskState → Bool
is_completed completed = true
is_completed _ = false

-- The loop over the dependencies, which leaves at the first that blocks.
abbrev pub settle : States → Bool → List ℤ → TaskState
settle states all_completed [] = if all_completed then ready else pending
settle states all_completed (dep ∷ deps) =
    let s = unwrap_or (states dep) pending in
    let rest = settle states (all_completed && is_completed s) deps in
    if stops s then blocked else rest

unfoldable pub next_state : States → List ℤ → TaskState
next_state states deps = if is_empty deps then ready else settle states true deps

-- `tasks.iter_mut().find(..)`, and the state set.
abbrev pub set_state : ℤ → TaskState → List ResolvedTask → List ResolvedTask
set_state id s [] = []
set_state id s (t ∷ tasks) =
    let rest = set_state id s tasks in
    if same_int t.id id then record t { state = s } ∷ tasks else t ∷ rest

-- The last loop.
unfoldable pub assign : List ℤ → States → List ResolvedTask → Outcome (List ResolvedTask)
assign [] states tasks = returns tasks
assign (id ∷ order) states tasks = and_then_outcome (first_dependencies tasks id) (λ deps.
    let next = next_state states deps in
    assign order (λ other. if same_int id other then some next else states other)
      (set_state id next tasks))

unfoldable pub recompute_states : List ResolvedTask → (ℤ → Option ℕ) → Outcome (List ResolvedTask)
recompute_states tasks attempts =
    and_then_outcome (topological_order tasks (mutable attempts tasks)) (λ order.
      if length order == length (mutable attempts tasks)
      then assign order (state_of tasks) tasks
      else returns tasks)
