-- ===== src/Planner/Known.antt =====
-- The loop of `validate_plan` where no look-up fails: the degrees are a total function.
use agentic_software_factory.Prelude.{
  ℕ, zero, suc, ◌+◌, Option, none, some, List, [], ◌∷◌, ◌==◌, if◌then◌else◌, length, Str, str_eq,
  contains,
}
use agentic_software_factory.Planner.{PlannedTask, name, decrement}

abbrev pub Counts : Type 0
Counts = Str → ℕ

abbrev pub set_count : Str → ℕ → Counts → Counts
set_count n v degrees m = if str_eq n m then v else degrees m

unfoldable pub count_of : List PlannedTask → Counts
count_of [] m = 0
count_of (task ∷ tasks) m =
    let rest = count_of tasks m in if str_eq (name task) m then length task.dependencies else rest

unfoldable pub relax_all : Str → List PlannedTask → Counts × List Str → Counts × List Str
relax_all id [] s = s
relax_all id (task ∷ tasks) (degrees, stack) =
    let e = decrement (degrees (name task)) in
    relax_all id tasks (
      if contains task.dependencies id
      then (set_count (name task) e degrees, if e == 0 then name task ∷ stack else stack)
      else (degrees, stack))

unfoldable pub drain_all : ℕ → List PlannedTask → Counts → List Str → ℕ → Option ℕ
drain_all fuel tasks degrees [] visited = some visited
drain_all zero tasks degrees (id ∷ stack) visited = none
drain_all (suc fuel) tasks degrees (id ∷ stack) visited =
    let next = relax_all id tasks (degrees, stack) in
    drain_all fuel tasks (next.0) (next.1) (visited + 1)
