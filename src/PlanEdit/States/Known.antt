-- ===== src/PlanEdit/States/Known.antt =====
-- `recompute_states` where all its look-ups succeed: the maps are total functions.
use agentic_software_factory.Prelude.{
  ℕ, zero, suc, ◌-◌, ◌&&◌, not, Option, none, some, List, [], ◌∷◌, ◌++◌, ◌==◌, length, filter,
  if◌then◌else◌, ℤ, same_int, has_int,
}
use agentic_software_factory.PlanEdit.{ResolvedTask, find}
use agentic_software_factory.PlanEdit.States.{States, next_state, set_state}

abbrev pub deps_at : List ResolvedTask → ℤ → List ℤ
deps_at tasks id = elim (find id tasks) [ none ↦ [] | some t ↦ t.dependencies ]

abbrev pub Counts : Type 0
Counts = ℤ → ℕ

abbrev pub count_at : List ResolvedTask → List ℤ → Counts
count_at tasks among id = length (filter (has_int among) (deps_at tasks id))

abbrev pub set_count : ℤ → ℕ → Counts → Counts
set_count id n degrees other = if same_int id other then n else degrees other

abbrev pub lower_one : List ResolvedTask → ℤ → ℤ → Counts × List ℤ → Counts × List ℤ
lower_one tasks id other (degrees, queue) =
    let lowered = degrees other - 1 in
    if not (degrees other == 0) && has_int (deps_at tasks other) id
    then (set_count other lowered degrees, if lowered == 0 then queue ++ other ∷ [] else queue)
    else (degrees, queue)

unfoldable pub lower_each : List ResolvedTask → ℤ → List ℤ → Counts × List ℤ → Counts × List ℤ
lower_each tasks id [] s = s
lower_each tasks id (other ∷ others) (degrees, queue) =
    lower_each tasks id others (lower_one tasks id other (degrees, queue))

unfoldable pub lower_all :
    ℕ → List ResolvedTask → List ℤ → Counts → List ℤ → List ℤ → Option (List ℤ)
lower_all fuel tasks among degrees [] order = some order
lower_all zero tasks among degrees (id ∷ queue) order = none
lower_all (suc fuel) tasks among degrees (id ∷ queue) order =
    let next = lower_each tasks id among (degrees, queue) in
    lower_all fuel tasks among (next.0) (next.1) (order ++ id ∷ [])

unfoldable pub order_among : List ResolvedTask → List ℤ → Option (List ℤ)
order_among tasks among =
    let degrees = count_at tasks among in
    lower_all (length among) tasks among degrees (filter (λ id. degrees id == 0) among) []

unfoldable pub assign_each : List ℤ → States → List ResolvedTask → List ResolvedTask
assign_each [] states tasks = tasks
assign_each (id ∷ order) states tasks =
    let next = next_state states (deps_at tasks id) in
    assign_each order (λ other. if same_int id other then some next else states other)
      (set_state id next tasks)
