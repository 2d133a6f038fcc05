-- ===== src/PlanEdit/States/Agrees.antt =====
-- The state that a plan edit gives a task is the one that the workflow gives it
-- (crates/factory-core/src/workflow.rs).
use agentic_software_factory.Prelude.{
  ◌≡◌, refl, arith, Bool, true, false, ◌&&◌, List, [], ◌∷◌, any, all, map, if◌then◌else◌, unwrap_or,
  ℤ,
}
use agentic_software_factory.TaskState.{TaskState, pending, ready, blocked, superseded, same}
use agentic_software_factory.Workflow
use agentic_software_factory.Workflow.{next_state_for_dependent}
use agentic_software_factory.PlanEdit.States.{States, stops, is_completed, settle, next_state}

stops-same : (s : TaskState) → same superseded s ≡ false → stops s ≡ Workflow.stops s
stops-same superseded h = absurd (ground (arith, h))
stops-same _ h = refl

completed-same : (s : TaskState) → same superseded s ≡ false → is_completed s ≡ Workflow.satisfies s
completed-same superseded h = absurd (ground (arith, h))
completed-same _ h = refl

-- The states of the dependencies, `pending` for one that has none.
abbrev pub looked_up : States → List ℤ → List TaskState
looked_up states deps = map (λ d. unwrap_or (states d) pending) deps

settle-any :
    (states : States) (b : Bool) (deps : List ℤ)
    → any (same superseded) (looked_up states deps) ≡ false
    → settle states b deps ≡ (
        if any Workflow.stops (looked_up states deps)
        then blocked
        else if b && all Workflow.satisfies (looked_up states deps)
        then ready
        else pending)
settle-any states b [] h = ground arith
settle-any states b (dep ∷ deps) h =
    let s = unwrap_or (states dep) pending in
    ground (
      arith,
      stops-same s (ground (arith, h)),
      completed-same s (ground (arith, h)),
      settle-any states (b && is_completed s) deps (ground (arith, h)),
    )

-- If no dependency is superseded, the state that a plan edit computes for a task is the one that the
-- workflow computes from the states of the dependencies.
pub next_state-next_state_for_dependent :
    (states : States) (deps : List ℤ)
    → any (same superseded) (looked_up states deps) ≡ false
    → next_state states deps ≡ next_state_for_dependent (looked_up states deps)
unfolding next_state next_state_for_dependent
next_state-next_state_for_dependent states [] h = refl
next_state-next_state_for_dependent states (dep ∷ deps) h = settle-any states true (dep ∷ deps) h
