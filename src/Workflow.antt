-- ===== src/Workflow.antt =====
-- crates/factory-core/src/workflow.rs: the transitions of a task and the state of a dependent.
pub mod Transitions
use agentic_software_factory.Prelude.{
  Bool, true, false, ◌||◌, List, [], ◌∷◌, if◌then◌else◌, any, all,
}
use agentic_software_factory.TaskState.{
  TaskState, pending, ready, running, awaiting_integration, integrating, blocked, failed, completed,
  superseded, same,
}

unfoldable pub initial_state : Bool → TaskState
initial_state has_dependencies = if has_dependencies then pending else ready

abbrev listed : TaskState → TaskState → Bool
listed pending ready = true
listed pending blocked = true
listed ready running = true
listed running awaiting_integration = true
listed running completed = true
listed running failed = true
listed running blocked = true
listed awaiting_integration integrating = true
listed awaiting_integration ready = true
listed integrating completed = true
listed integrating ready = true
listed integrating failed = true
listed integrating blocked = true
listed blocked ready = true
listed failed ready = true
listed completed ready = true
listed _ _ = false

unfoldable pub can_transition : TaskState → TaskState → Bool
can_transition from to = if same from to then true else listed from to

pub allowed_targets : TaskState → List TaskState
allowed_targets pending = ready ∷ blocked ∷ []
allowed_targets ready = running ∷ []
allowed_targets running = awaiting_integration ∷ completed ∷ failed ∷ blocked ∷ []
allowed_targets awaiting_integration = integrating ∷ ready ∷ []
allowed_targets integrating = completed ∷ ready ∷ failed ∷ blocked ∷ []
allowed_targets blocked = ready ∷ []
allowed_targets failed = ready ∷ []
allowed_targets completed = ready ∷ []
allowed_targets superseded = []

abbrev pub stops : TaskState → Bool
stops failed = true
stops blocked = true
stops _ = false

abbrev pub satisfies : TaskState → Bool
satisfies completed = true
satisfies superseded = true
satisfies _ = false

unfoldable pub next_state_for_dependent : List TaskState → TaskState
next_state_for_dependent dep_states =
    if any stops dep_states then blocked else if all satisfies dep_states then ready else pending
