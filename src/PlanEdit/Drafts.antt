-- ===== src/PlanEdit/Drafts.antt =====
-- crates/factory-types/src/plan_edit.rs: the first part of `resolve_patch`, which adds the drafts.
use agentic_software_factory.Prelude.{
  ℕ, ◌-◌, ◌^◌, Bool, true, false, Option, none, some, List, [], ◌∷◌, ◌++◌, length, if◌then◌else◌,
  Str, str, ℤ, pos, negsuc, same_int, has_int,
}
use agentic_software_factory.PlanEdit.Calls.{Outcome, returns, panics, and_then_outcome}
use agentic_software_factory.TaskState.{TaskState, pending, superseded}
use agentic_software_factory.PlanEdit.{
  Task, TaskRef, client_ref, label, Draft, PlanMutation, add_task, PlanDiagnostic, ResolvedTask,
  diag, Clients, get, insert_client, resolve_id, Diags, check_content, check_planning_role,
}

-- The first loop, which gives each client id its placeholder.
unfoldable pub placeholders : List PlanMutation → Clients → Clients
placeholders [] clients = clients
placeholders (add_task draft ∷ mutations) clients =
    placeholders mutations (insert_client draft.client_id (negsuc (length clients)) clients)
placeholders (_ ∷ mutations) clients = placeholders mutations clients

-- The map `state_of_existing`.
abbrev pub state_of_existing : List Task → ℤ → Option TaskState
state_of_existing [] id = none
state_of_existing (t ∷ tasks) id = elim (state_of_existing tasks id) [
  | some s ↦ some s
  | none ↦ if same_int t.id id then some t.state else none
]

abbrev pub was_superseded : List Task → ℤ → Bool
was_superseded tasks id = elim (state_of_existing tasks id) [ some superseded ↦ true | _ ↦ false ]

abbrev pub unknown_dependency : TaskRef → TaskRef → PlanDiagnostic
unknown_dependency tref dep =
    diag (some tref) (some (str "dependencies")) (str "unknown_dependency")
      (str "Dependency " ++ (label dep ++ str " does not exist."))

abbrev pub self_dependency : TaskRef → PlanDiagnostic
self_dependency tref =
    diag (some tref) (some (str "dependencies")) (str "self_dependency")
      (str "A task cannot depend on itself.")

abbrev pub superseded_dependency : TaskRef → PlanDiagnostic
superseded_dependency tref =
    diag (some tref) (some (str "dependencies")) (str "superseded_dependency")
      (str "A task cannot depend on a superseded task.")

abbrev pub duplicate_dependency : TaskRef → PlanDiagnostic
duplicate_dependency tref =
    diag (some tref) (some (str "dependencies")) (str "duplicate_dependency")
      (str "Each dependency can only be listed once.")

abbrev pub unknown_task : TaskRef → PlanDiagnostic
unknown_task task =
    diag (some task) (some (str "task")) (str "unknown_task")
      (str "The referenced task does not exist.")

abbrev pub immutable_task : TaskRef → Str → Str → PlanDiagnostic
immutable_task task field text = diag (some task) (some field) (str "immutable_task") text

-- One dependency of a draft, with `deps` and the diagnostics.
abbrev pub draft_dependency :
    List Task
    → List ResolvedTask
    → Clients
    → TaskRef
    → ℤ
    → TaskRef
    → List ℤ × Diags
    → List ℤ × Diags
draft_dependency existing tasks clients tref placeholder dep (deps, diags) =
    elim (resolve_id dep tasks clients) [
      | none ↦ (deps, diags ++ unknown_dependency tref dep ∷ [])
      | some dep_id ↦
          if same_int dep_id placeholder
          then (deps, diags ++ self_dependency tref ∷ [])
          else if was_superseded existing dep_id
          then (deps, diags ++ superseded_dependency tref ∷ [])
          else if has_int deps dep_id
          then (deps, diags ++ duplicate_dependency tref ∷ [])
          else (deps ++ dep_id ∷ [], diags)
    ]

abbrev pub draft_dependencies :
    List Task
    → List ResolvedTask
    → Clients
    → TaskRef
    → ℤ
    → List TaskRef
    → List ℤ × Diags
    → List ℤ × Diags
draft_dependencies existing tasks clients tref placeholder [] s = s
draft_dependencies existing tasks clients tref placeholder (dep ∷ deps) s =
    draft_dependencies existing tasks clients tref placeholder deps
      (draft_dependency existing tasks clients tref placeholder dep s)

abbrev pub i32_max : ℤ
i32_max = pos (2 ^ 31 - 1)

abbrev pub drafted : Draft → ℤ → List ℤ → ResolvedTask
drafted draft placeholder deps = record {
  id = placeholder;
  insert = true;
  title = draft.title;
  objective = draft.objective;
  acceptance_criteria = draft.acceptance_criteria;
  state = pending;
  position = i32_max;
  dependencies = deps;
  role = draft.role;
  operation = draft.operation;
}

pub record Working : Type 0 where
  pub tasks : List ResolvedTask
  pub removed : List ℤ
  pub reorders : List (ℤ × ℕ)
  pub diags : Diags

abbrev pub pushed : Working → Diags → Working
pushed w more = record w { diags = w.diags ++ more }

-- One `AddTask`, under its placeholder.
abbrev pub added : List Task → Clients → Draft → ℤ → Working → Working
added existing clients draft placeholder w =
    let tref = client_ref draft.client_id in
    let checked =
      w.diags
      ++ (check_content (some tref) draft.title draft.objective draft.acceptance_criteria
          ++ check_planning_role tref draft.role draft.operation) in
    let found =
      draft_dependencies existing w.tasks clients tref placeholder draft.dependencies
        ([], checked) in
    record w { tasks = w.tasks ++ drafted draft placeholder (found.0) ∷ []; diags = found.1 }

unfoldable pub add_draft : List Task → Clients → Draft → Working → Outcome Working
add_draft existing clients draft w = elim (get clients draft.client_id) [
  | none ↦ panics
  | some placeholder ↦ returns (added existing clients draft placeholder w)
]

-- The loop over the `AddTask` operations.
unfoldable pub add_drafts : List Task → Clients → List PlanMutation → Working → Outcome Working
add_drafts existing clients [] w = returns w
add_drafts existing clients (add_task draft ∷ mutations) w =
    and_then_outcome (add_draft existing clients draft w) (add_drafts existing clients mutations)
add_drafts existing clients (_ ∷ mutations) w = add_drafts existing clients mutations w
