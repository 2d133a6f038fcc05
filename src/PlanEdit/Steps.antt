-- ===== src/PlanEdit/Steps.antt =====
-- crates/factory-types/src/plan_edit.rs: the other operations of a patch, and `handle_dependency`.
use agentic_software_factory.Prelude.{
  ℕ, Bool, true, false, ◌&&◌, not, Option, none, some, List, [], ◌∷◌, ◌++◌, any, filter, is_empty,
  if◌then◌else◌, Str, str, trim, ℤ, same_int, has_int,
}
use agentic_software_factory.PlanEdit.{
  Task, TaskRef, label, Update, PlanMutation, add_task, update_task, remove_task, add_dependency,
  remove_dependency, reorder_task, PlanDiagnostic, ResolvedTask, is_working_immutable, diag, find,
  Clients, resolve_id, Diags, report, check_content, is_planner, is_planning, planner_role,
  planning_operation,
}
use agentic_software_factory.PlanEdit.Drafts.{
  was_superseded, unknown_dependency, self_dependency, superseded_dependency, duplicate_dependency,
  unknown_task, immutable_task, Working, pushed,
}
use agentic_software_factory.PlanEdit.Calls.{Outcome, returns, panics, and_then_outcome}

-- The task at `tasks.iter().position(|t| t.id == id)` taken out, changed and put back.
abbrev pub replace_first : ℤ → ResolvedTask → List ResolvedTask → List ResolvedTask
replace_first id new [] = []
replace_first id new (t ∷ tasks) =
    let rest = replace_first id new tasks in if same_int t.id id then new ∷ tasks else t ∷ rest

-- A field of the update, which keeps the old text when the new one is blank.
abbrev pub set_text : TaskRef → Str → Str → Str → Option Str → Str → Str × Diags
set_text task field code text none old = (old, [])
set_text task field code text (some value) old =
    if is_empty (trim value)
    then (old, diag (some task) (some field) code text ∷ [])
    else (value, [])

abbrev pub set_criteria :
    TaskRef → Str → Str → Option (Option (List Str)) → List Str → List Str × Diags
unfolding check_content
set_criteria task title objective none old = (old, [])
set_criteria task title objective (some none) old = ([], [])
set_criteria task title objective (some (some list)) old =
    (list, check_content (some task) title objective list)

abbrev pub set_role : {A : Type 0} → (A → Bool) → PlanDiagnostic → Option A → A → A × Diags
set_role wrong d none old = (old, [])
set_role wrong d (some value) old = (value, report (wrong value) d)

-- The fields of an `UpdateTask` set in their order.
unfoldable pub updated : TaskRef → Update → ResolvedTask → ResolvedTask × Diags
updated task u t =
    let title =
      set_text task (str "title") (str "empty_title") (str "Every task needs a title.") u.title
        t.title in
    let objective =
      set_text task (str "objective") (str "empty_objective") (str "Every task needs an objective.")
        u.objective t.objective in
    let criteria =
      set_criteria task (title.0) (objective.0) u.acceptance_criteria t.acceptance_criteria in
    let role = set_role is_planner (planner_role task) u.role t.role in
    let operation = set_role is_planning (planning_operation task) u.operation t.operation in
    (
      record t {
        title = title.0;
        objective = objective.0;
        acceptance_criteria = criteria.0;
        role = role.0;
        operation = operation.0;
      },
      (title.1) ++ ((objective.1) ++ ((criteria.1) ++ ((role.1) ++ (operation.1)))),
    )

-- The opening of each operation: the task that the reference names, if it may still change.
abbrev pub on_mutable :
    (ℤ → Option ℕ)
    → Clients
    → TaskRef
    → Str
    → Str
    → Working
    → (ℤ → ResolvedTask → Working)
    → Outcome Working
on_mutable attempts clients task field text w change = elim (resolve_id task w.tasks clients) [
  | none ↦ returns (pushed w (unknown_task task ∷ []))
  | some id ↦ elim (find id w.tasks) [
    | none ↦ panics
    | some t ↦ returns (
        if is_working_immutable t attempts
        then pushed w (immutable_task task field text ∷ [])
        else change id t)
  ]
]

unfoldable pub update_step : (ℤ → Option ℕ) → Clients → TaskRef → Update → Working → Outcome Working
unfolding updated
update_step attempts clients task u w =
    on_mutable attempts clients task (str "task")
      (str "A task that has started or finished can no longer be edited.") w
      (λ id t.
        let new = updated task u t in
        record w { tasks = replace_first id (new.0) w.tasks; diags = w.diags ++ (new.1) })

-- Another task that has started or finished depends on the task.
abbrev pub holds_back : (ℤ → Option ℕ) → ℤ → ResolvedTask → Bool
holds_back attempts id other =
    not (same_int other.id id)
    && has_int other.dependencies id
    && is_working_immutable other attempts

unfoldable pub remove_step : (ℤ → Option ℕ) → Clients → TaskRef → Working → Outcome Working
remove_step attempts clients task w =
    on_mutable attempts clients task (str "task")
      (str "A task that has started or finished cannot be removed.") w
      (λ id t. record w {
        tasks = filter (λ other. not (same_int (ResolvedTask.id other) id)) w.tasks;
        removed = (if t.insert then w.removed else w.removed ++ id ∷ []);
        diags =
            w.diags
            ++ report (any (holds_back attempts id) w.tasks) (
                diag (some task) (some (str "task")) (str "immutable_dependent")
                  (str "The task depends on completed work and cannot be removed."));
      })

-- The end of `handle_dependency`.
abbrev pub change_dependency : Bool → TaskRef → TaskRef → ℤ → ℤ → ResolvedTask → Working → Working
change_dependency true task depends_on id dep_id t w =
    if has_int t.dependencies dep_id then pushed w (duplicate_dependency task ∷ []) else record w {
      tasks = replace_first id (record t { dependencies = t.dependencies ++ dep_id ∷ [] }) w.tasks;
    }
change_dependency false task depends_on id dep_id t w =
    if has_int t.dependencies dep_id
    then record w {
      tasks =
          replace_first id
            (record t { dependencies = filter (λ d. not (same_int d dep_id)) t.dependencies })
            w.tasks;
    }
    else pushed w (
        diag (some task) (some (str "dependencies")) (str "missing_dependency")
          (str "Task does not depend on " ++ (label depends_on ++ str "."))
        ∷ [])

unfoldable pub handle_dependency :
    List Task → (ℤ → Option ℕ) → Clients → Bool → TaskRef → TaskRef → Working → Outcome Working
handle_dependency existing attempts clients add task depends_on w =
    elim (resolve_id task w.tasks clients) [
      | none ↦ returns (pushed w (unknown_task task ∷ []))
      | some id ↦ elim (resolve_id depends_on w.tasks clients) [
        | none ↦ returns (pushed w (unknown_dependency task depends_on ∷ []))
        | some dep_id ↦
            if same_int id dep_id
            then returns (pushed w (self_dependency task ∷ []))
            else on_mutable attempts clients task (str "dependencies")
                (str "A task that has started or finished can no longer be edited.") w
                (λ id t.
                  if was_superseded existing dep_id
                  then pushed w (superseded_dependency task ∷ [])
                  else change_dependency add task depends_on id dep_id t w)
      ]
    ]

unfoldable pub reorder_step : (ℤ → Option ℕ) → Clients → TaskRef → ℕ → Working → Outcome Working
reorder_step attempts clients task position w =
    on_mutable attempts clients task (str "position")
      (str "A task that has started or finished can no longer be reordered.") w
      (λ id t. record w { reorders = w.reorders ++ (id, position) ∷ [] })

-- One operation of the second pass.
unfoldable pub step :
    List Task → (ℤ → Option ℕ) → Clients → PlanMutation → Working → Outcome Working
unfolding update_step remove_step handle_dependency reorder_step
step existing attempts clients (add_task draft) w = returns w
step existing attempts clients (update_task task u) w = update_step attempts clients task u w
step existing attempts clients (remove_task task) w = remove_step attempts clients task w
step existing attempts clients (add_dependency task depends_on) w =
    handle_dependency existing attempts clients true task depends_on w
step existing attempts clients (remove_dependency task depends_on) w =
    handle_dependency existing attempts clients false task depends_on w
step existing attempts clients (reorder_task task position) w =
    reorder_step attempts clients task position w

unfoldable pub steps :
    List Task → (ℤ → Option ℕ) → Clients → List PlanMutation → Working → Outcome Working
unfolding step
steps existing attempts clients [] w = returns w
steps existing attempts clients (mutation ∷ mutations) w =
    and_then_outcome (step existing attempts clients mutation w)
      (steps existing attempts clients mutations)
