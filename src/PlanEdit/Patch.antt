-- ===== src/PlanEdit/Patch.antt =====
-- crates/factory-types/src/plan_edit.rs: `resolve_patch`.
use agentic_software_factory.Prelude.{
  ℕ, zero, suc, none, some, List, [], ◌∷◌, ◌++◌, map, filter, is_empty, if◌then◌else◌, ℤ, same_int,
  next_i64, as_i32, Result, ok, err,
}
use agentic_software_factory.PlanEdit.{
  PlanPatch, PlanState, ResolvedTask, ResolvedPlan, resolved_from_task, find, has_task, Diags,
}
use agentic_software_factory.PlanEdit.Drafts.{placeholders, Working, add_drafts}
use agentic_software_factory.PlanEdit.Calls.{Outcome, returns, and_then_outcome, fueled}
use agentic_software_factory.PlanEdit.Steps.{steps}
use agentic_software_factory.PlanEdit.Cycle.{detect_cycle}
use agentic_software_factory.PlanEdit.States.{recompute_states}

-- The dependencies on removed tasks dropped.
abbrev pub pruned : List ResolvedTask → ResolvedTask → ResolvedTask
pruned tasks t = record t { dependencies = filter (has_task tasks) t.dependencies }

unfoldable pub prune : List ResolvedTask → List ResolvedTask
prune tasks = map (pruned tasks) tasks

abbrev pub remove_first : ℤ → List ResolvedTask → List ResolvedTask
remove_first id [] = []
remove_first id (t ∷ tasks) =
    let rest = remove_first id tasks in if same_int t.id id then tasks else t ∷ rest

-- `tasks.insert(position.min(tasks.len()), task)`
abbrev pub insert_at : ℕ → ResolvedTask → List ResolvedTask → List ResolvedTask
insert_at zero new tasks = new ∷ tasks
insert_at (suc n) new [] = new ∷ []
insert_at (suc n) new (t ∷ tasks) = t ∷ insert_at n new tasks

unfoldable pub reorder : List (ℤ × ℕ) → List ResolvedTask → List ResolvedTask
reorder [] tasks = tasks
reorder ((id, position) ∷ reorders) tasks = elim (find id tasks) [
  | none ↦ reorder reorders tasks
  | some t ↦ reorder reorders (insert_at position t (remove_first id tasks))
]

-- The positions from a place on.
unfoldable pub number_from : ℕ → List ResolvedTask → List ResolvedTask
number_from n [] = []
number_from n (t ∷ tasks) = record t { position = as_i32 n } ∷ number_from (suc n) tasks

-- What follows the operations.
unfoldable pub finish : PlanState → Working → Outcome (Result ResolvedPlan Diags)
finish state w =
    let tasks = number_from 0 (reorder w.reorders (prune w.tasks)) in
    fueled (detect_cycle tasks) (λ found.
      and_then_outcome (recompute_states tasks state.attempts) (λ settled. returns (
        if is_empty (w.diags ++ found)
        then ok (record {
          revision = next_i64 state.revision;
          objective = state.objective;
          tasks = settled;
          removed = w.removed;
          superseded = [];
        })
        else err (w.diags ++ found))))

abbrev pub start : PlanState → Working
start state = record {
  tasks = map resolved_from_task state.tasks;
  removed = [];
  reorders = [];
  diags = [];
}

unfoldable pub resolve_patch : PlanState → PlanPatch → Outcome (Result ResolvedPlan Diags)
resolve_patch state patch =
    let clients = placeholders patch.mutations [] in
    and_then_outcome (add_drafts state.tasks clients patch.mutations (start state)) (λ w.
      and_then_outcome (steps state.tasks state.attempts clients patch.mutations w) (finish state))
