-- ===== src/PlanEdit/Returns.antt =====
-- A patch that removes no draft is resolved: no `expect` fails and no loop outlives its fuel.
use agentic_software_factory.Prelude.{
  ℕ, ◌≡◌, inl, inr, refl, ap, sym, subst, ◌∙◌, arith, Bool, true, false, List, [], ◌∷◌, Option,
  some, none, Option-cases, eq_of_some, Bool-cases, if◌then◌else◌, ℤ, pos, negsuc, same_int,
  has_int, Result, Str, str,
}
use agentic_software_factory.PlanEdit.{
  Task, TaskRef, PlanMutation, PlanPatch, PlanState, ResolvedTask, ResolvedPlan, find, has_task,
  Clients, get, resolve_id, Diags, is_working_immutable, add_task, update_task, remove_task,
  add_dependency, remove_dependency, reorder_task,
}
use agentic_software_factory.PlanEdit.Drafts.{
  Working, pushed, immutable_task, unknown_task, placeholders, was_superseded,
}
use agentic_software_factory.PlanEdit.Calls.{Outcome, returns, and_then_outcome}
use agentic_software_factory.PlanEdit.Drafts.{
  unknown_dependency, self_dependency, superseded_dependency,
}
use agentic_software_factory.PlanEdit.Steps.{
  on_mutable, update_step, remove_step, handle_dependency, reorder_step, step, steps, replace_first,
  updated, change_dependency,
}
use agentic_software_factory.PlanEdit.Patch.{finish, start, resolve_patch}
use agentic_software_factory.PlanEdit.Alone.{find-id, has_task-replace_first, has_task-remove_all}
use agentic_software_factory.PlanEdit.{id_ref, client_ref}
use agentic_software_factory.PlanEdit.Patch.{finish, start, resolve_patch}
use agentic_software_factory.PlanEdit.Alone.{has_task-replace_first, has_task-remove_all, find-id}
use agentic_software_factory.PlanEdit.Accepted.{finish-returns, placeholders-negative}
use agentic_software_factory.PlanEdit.Placed.{placeholders-Has, placeholders-adds, drafts-Adds}

-- The patch removes tasks of the plan only.
abbrev pub keeps_drafts : List PlanMutation → Bool
keeps_drafts [] = true
keeps_drafts (remove_task (id_ref (pos n)) ∷ mutations) = keeps_drafts mutations
keeps_drafts (remove_task _ ∷ mutations) = false
keeps_drafts (_ ∷ mutations) = keeps_drafts mutations

-- Each placeholder is the id of a task.
abbrev Covered : Clients → List ResolvedTask → Type 0
Covered clients tasks = (name : Str) (p : ℤ) → get clients name ≡ some p → has_task tasks p ≡ true

has_task-find :
    (id : ℤ) (tasks : List ResolvedTask)
    → has_task tasks id ≡ true
    → (t : ResolvedTask) × (find id tasks ≡ some t)
has_task-find id [] h = absurd (ground (arith, h))
has_task-find id (t ∷ tasks) h = elim (Bool-cases (same_int t.id id)) [
  | inl e ↦ (t, rw e refl)
  | inr e ↦ let (u, f) = has_task-find id tasks (ground (arith, h, e)) in (u, rw e f)
]

resolved-has_task :
    (task : TaskRef) (tasks : List ResolvedTask) (clients : Clients) (id : ℤ)
    → Covered clients tasks
    → resolve_id task tasks clients ≡ some id
    → has_task tasks id ≡ true
unfolding resolve_id
resolved-has_task (client_ref name) tasks clients id k h = k name id h
resolved-has_task (id_ref n) tasks clients id k h = elim (Bool-cases (has_task tasks n)) [
  | inl e ↦ subst (λ x. has_task tasks x ≡ true) (eq_of_some (rw e at h)) e
  | inr e ↦ absurd (ground (arith, rw e at h))
]

-- An operation returns, and what it leaves has every placeholder.
abbrev GoesOn : Clients → Outcome Working → Type 0
GoesOn clients o = (v : Working) × (o ≡ returns v) × Covered clients v.tasks

on_mutable-GoesOn :
    (attempts : ℤ → Option ℕ) (clients : Clients) (task : TaskRef) (field text : Str) (w : Working)
    (change : ℤ → ResolvedTask → Working)
    → Covered clients w.tasks
    → ((id : ℤ) (t : ResolvedTask)
        → resolve_id task w.tasks clients ≡ some id
        → find id w.tasks ≡ some t
        → Covered clients (Working.tasks (change id t)))
    → GoesOn clients (on_mutable attempts clients task field text w change)
on_mutable-GoesOn attempts clients task field text w change k c =
    elim (Option-cases (resolve_id task w.tasks clients)) [
      | inl e ↦ (pushed w (unknown_task task ∷ []), rw (e, on_mutable) refl, k)
      | inr (id, e) ↦
          let (t, f) = has_task-find id w.tasks (resolved-has_task task w.tasks clients id k e) in
          elim (Bool-cases (is_working_immutable t attempts)) [
            | inl i ↦
                (pushed w (immutable_task task field text ∷ []), rw (e, f, i, on_mutable) refl, k)
            | inr i ↦ (change id t, rw (e, f, i, on_mutable) refl, c id t e f)
          ]
    ]

Covered-replace_first :
    (clients : Clients) (tasks : List ResolvedTask) (id : ℤ) (t new : ResolvedTask)
    → find id tasks ≡ some t
    → new.id ≡ t.id
    → Covered clients tasks
    → Covered clients (replace_first id new tasks)
Covered-replace_first clients tasks id t new e i k name p g =
    has_task-replace_first id p new tasks (i ∙ find-id id tasks t e) ∙ k name p g

abbrev Negative : Clients → Type 0
Negative clients = (name : Str) (p : ℤ) → get clients name ≡ some p → (n : ℕ) × (p ≡ negsuc n)

change-Covered :
    (add : Bool) (clients : Clients) (task depends_on : TaskRef) (id dep_id : ℤ) (t : ResolvedTask)
    (w : Working)
    → find id w.tasks ≡ some t
    → Covered clients w.tasks
    → Covered clients (Working.tasks (change_dependency add task depends_on id dep_id t w))
change-Covered true clients task depends_on id dep_id t w e k =
    elim (Bool-cases (has_int t.dependencies dep_id)) [
      | inl i ↦ rw i k
      | inr i ↦ rw i (Covered-replace_first clients w.tasks id t _ e refl k)
    ]
change-Covered false clients task depends_on id dep_id t w e k =
    elim (Bool-cases (has_int t.dependencies dep_id)) [
      | inl i ↦ rw i (Covered-replace_first clients w.tasks id t _ e refl k)
      | inr i ↦ rw i k
    ]

dependency-GoesOn :
    (existing : List Task) (attempts : ℤ → Option ℕ) (clients : Clients) (add : Bool)
    (task depends_on : TaskRef) (w : Working)
    → Covered clients w.tasks
    → GoesOn clients (handle_dependency existing attempts clients add task depends_on w)
unfolding handle_dependency
dependency-GoesOn existing attempts clients add task depends_on w k =
    elim (Option-cases (resolve_id task w.tasks clients)) [
      | inl e ↦ (pushed w (unknown_task task ∷ []), rw (e, handle_dependency) refl, k)
      | inr (id, e) ↦ elim (Option-cases (resolve_id depends_on w.tasks clients)) [
        | inl f ↦ (
          pushed w (unknown_dependency task depends_on ∷ []),
          rw (e, f, handle_dependency) refl,
          k,
        )
        | inr (dep_id, f) ↦ elim (Bool-cases (same_int id dep_id)) [
          | inl i ↦ (pushed w (self_dependency task ∷ []), rw (e, f, i, handle_dependency) refl, k)
          | inr i ↦
              let (v, run, c) =
                on_mutable-GoesOn attempts clients task (str "dependencies")
                  (str "A task that has started or finished can no longer be edited.") w
                  (λ id' t.
                    if was_superseded existing dep_id
                    then pushed w (superseded_dependency task ∷ [])
                    else change_dependency add task depends_on id' dep_id t w)
                  k
                  (λ id' t r found.
                    if_pushed (was_superseded existing dep_id) _ _
                      (change-Covered add clients task depends_on id' dep_id t w found k)) in
              (v, rw (e, f, i, handle_dependency) run, c)
        ]
      ]
    ]
  where
    if_pushed :
        (b : Bool) (d : Diags) (v : Working)
        → Covered clients v.tasks
        → Covered clients (Working.tasks (if b then pushed w d else v))
    if_pushed true d v c = k
    if_pushed false d v c = c

remove-GoesOn :
    (attempts : ℤ → Option ℕ) (clients : Clients) (n : ℕ) (w : Working)
    → Negative clients
    → Covered clients w.tasks
    → GoesOn clients (remove_step attempts clients (id_ref (pos n)) w)
unfolding remove_step resolve_id
remove-GoesOn attempts clients n w negative k =
    on_mutable-GoesOn attempts clients (id_ref (pos n)) _ _ w _ k (λ id t e f name p g.
      has_task-remove_all id p w.tasks (other id p (negative name p g) e) (k name p g))
  where
    other :
        (id p : ℤ)
        → ((m : ℕ) × (p ≡ negsuc m))
        → (if has_task w.tasks (pos n) then some (pos n) else none) ≡ some id
        → same_int id p ≡ false
    other id p (m, q) e = elim (Bool-cases (has_task w.tasks (pos n))) [
      | inl i ↦ ap (λ x. same_int x p) (sym (eq_of_some (rw i at e))) ∙ ap (same_int (pos n)) q
      | inr i ↦ absurd (ground (arith, rw i at e))
    ]

step-GoesOn :
    (existing : List Task) (attempts : ℤ → Option ℕ) (clients : Clients) (mutation : PlanMutation)
    (mutations : List PlanMutation) (w : Working)
    → keeps_drafts (mutation ∷ mutations) ≡ true
    → Negative clients
    → Covered clients w.tasks
    → GoesOn clients (step existing attempts clients mutation w) × (keeps_drafts mutations ≡ true)
unfolding step update_step updated reorder_step
step-GoesOn existing attempts clients (add_task draft) mutations w h n k = ((w, refl, k), h)
step-GoesOn existing attempts clients (update_task task u) mutations w h n k = (
  on_mutable-GoesOn attempts clients task _ _ w _ k
      (λ id t e f. Covered-replace_first clients w.tasks id t ((updated task u t).0) f refl k),
  h,
)
step-GoesOn existing attempts clients (remove_task (id_ref (pos m))) mutations w h n k =
    (remove-GoesOn attempts clients m w n k, h)
step-GoesOn existing attempts clients (remove_task (id_ref (negsuc m))) mutations w h n k =
    absurd (ground (arith, h))
step-GoesOn existing attempts clients (remove_task (client_ref name)) mutations w h n k =
    absurd (ground (arith, h))
step-GoesOn existing attempts clients (add_dependency task d) mutations w h n k =
    (dependency-GoesOn existing attempts clients true task d w k, h)
step-GoesOn existing attempts clients (remove_dependency task d) mutations w h n k =
    (dependency-GoesOn existing attempts clients false task d w k, h)
step-GoesOn existing attempts clients (reorder_task task position) mutations w h n k =
    (on_mutable-GoesOn attempts clients task _ _ w _ k (λ id t e f. k), h)

steps-GoesOn :
    (existing : List Task) (attempts : ℤ → Option ℕ) (clients : Clients)
    (mutations : List PlanMutation) (w : Working)
    → keeps_drafts mutations ≡ true
    → Negative clients
    → Covered clients w.tasks
    → GoesOn clients (steps existing attempts clients mutations w)
unfolding steps
steps-GoesOn existing attempts clients [] w h n k = (w, refl, k)
steps-GoesOn existing attempts clients (mutation ∷ mutations) w h n k =
    let ((v, run, c), rest) = step-GoesOn existing attempts clients mutation mutations w h n k in
    let (u, run', c') = steps-GoesOn existing attempts clients mutations v rest n c in
    (u, ap (λ o. and_then_outcome o (steps existing attempts clients mutations)) run ∙ run', c')

-- A patch that removes tasks of the plan only, and no draft, is resolved: to a plan or to diagnostics.
pub resolve_patch-returns :
    (state : PlanState) (patch : PlanPatch)
    → keeps_drafts patch.mutations ≡ true
    → (result : Result ResolvedPlan Diags) × (resolve_patch state patch ≡ returns result)
unfolding resolve_patch
resolve_patch-returns state patch h =
    let clients = placeholders patch.mutations [] in
    let negative =
      placeholders-negative patch.mutations [] (λ name p e. absurd (ground (arith, e))) in
    let (u, first, keep, own) =
      drafts-Adds state.tasks clients patch.mutations (start state)
        (λ name a. placeholders-Has patch.mutations [] name (inl a)) in
    let covered : Covered clients u.tasks = λ name p g.
      elim (placeholders-adds patch.mutations [] name (p, g)) [
        | inl a ↦ own name p a g
        | inr (q, e) ↦ absurd (ground (arith, e))
      ] in
    let (w, second, c) =
      steps-GoesOn state.tasks state.attempts clients patch.mutations u h negative covered in
    let (b, settled, found, recomputed, last) = finish-returns state w in
    (
      _,
      ap
            (λ o. and_then_outcome o (λ v.
              and_then_outcome (steps state.tasks state.attempts clients patch.mutations v)
                (finish state)))
            first
          ∙ ap (λ o. and_then_outcome o (finish state)) second
          ∙ last,
    )
