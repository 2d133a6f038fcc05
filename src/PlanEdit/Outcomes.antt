-- ===== src/PlanEdit/Outcomes.antt =====
-- What holds of every plan that a patch is accepted with.
use agentic_software_factory.Prelude.{
  ℕ, ◌≡◌, inl, inr, refl, ap, sym, subst, ◌∙◌, arith, Bool, true, false, ◌||◌, List, [], ◌∷◌,
  Option, some, none, eq_of_some, Bool-cases, any, filter, map, ℤ, pos, negsuc, same_int,
  same_int→eq, same_int_refl, has_int, ok,
}
use agentic_software_factory.PlanEdit.{
  Task, PlanPatch, PlanState, ResolvedTask, ResolvedPlan, has_task, is_working_immutable,
}
use agentic_software_factory.PlanEdit.Drafts.{Working, placeholders}
use agentic_software_factory.PlanEdit.Calls.{returns}
use agentic_software_factory.Prelude.{unwrap_or}
use agentic_software_factory.PlanEdit.{resolved_from_task, is_immutable}
use agentic_software_factory.PlanEdit.Patch.{start, resolve_patch, prune, pruned, reorder}
use agentic_software_factory.PlanEdit.Cycle.{by_id, dependencies_of}
use agentic_software_factory.PlanEdit.Cycle.Search.{Chain, one, more}
use agentic_software_factory.PlanEdit.Cycle.Decides.{has_cycle_iff}
use agentic_software_factory.PlanEdit.States.{mutable, is_mutable}
use agentic_software_factory.PlanEdit.Alone.{
  of_id, of_id-reorder, of_id-pruned, of_id-number_from, mutable-of_id, recompute_states-of_id,
  moved,
}
use agentic_software_factory.PlanEdit.Immutable.{Stands, of_returns}
use agentic_software_factory.PlanEdit.Unchanged.{steps-Keeps, drafts-Keeps}
use agentic_software_factory.PlanEdit.{rolls_on}
use agentic_software_factory.PlanEdit.States.{unsettled}
use agentic_software_factory.TaskState.{TaskState, running}
use agentic_software_factory.PlanEdit.Accepted.{
  arranged, Accepts, accepted-Accepts, placeholders-negative,
}

filter-all :
    (p : ℤ → Bool) (ds : List ℤ) → ((d : ℤ) → has_int ds d ≡ true → p d ≡ true) → filter p ds ≡ ds
filter-all p [] k = refl
filter-all p (d ∷ ds) k =
    rw (k d (ground (arith, same_int_refl d)))
      (ap (λ w. d ∷ w) (filter-all p ds (λ e h. k e (ground (arith, h)))))

rolls_on-unsettled : (s : TaskState) → rolls_on s ≡ true → unsettled s ≡ false
rolls_on-unsettled running h = refl
rolls_on-unsettled _ h = ground (arith, h)

-- The tasks of a plan with an id.
abbrev pub with_id : ℤ → List Task → List Task
with_id id tasks = filter (λ t. same_int (Task.id t) id) tasks

pub with_id-resolved :
    (id : ℤ) (tasks : List Task)
    → of_id id (map resolved_from_task tasks) ≡ map resolved_from_task (with_id id tasks)
with_id-resolved id [] = refl
with_id-resolved id (t ∷ tasks) = elim (Bool-cases (same_int t.id id)) [
  | inl e ↦ rw e (ap (λ w. resolved_from_task t ∷ w) (with_id-resolved id tasks))
  | inr e ↦ rw e (with_id-resolved id tasks)
]

pub with_id-id :
    (id : ℤ) (tasks rest : List Task) (t : Task) → with_id id tasks ≡ t ∷ rest → t.id ≡ id
with_id-id id [] rest t h = cc
with_id-id id (u ∷ tasks) rest t h = elim (Bool-cases (same_int u.id id)) [
  | inl e ↦ ap Task.id (sym (head_task (rw e at h))) ∙ same_int→eq u.id id e
  | inr e ↦ with_id-id id tasks rest t (rw e at h)
]
  where
    head_task : {x y : Task} {xs ys : List Task} → x ∷ xs ≡ y ∷ ys → x ≡ y
    head_task h = cc

resolved-has_task :
    (tasks : List Task) (d : ℤ)
    → has_task (map resolved_from_task tasks) d ≡ any (λ u. same_int (Task.id u) d) tasks
resolved-has_task [] d = refl
resolved-has_task (t ∷ tasks) d = ap (λ w. same_int t.id d || w) (resolved-has_task tasks d)

-- A task that has started or finished is not one whose state is computed.
pub immutable-fixed :
    (attempts : ℤ → Option ℕ) (r : ResolvedTask) (p : ℤ) (tasks : List ResolvedTask)
    → is_working_immutable r attempts ≡ true
    → r.insert ≡ false
    → of_id r.id tasks ≡ moved r p ∷ []
    → has_int (mutable attempts tasks) r.id ≡ false
immutable-fixed attempts r p tasks immutable old alone =
    mutable-of_id attempts r.id tasks
    ∙ ap (any (is_mutable attempts)) alone
    ∙ ground (arith, old, immutable, rolls_on-unsettled r.state)

-- What stands after the operations stands in the plan, but for its position.
Stands-settled :
    (state : PlanState) (w : Working) (plan : ResolvedPlan) (r : ResolvedTask)
    (immutable : is_working_immutable r state.attempts ≡ true)
    → r.insert ≡ false
    → Stands state.attempts r immutable w
    → Accepts state w plan
    → (p : ℤ) × (of_id r.id plan.tasks ≡ moved r p ∷ [])
unfolding prune
Stands-settled state w plan r immutable old s a =
    let kept : pruned w.tasks r ≡ r =
      ap (λ ds. record r { dependencies = ds })
        (filter-all (has_task w.tasks) r.dependencies s.live) in
    let in_pruned : of_id r.id (prune w.tasks) ≡ r ∷ [] =
      of_id-pruned r.id w.tasks w.tasks
      ∙ ap (map (pruned w.tasks)) s.alone
      ∙ ap (λ x. x ∷ []) kept in
    let (p, numbered) =
      of_id-number_from r.id 0 (reorder w.reorders (prune w.tasks)) r
        (of_id-reorder r.id w.reorders (prune w.tasks) s.unmoved ∙ in_pruned) in
    let (settled, recomputed, same, kept) = recompute_states-of_id (arranged w) state.attempts in
    let plan_tasks : settled ≡ plan.tasks = of_returns (sym recomputed ∙ a.settled) in
    (
      p,
      sym (ap (of_id r.id) plan_tasks)
          ∙ same r.id (immutable-fixed state.attempts r p (arranged w) immutable old numbered)
          ∙ numbered,
    )

Chain-same :
    (a b : List ResolvedTask) {x y : ℤ}
    → ((z : ℤ) → by_id a z ≡ by_id b z)
    → Chain a x y
    → Chain b x y
unfolding dependencies_of
Chain-same a b {x} {y} k (one dep) = one (
    subst (λ o. has_int (elim o as (λ o. List ℤ) [ none ↦ [] | some deps ↦ deps ]) y ≡ true) (k x)
      dep)
Chain-same a b {x} {y} k (more {y = m} p dep) = more (Chain-same a b k p) (
    subst (λ o. has_int (elim o as (λ o. List ℤ) [ none ↦ [] | some deps ↦ deps ]) y ≡ true) (k m)
      dep)

-- In the plan that a patch is accepted with, no task depends on itself, through others or not.
pub accepted-acyclic :
    (state : PlanState) (patch : PlanPatch) (plan : ResolvedPlan) (x : ℤ)
    → resolve_patch state patch ≡ returns (ok plan)
    → ¬ (Chain plan.tasks x x)
accepted-acyclic state patch plan x h p =
    let (u, w, first, second, a) = accepted-Accepts state patch plan h in
    let (b, found, cyclic) = has_cycle_iff (arranged w) in
    let (settled, recomputed, same, kept) = recompute_states-of_id (arranged w) state.attempts in
    let plan_tasks : settled ≡ plan.tasks = of_returns (sym recomputed ∙ a.settled) in
    let there =
      Chain-same plan.tasks (arranged w) (λ z. ap (λ l. by_id l z) (sym plan_tasks) ∙ kept z) p in
    let is_false : b ≡ false = eq_of_some (sym found ∙ a.acyclic) in
    absurd (ground (arith, is_false, cyclic.1 (x, there)))

-- If a task whose id is no placeholder stands once in the plan, has started or finished, and depends
-- on tasks of the plan only, then after a patch that is accepted it stands once in the plan, and
-- nothing of it has changed but its position.
pub immutable-unchanged :
    (state : PlanState) (patch : PlanPatch) (plan : ResolvedPlan) (n : ℕ) (t : Task)
    → with_id (pos n) state.tasks ≡ t ∷ []
    → ((d : ℤ)
        → has_int t.dependencies d ≡ true
        → any (λ u. same_int (Task.id u) d) state.tasks ≡ true)
    → is_immutable t (unwrap_or (state.attempts t.id) 0) ≡ true
    → resolve_patch state patch ≡ returns (ok plan)
    → (p : ℤ) × (of_id (pos n) plan.tasks ≡ moved (resolved_from_task t) p ∷ [])
immutable-unchanged state patch plan n t alone live immutable h =
    let r = resolved_from_task t in
    let id_of = with_id-id (pos n) state.tasks [] t alone in
    let (u, w, first, second, a) = accepted-Accepts state patch plan h in
    let negative =
      placeholders-negative patch.mutations [] (λ name p e. absurd (ground (arith, e))) in
    let drafted =
      drafts-Keeps state.attempts r immutable state.tasks (placeholders patch.mutations [])
        patch.mutations (start state) u
        (λ name p e.
          let (m, q) = negative name p e in
          ap (λ x. same_int x t.id) q ∙ ap (same_int (negsuc m)) id_of)
        first in
    let changed =
      steps-Keeps state.attempts r immutable state.tasks (placeholders patch.mutations [])
        patch.mutations u w second in
    let began : Stands state.attempts r immutable (start state) = record {
      alone =
          with_id-resolved t.id state.tasks
          ∙ ap (map resolved_from_task) (ap (λ x. with_id x state.tasks) id_of ∙ alone);
      live = λ d z. resolved-has_task state.tasks d ∙ live d z;
      unmoved = refl;
    } in
    let stands = changed.stands a.quiet (drafted.stands (changed.quiet a.quiet) began) in
    let (p, found) = Stands-settled state w plan r immutable refl stands a in
    (p, subst (λ x. of_id x plan.tasks ≡ moved r p ∷ []) id_of found)
