-- ===== src/PlanEdit/Kept.antt =====
-- An accepted replan leaves a task alone that has started or finished.
use agentic_software_factory.Prelude.{
  ℕ, ◌≡◌, inl, inr, refl, ap, sym, subst, ◌∙◌, arith, Bool, true, false, not, Option, none, some,
  List, [], ◌∷◌, ◌++◌, length, filter, map, unwrap_or, Option-cases, Bool-cases, eq_of_some,
  if◌then◌else◌, ℤ, pos, negsuc, same_int, same_int→eq, has_int, greater, Str, str_eq, ok,
}
use agentic_software_factory.Planner.{PlannedTask, name}
use mathlib.Core.List.{append-nil}
use agentic_software_factory.PlanEdit.{
  Task, PlanState, ResolvedTask, ResolvedPlan, is_immutable, resolved_from_task, Clients, get,
}
use agentic_software_factory.PlanEdit.Calls.{returns}
use agentic_software_factory.PlanEdit.States.{mutable}
use agentic_software_factory.PlanEdit.Scope.{find_task}
use agentic_software_factory.PlanEdit.Scope.Scanning.{may_change, Affected, direct, further}
use agentic_software_factory.PlanEdit.Replan.{
  ReplanRequest, plan_placeholders, new_tasks, in_scope, splice, splice_after, remaining, earliest,
  replanned, resolve_replan,
}
use agentic_software_factory.PlanEdit.Alone.{
  of_id, of_id-append, moved, of_id-number_from, recompute_states-of_id,
}
use agentic_software_factory.PlanEdit.Immutable.{of_returns, not_panics}
use agentic_software_factory.PlanEdit.Unchanged.{split_returns}
use agentic_software_factory.PlanEdit.Accepted.{get-insert_client}
use agentic_software_factory.PlanEdit.Outcomes.{
  with_id, with_id-id, with_id-resolved, immutable-fixed,
}
use agentic_software_factory.PlanEdit.Replanned.{accepted_replan}

-- The new tasks have negative ids.
abbrev Negative : Clients → Type 0
Negative clients = (n : Str) (p : ℤ) → get clients n ≡ some p → (m : ℕ) × (p ≡ negsuc m)

plan_placeholders-Negative :
    (tasks : List PlannedTask) (clients : Clients)
    → Negative clients
    → Negative (plan_placeholders tasks clients)
unfolding plan_placeholders
plan_placeholders-Negative [] clients k = k
plan_placeholders-Negative (task ∷ tasks) clients k = plan_placeholders-Negative tasks _ (λ n p e.
    let e' = sym (get-insert_client (name task) n (negsuc (length clients)) clients) ∙ e in
    elim (Bool-cases (str_eq (name task) n)) [
      | inl t ↦ (length clients, sym (eq_of_some (rw t at e')))
      | inr f ↦ k n p (rw f at e')
    ])

new_tasks-apart :
    (clients : Clients) (tasks : List PlannedTask) (n : ℕ) (new : List ResolvedTask)
    → Negative clients
    → new_tasks clients tasks ≡ returns new
    → of_id (pos n) new ≡ []
unfolding new_tasks
new_tasks-apart clients [] n new k h = sym (ap (of_id (pos n)) (of_returns h))
new_tasks-apart clients (task ∷ tasks) n new k h = elim (Option-cases (get clients (name task))) [
  | inl e ↦ absurd (not_panics (rw (e, new_tasks) at h))
  | inr (p, e) ↦
      let (rest, built, whole) =
        split_returns (new_tasks clients tasks) _ new (rw (e, new_tasks) at h) in
      let (m, q) = k (name task) p e in
      let other : same_int p (pos n) ≡ false = ap (λ x. same_int x (pos n)) q in
      subst (λ l. of_id (pos n) l ≡ []) (of_returns whole)
        (rw other (new_tasks-apart clients tasks n rest k built))
]

splice_after-of_id :
    (id p : ℤ) (new tasks : List ResolvedTask)
    → of_id id new ≡ []
    → of_id id (splice_after p new tasks) ≡ of_id id tasks
splice_after-of_id id p new [] h = h
splice_after-of_id id p new (t ∷ tasks) h = elim (Bool-cases (greater t.position p)) [
  | inl e ↦ rw e (of_id-append id new (t ∷ tasks) ∙ ap (λ l. l ++ of_id id (t ∷ tasks)) h)
  | inr e ↦
      rw e (ap (λ l. if same_int t.id id then t ∷ l else l) (splice_after-of_id id p new tasks h))
]

splice-of_id :
    (id : ℤ) (o : Option ℤ) (new tasks : List ResolvedTask)
    → of_id id new ≡ []
    → of_id id (splice o new tasks) ≡ of_id id tasks
unfolding splice
splice-of_id id (some p) new tasks h = splice_after-of_id id p new tasks h
splice-of_id id none new tasks h =
    of_id-append id tasks new ∙ ap (λ l. of_id id tasks ++ l) h ∙ append-nil (of_id id tasks)

remaining-of_id :
    (id : ℤ) (scope : List ℤ) (tasks : List Task)
    → has_int scope id ≡ false
    → with_id id (filter (λ t. not (in_scope scope t)) tasks) ≡ with_id id tasks
remaining-of_id id scope [] h = refl
remaining-of_id id scope (t ∷ tasks) h = elim (Bool-cases (same_int t.id id)) [
  | inl e ↦
      let out : has_int scope t.id ≡ false =
        subst (λ x. has_int scope x ≡ false) (sym (same_int→eq t.id id e)) h in
      rw out (rw e (ap (λ l. t ∷ l) (remaining-of_id id scope tasks h)))
  | inr e ↦ elim (Bool-cases (has_int scope t.id)) [
    | inl s ↦ rw s (rw e (remaining-of_id id scope tasks h))
    | inr s ↦ rw s (rw e (remaining-of_id id scope tasks h))
  ]
]

with_id-find :
    (id : ℤ) (tasks rest : List Task) (t : Task)
    → with_id id tasks ≡ t ∷ rest
    → find_task tasks id ≡ some t
with_id-find id [] rest t h = cc
with_id-find id (u ∷ tasks) rest t h = elim (Bool-cases (same_int u.id id)) [
  | inl e ↦ rw e (ap some (head_task (rw e at h)))
  | inr e ↦ rw e (with_id-find id tasks rest t (rw e at h))
]
  where
    head_task : {x y : Task} {xs ys : List Task} → x ∷ xs ≡ y ∷ ys → x ≡ y
    head_task h = cc

Affected-may_change :
    (state : PlanState) (seed x : ℤ) → Affected state seed x → may_change state x ≡ true
Affected-may_change state seed x (direct k) = k.1
Affected-may_change state seed x (further a k) = k.1

-- If a task whose id is no placeholder stands once in the plan and has started or finished, then after
-- a replan that is accepted it stands once in the plan, and nothing of it has changed but its position.
pub replan-immutable-unchanged :
    (state : PlanState) (request : ReplanRequest) (plan : ResolvedPlan) (n : ℕ) (t : Task)
    → with_id (pos n) state.tasks ≡ t ∷ []
    → is_immutable t (unwrap_or (state.attempts t.id) 0) ≡ true
    → resolve_replan state request ≡ returns (ok plan)
    → (p : ℤ) × (of_id (pos n) plan.tasks ≡ moved (resolved_from_task t) p ∷ [])
replan-immutable-unchanged state request plan n t alone immutable h =
    let r = accepted_replan state request plan h in
    let clients = plan_placeholders request.plan.tasks [] in
    let new = r.new in
    let id_of = with_id-id (pos n) state.tasks [] t alone in
    let stays : may_change state (pos n) ≡ false =
      ap
        (λ o. elim o as (λ o. Bool) [
          | none ↦ false
          | some u ↦ not (is_immutable u (unwrap_or (state.attempts (pos n)) 0))
        ])
        (with_id-find (pos n) state.tasks [] t alone)
      ∙ ap not
          (subst (λ x. is_immutable t (unwrap_or (state.attempts x) 0) ≡ true) id_of immutable) in
    let out : has_int r.scope (pos n) ≡ false = elim (Bool-cases (has_int r.scope (pos n))) [
      | inr f ↦ f
      | inl i ↦
          absurd (
            ground (arith, stays, Affected-may_change state r.seed (pos n) ((r.exact (pos n)).0 i)))
    ] in
    let negative =
      plan_placeholders-Negative request.plan.tasks [] (λ m p e. absurd (ground (arith, e))) in
    let spliced : of_id (pos n)
          (splice (earliest r.scope state.tasks) new (remaining r.scope state.tasks))
        ≡ resolved_from_task t ∷ [] =
      splice-of_id (pos n) (earliest r.scope state.tasks) new (remaining r.scope state.tasks)
        (new_tasks-apart clients request.plan.tasks n new negative r.built)
      ∙ with_id-resolved (pos n) (filter (λ u. not (in_scope r.scope u)) state.tasks)
      ∙ ap (map resolved_from_task) (remaining-of_id (pos n) r.scope state.tasks out ∙ alone) in
    let (p, numbered) = of_id-number_from (pos n) 0 _ (resolved_from_task t) spliced in
    let (settled, recomputed, same, kept) =
      recompute_states-of_id (replanned state r.scope new) state.attempts in
    let plan_tasks : settled ≡ plan.tasks = of_returns (sym recomputed ∙ r.settled) in
    let fixed : has_int (mutable state.attempts (replanned state r.scope new)) (pos n) ≡ false =
      subst
        (λ x.
          of_id x (replanned state r.scope new) ≡ moved (resolved_from_task t) p ∷ []
          → has_int (mutable state.attempts (replanned state r.scope new)) x ≡ false)
        id_of
        (immutable-fixed state.attempts (resolved_from_task t) p (replanned state r.scope new)
          immutable refl)
        numbered in
    (p, sym (ap (of_id (pos n)) plan_tasks) ∙ same (pos n) fixed ∙ numbered)
