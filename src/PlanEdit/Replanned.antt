-- ===== src/PlanEdit/Replanned.antt =====
-- What a replan comes to: it returns, and when it is accepted it replaces the scope and leaves what
-- has started or finished.
use agentic_software_factory.Prelude.{
  ◌⊎◌, ◌∷◌, map, contains, Str, str_eq, str_eq_refl, ◌≡◌, ◌↔◌, inl, inr, refl, ap, sym, subst, ◌∙◌,
  arith, true, Option, none, some, List, [], ◌++◌, is_empty, next_i64, trim, Option-cases,
  Bool-cases, eq_of_some, if◌then◌else◌, ℤ, has_int, Result, ok, err,
}
use agentic_software_factory.PlanEdit.{
  Task, TaskRef, id_ref, client_ref, ref_id, PlanState, ResolvedTask, ResolvedPlan, Diags,
}
use agentic_software_factory.PlanEdit.Calls.{returns, then-returns}
use agentic_software_factory.PlanEdit.Cycle.{detect_cycle, cycle_diags}
use agentic_software_factory.PlanEdit.Cycle.Decides.{has_cycle_iff}
use agentic_software_factory.PlanEdit.States.{recompute_states}
use agentic_software_factory.PlanEdit.Scope.{find_task}
use agentic_software_factory.PlanEdit.Scope.Reached.{mutable_scope_iff}
use agentic_software_factory.PlanEdit.Scope.Scanning.{Affected}
use agentic_software_factory.PlanEdit.Replan.{
  ReplanRequest, plan_placeholders, new_task, new_tasks, replan_diags, replanned, replan_from,
  unknown_seed, seed_of, resolve_replan,
}
use agentic_software_factory.PlanEdit.Alone.{recompute_states-of_id}
use agentic_software_factory.PlanEdit.Immutable.{of_returns}
use agentic_software_factory.PlanEdit.Placed.{Has, insert_client-Has}
use agentic_software_factory.PlanEdit.{Clients}
use agentic_software_factory.Planner.{PlannedTask, name}

-- The plan that a replan is accepted with.
abbrev replan :
    PlanState → ReplanRequest → List ℤ → Diags → List ResolvedTask → Result ResolvedPlan Diags
replan state request scope diags settled =
    if is_empty diags
    then ok (record {
      revision = next_i64 state.revision;
      objective = trim request.plan.objective;
      tasks = settled;
      removed = [];
      superseded = scope;
    })
    else err diags

-- Every planned task has a placeholder.
plan_placeholders-Has :
    (tasks : List PlannedTask) (clients : Clients) (n : Str)
    → (contains (map name tasks) n ≡ true) ⊎ Has clients n
    → Has (plan_placeholders tasks clients) n
unfolding plan_placeholders
plan_placeholders-Has [] clients n (inl h) = absurd (ground (arith, h))
plan_placeholders-Has [] clients n (inr h) = h
plan_placeholders-Has (task ∷ tasks) clients n h =
    plan_placeholders-Has tasks _ n (elim (Bool-cases (str_eq (name task) n)) [
      | inl e ↦ inr (insert_client-Has (name task) n _ clients (inl e))
      | inr e ↦ elim h [
        | inl i ↦ inl (ground (arith, i, e))
        | inr g ↦ inr (insert_client-Has (name task) n _ clients (inr g))
      ]
    ])

new_tasks-returns :
    (clients : Clients) (tasks : List PlannedTask)
    → ((n : Str) → contains (map name tasks) n ≡ true → Has clients n)
    → (new : List ResolvedTask) × (new_tasks clients tasks ≡ returns new)
unfolding new_tasks
new_tasks-returns clients [] k = ([], refl)
new_tasks-returns clients (task ∷ tasks) k =
    let (p, e) = k (name task) (ground (arith, str_eq_refl (name task))) in
    let (new, run) = new_tasks-returns clients tasks (λ n h. k n (ground (arith, h))) in
    (new_task clients task p ∷ new, rw (e, new_tasks) (then-returns _ run))

replan_from-returns :
    (state : PlanState) (request : ReplanRequest) (seed_id : ℤ) (seed_task : Task) (scope : List ℤ)
    → (diags : Diags) × (new : List ResolvedTask) × (settled : List ResolvedTask) × (new_tasks
          (plan_placeholders request.plan.tasks [])
          request.plan.tasks
        ≡ returns new)
      × (recompute_states (replanned state scope new) state.attempts ≡ returns settled)
      × (replan_from state request seed_id seed_task scope
          ≡ returns (replan state request scope diags settled))
unfolding replan_from
replan_from-returns state request seed_id seed_task scope =
    let clients = plan_placeholders request.plan.tasks [] in
    let (new, built) =
      new_tasks-returns clients request.plan.tasks
        (λ n h. plan_placeholders-Has request.plan.tasks [] n (inl h)) in
    let (b, found, cyclic) = has_cycle_iff new in
    let (settled, recomputed, same, kept) =
      recompute_states-of_id (replanned state scope new) state.attempts in
    (
      replan_diags state request seed_id seed_task scope clients ++ cycle_diags b,
      new,
      settled,
      built,
      recomputed,
      then-returns _ built ∙ rw (found, recomputed, detect_cycle) refl,
    )

-- A replan is resolved, to a plan or to diagnostics: no loop outlives its fuel, and no `expect` on a
-- task, a dependent, a degree or a placeholder that is looked up fails.
pub resolve_replan-returns :
    (state : PlanState) (request : ReplanRequest)
    → (result : Result ResolvedPlan Diags) × (resolve_replan state request ≡ returns result)
unfolding resolve_replan
resolve_replan-returns state request = elim (Option-cases (seed_of state request)) [
  | inl e ↦ (err (unknown_seed request.seed), rw (e, resolve_replan) refl)
  | inr (seed, e) ↦
      let (scope, found, exact) = mutable_scope_iff state (seed.0) in
      let (diags, new, settled, built, recomputed, run) =
        replan_from-returns state request (seed.0) (seed.1) scope in
      (replan state request scope diags settled, rw (e, found, resolve_replan) run)
]

-- What an accepted replan went through.
pub record Replaces (state : PlanState) (request : ReplanRequest) (plan : ResolvedPlan)
    : Type 0 where
  pub seed : ℤ
  pub known : request.seed ≡ id_ref seed
  pub scope : List ℤ
  pub exact : (x : ℤ) → (has_int scope x ≡ true) ↔ Affected state seed x
  pub superseded : plan.superseded ≡ scope
  pub new : List ResolvedTask
  pub built : new_tasks (plan_placeholders request.plan.tasks []) request.plan.tasks ≡ returns new
  pub settled : recompute_states (replanned state scope new) state.attempts ≡ returns plan.tasks

seed_ref :
    (state : PlanState) (tref : TaskRef) (seed : ℤ × Task)
    → elim (ref_id tref) as (λ o. Option (ℤ × Task)) [
      | none ↦ none
      | some id ↦ elim (find_task state.tasks id) as (λ o. Option (ℤ × Task)) [
        | none ↦ none
        | some t ↦ some (id, t)
      ]
    ]
      ≡ some seed
    → tref ≡ id_ref (seed.0)
seed_ref state (client_ref c) seed h = cc
seed_ref state (id_ref n) seed h = elim (Option-cases (find_task state.tasks n)) [
  | inl e ↦ absurd (ground (arith, rw e at h))
  | inr (t, e) ↦ ap id_ref (ap (λ (x : ℤ × Task). x.0) (eq_of_some (rw e at h)))
]

pub accepted_replan :
    (state : PlanState) (request : ReplanRequest) (plan : ResolvedPlan)
    → resolve_replan state request ≡ returns (ok plan)
    → Replaces state request plan
unfolding resolve_replan
accepted_replan state request plan h = elim (Option-cases (seed_of state request)) [
  | inl e ↦ absurd (not_ok (of_returns (rw (e, resolve_replan) at h)))
  | inr (seed, e) ↦
      let (scope, found, exact) = mutable_scope_iff state (seed.0) in
      let (diags, new, settled, built, recomputed, run) =
        replan_from-returns state request (seed.0) (seed.1) scope in
      let same = of_returns (sym run ∙ (rw (e, found, resolve_replan) at h)) in
      elim (Bool-cases (is_empty diags)) [
        | inr f ↦ absurd (not_ok (rw f at same))
        | inl t ↦
            let plan_is = of_ok (rw t at same) in
            record {
              seed = seed.0;
              known = seed_ref state request.seed seed e;
              scope = scope;
              exact = exact;
              superseded = ap ResolvedPlan.superseded (sym plan_is);
              new = new;
              built = built;
              settled = recomputed ∙ ap (λ (p : ResolvedPlan). returns p.tasks) plan_is;
            }
      ]
]
  where
    not_ok : {a : ResolvedPlan} {e : Diags} → ¬ (◌≡◌ {A = Result ResolvedPlan Diags} (err e) (ok a))
    not_ok h = cc

    of_ok : {a b : ResolvedPlan} → ◌≡◌ {A = Result ResolvedPlan Diags} (ok a) (ok b) → a ≡ b
    of_ok h = cc

-- An accepted replan supersedes a task exactly when it is reached from the seed by dependents that
-- may all still change.
pub replan-superseded :
    (state : PlanState) (request : ReplanRequest) (plan : ResolvedPlan) (seed : ℤ)
    → request.seed ≡ id_ref seed
    → resolve_replan state request ≡ returns (ok plan)
    → (x : ℤ) → (has_int plan.superseded x ≡ true) ↔ Affected state seed x
replan-superseded state request plan seed e h x =
    let r = accepted_replan state request plan h in
    let same : r.seed ≡ seed = id_ref-injective (sym r.known ∙ e) in
    subst (λ s. (has_int plan.superseded x ≡ true) ↔ Affected state s x) same
      (subst (λ l. (has_int l x ≡ true) ↔ Affected state r.seed x) (sym r.superseded) (r.exact x))
  where
    id_ref-injective : {a b : ℤ} → id_ref a ≡ id_ref b → a ≡ b
    id_ref-injective h = cc
