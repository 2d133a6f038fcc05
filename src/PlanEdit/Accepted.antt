-- ===== src/PlanEdit/Accepted.antt =====
-- What `resolve_patch` returns when it accepts a patch.
use agentic_software_factory.Prelude.{
  ℕ, ◌≡◌, inl, inr, refl, ap, sym, subst, ◌∙◌, arith, Bool, true, false, List, [], ◌∷◌, ◌++◌, some,
  eq_of_some, Bool-cases, is_empty, if◌then◌else◌, ℤ, negsuc, Result, ok, err, Str,
}
use agentic_software_factory.PlanEdit.{
  PlanMutation, PlanPatch, PlanState, ResolvedTask, ResolvedPlan, Clients, get, Diags, add_task,
  update_task, remove_task, add_dependency, remove_dependency, reorder_task,
}
use agentic_software_factory.PlanEdit.Drafts.{Working, add_drafts, placeholders}
use agentic_software_factory.PlanEdit.Calls.{returns}
use agentic_software_factory.Prelude.{length, str_eq, str_eq→eq, str_eq_refl, next_i64}
use agentic_software_factory.PlanEdit.{insert_client}
use agentic_software_factory.PlanEdit.Steps.{steps}
use agentic_software_factory.PlanEdit.Patch.{
  finish, start, resolve_patch, prune, reorder, number_from,
}
use agentic_software_factory.PlanEdit.Cycle.{has_cycle, detect_cycle, cycle_diags}
use agentic_software_factory.PlanEdit.Cycle.Decides.{has_cycle_iff}
use agentic_software_factory.PlanEdit.States.{recompute_states}
use agentic_software_factory.PlanEdit.Alone.{recompute_states-of_id}
use agentic_software_factory.PlanEdit.Immutable.{of_returns, empty-append}
use agentic_software_factory.PlanEdit.Unchanged.{split_returns}

abbrev pub arranged : Working → List ResolvedTask
arranged w = number_from 0 (reorder w.reorders (prune w.tasks))

-- The end of a patch returns, whatever came before.
pub finish-returns :
    (state : PlanState) (w : Working)
    → (b : Bool) × (settled : List ResolvedTask) × (has_cycle (arranged w) ≡ some b)
      × (recompute_states (arranged w) state.attempts ≡ returns settled)
      × (finish state w
          ≡ returns (
              if is_empty (w.diags ++ cycle_diags b)
              then ok (record {
                revision = next_i64 state.revision;
                objective = state.objective;
                tasks = settled;
                removed = w.removed;
                superseded = [];
              })
              else err (w.diags ++ cycle_diags b)))
unfolding finish
finish-returns state w =
    let (b, found, cyclic) = has_cycle_iff (arranged w) in
    let (settled, recomputed, same, kept) = recompute_states-of_id (arranged w) state.attempts in
    (b, settled, found, recomputed, rw (found, recomputed, finish, detect_cycle) refl)

-- What an accepted patch returns.
pub record Accepts (state : PlanState) (w : Working) (plan : ResolvedPlan) : Type 0 where
  pub quiet : is_empty w.diags ≡ true
  pub acyclic : has_cycle (arranged w) ≡ some false
  pub settled : recompute_states (arranged w) state.attempts ≡ returns plan.tasks
  pub revision : plan.revision ≡ next_i64 state.revision
  pub objective : plan.objective ≡ state.objective

finish-Accepts :
    (state : PlanState) (w : Working) (plan : ResolvedPlan)
    → finish state w ≡ returns (ok plan)
    → Accepts state w plan
finish-Accepts state w plan h =
    let (b, settled, found, recomputed, run) = finish-returns state w in
    elim (Bool-cases (is_empty (w.diags ++ cycle_diags b))) [
      | inr e ↦ absurd (not_ok (of_returns (sym (rw e at run) ∙ h)))
      | inl e ↦
          let same = of_ok (of_returns (sym (rw e at run) ∙ h)) in
          record {
            quiet = (empty-append w.diags (cycle_diags b) e).0;
            acyclic = found ∙ ap some (no_cycle b ((empty-append w.diags (cycle_diags b) e).1));
            settled = recomputed ∙ ap (λ (p : ResolvedPlan). returns p.tasks) same;
            revision = ap ResolvedPlan.revision (sym same);
            objective = ap ResolvedPlan.objective (sym same);
          }
    ]
  where
    no_cycle : (b : Bool) → is_empty (cycle_diags b) ≡ true → b ≡ false
    no_cycle b h = ground (arith, h)

    not_ok : {a : ResolvedPlan} {e : Diags} → ¬ (◌≡◌ {A = Result ResolvedPlan Diags} (err e) (ok a))
    not_ok h = cc

    of_ok : {a b : ResolvedPlan} → ◌≡◌ {A = Result ResolvedPlan Diags} (ok a) (ok b) → a ≡ b
    of_ok h = cc

-- A patch that is accepted goes through the operations, and ends there.
pub accepted-Accepts :
    (state : PlanState) (patch : PlanPatch) (plan : ResolvedPlan)
    → resolve_patch state patch ≡ returns (ok plan)
    → (u : Working) × (w : Working) × (add_drafts state.tasks
          (placeholders patch.mutations [])
          patch.mutations
          (start state)
        ≡ returns u)
      × (steps state.tasks state.attempts (placeholders patch.mutations []) patch.mutations u
          ≡ returns w)
      × Accepts state w plan
unfolding resolve_patch
accepted-Accepts state patch plan h =
    let clients = placeholders patch.mutations [] in
    let (u, first, later) =
      split_returns (add_drafts state.tasks clients patch.mutations (start state)) _ (ok plan) h in
    let (w, second, last) =
      split_returns (steps state.tasks state.attempts clients patch.mutations u) (finish state)
        (ok plan) later in
    (u, w, first, second, finish-Accepts state w plan last)

-- `get` after `insert`.
pub get-insert_client :
    (name other : Str) (v : ℤ) (clients : Clients)
    → get (insert_client name v clients) other
      ≡ (if str_eq name other then some v else get clients other)
get-insert_client name other v [] = refl
get-insert_client name other v (entry ∷ clients) = elim (Bool-cases (str_eq (entry.0) name)) [
  | inl e ↦ rw e (same_key (sym (str_eq→eq (entry.0) name e)))
  | inr e ↦ rw e (elim (Bool-cases (str_eq (entry.0) other)) [
    | inl f ↦ rw f (other_key e f)
    | inr f ↦ rw f (get-insert_client name other v clients)
  ])
]
  where
    same_key :
        name ≡ entry.0
        → (if str_eq name other then some v else get clients other)
          ≡ (if str_eq name other then some v else get (entry ∷ clients) other)
    same_key e = elim (Bool-cases (str_eq name other)) [
      | inl t ↦ rw t refl
      | inr f ↦ rw f (rw (subst (λ w. str_eq w other ≡ false) e f) refl)
    ]

    other_key :
        str_eq (entry.0) name ≡ false
        → str_eq (entry.0) other ≡ true
        → some (entry.1) ≡ (if str_eq name other then some v else some (entry.1))
    other_key e f = elim (Bool-cases (str_eq name other)) [
      | inl t ↦ absurd (
          ground (
            arith,
            e,
            subst (λ w. str_eq (entry.0) w ≡ true)
                (str_eq→eq (entry.0) other f ∙ sym (str_eq→eq name other t))
                (str_eq_refl (entry.0)),
          ))
      | inr t ↦ rw t refl
    ]

-- Every placeholder is negative.
pub placeholders-negative :
    (mutations : List PlanMutation) (clients : Clients)
    → ((name : Str) (p : ℤ) → get clients name ≡ some p → (n : ℕ) × (p ≡ negsuc n))
    → (name : Str) (p : ℤ) → get (placeholders mutations clients) name ≡ some p
    → (n : ℕ) × (p ≡ negsuc n)
unfolding placeholders
placeholders-negative [] clients k = k
placeholders-negative (add_task draft ∷ mutations) clients k =
    placeholders-negative mutations _ (λ name p e. inserted clients k name p e)
  where
    inserted :
        (clients : Clients)
        → ((name : Str) (p : ℤ) → get clients name ≡ some p → (n : ℕ) × (p ≡ negsuc n))
        → (name : Str) (p : ℤ)
        → get (insert_client draft.client_id (negsuc (length clients)) clients) name ≡ some p
        → (n : ℕ) × (p ≡ negsuc n)
    inserted clients k name p e =
        let e' =
          sym (get-insert_client draft.client_id name (negsuc (length clients)) clients) ∙ e in
        elim (Bool-cases (str_eq draft.client_id name)) [
          | inl t ↦ (length clients, sym (eq_of_some (rw t at e')))
          | inr f ↦ k name p (rw f at e')
        ]
placeholders-negative (update_task task u ∷ mutations) clients k =
    placeholders-negative mutations clients k
placeholders-negative (remove_task task ∷ mutations) clients k =
    placeholders-negative mutations clients k
placeholders-negative (add_dependency task d ∷ mutations) clients k =
    placeholders-negative mutations clients k
placeholders-negative (remove_dependency task d ∷ mutations) clients k =
    placeholders-negative mutations clients k
placeholders-negative (reorder_task task n ∷ mutations) clients k =
    placeholders-negative mutations clients k
