-- ===== src/PlanEdit/Unchanged.antt =====
-- What an accepted patch comes to for a task that has started or finished.
use agentic_software_factory.Prelude.{
  ℕ, ◌≡◌, inl, inr, refl, ap, subst, ◌∙◌, arith, true, false, List, [], ◌∷◌, ◌++◌, Option, some,
  Option-cases, any-append, is_empty, ℤ, same_int, Str,
}
use agentic_software_factory.PlanEdit.{
  Task, TaskRef, Draft, PlanMutation, ResolvedTask, Clients, get, Diags, is_working_immutable,
  add_task, update_task, remove_task, add_dependency, remove_dependency, reorder_task,
}
use agentic_software_factory.PlanEdit.Drafts.{Working, add_draft, add_drafts}
use agentic_software_factory.PlanEdit.Calls.{
  Outcome, returns, panics, out_of_fuel, and_then_outcome,
}
use agentic_software_factory.PlanEdit.Steps.{step, steps}
use agentic_software_factory.PlanEdit.Alone.{of_id, of_id-append}
use agentic_software_factory.PlanEdit.Drafts.{draft_dependency, draft_dependencies}
use agentic_software_factory.PlanEdit.Immutable.{
  of_returns, not_panics, Keeps, Keeps-refl, Keeps-trans, empty-append, update-Keeps, reorder-Keeps,
  remove-Keeps, dependency-Keeps,
}

pub split_returns :
    {A B : Type 0} (o : Outcome B) (f : B → Outcome A) (a : A)
    → and_then_outcome o f ≡ returns a
    → (w : B) × (o ≡ returns w) × (f w ≡ returns a)
split_returns (returns w) f a h = (w, refl, h)
split_returns panics f a h = absurd (not_panics h)
split_returns out_of_fuel f a h = cc

module _ (attempts : ℤ → Option ℕ) (r : ResolvedTask)
    (immutable : is_working_immutable r attempts ≡ true) where
  step-Keeps :
      (existing : List Task) (clients : Clients) (mutation : PlanMutation) (w v : Working)
      → step existing attempts clients mutation w ≡ returns v
      → Keeps attempts r immutable w v
  unfolding step
  step-Keeps existing clients (add_task draft) w v h =
      subst (Keeps attempts r immutable w) (of_returns h) (Keeps-refl attempts r immutable w)
  step-Keeps existing clients (update_task task u) w v h =
      update-Keeps attempts r immutable clients task u w v h
  step-Keeps existing clients (remove_task task) w v h =
      remove-Keeps attempts r immutable clients task w v h
  step-Keeps existing clients (add_dependency task depends_on) w v h =
      dependency-Keeps attempts r immutable existing clients true task depends_on w v h
  step-Keeps existing clients (remove_dependency task depends_on) w v h =
      dependency-Keeps attempts r immutable existing clients false task depends_on w v h
  step-Keeps existing clients (reorder_task task position) w v h =
      reorder-Keeps attempts r immutable clients task position w v h

  pub steps-Keeps :
      (existing : List Task) (clients : Clients) (mutations : List PlanMutation) (w v : Working)
      → steps existing attempts clients mutations w ≡ returns v
      → Keeps attempts r immutable w v
  unfolding steps
  steps-Keeps existing clients [] w v h =
      subst (Keeps attempts r immutable w) (of_returns h) (Keeps-refl attempts r immutable w)
  steps-Keeps existing clients (mutation ∷ mutations) w v h =
      let (u, first, later) =
        split_returns (step existing attempts clients mutation w)
          (steps existing attempts clients mutations) v h in
      Keeps-trans attempts r immutable (step-Keeps existing clients mutation w u first)
        (steps-Keeps existing clients mutations u v later)

  -- The placeholders are other ids.
  abbrev pub Apart : Clients → Type 0
  Apart clients = (name : Str) (p : ℤ) → get clients name ≡ some p → same_int p r.id ≡ false

  dependencies-quiet :
      (existing : List Task) (tasks : List ResolvedTask) (clients : Clients) (tref : TaskRef)
      (placeholder : ℤ) (deps : List TaskRef) (found : List ℤ) (ds : Diags)
      → is_empty ((draft_dependencies existing tasks clients tref placeholder deps (found, ds)).1)
        ≡ true
      → is_empty ds ≡ true
  dependencies-quiet existing tasks clients tref placeholder [] found ds h = h
  dependencies-quiet existing tasks clients tref placeholder (dep ∷ deps) found ds h =
      one_quiet ds (dependencies-quiet existing tasks clients tref placeholder deps _ _ h)
    where
      one_quiet :
          (ds : Diags)
          → is_empty ((draft_dependency existing tasks clients tref placeholder dep (found, ds)).1)
            ≡ true
          → is_empty ds ≡ true
      one_quiet [] q = refl
      one_quiet (d ∷ ds) q = ground (arith, q)

  snoc_other :
      (tasks : List ResolvedTask) (t : ResolvedTask)
      → of_id r.id tasks ≡ r ∷ []
      → same_int t.id r.id ≡ false
      → of_id r.id (tasks ++ t ∷ []) ≡ r ∷ []
  snoc_other tasks t h d =
      of_id-append r.id tasks (t ∷ []) ∙ ap (λ l. l ++ of_id r.id (t ∷ [])) h ∙ rw d refl

  draft-Keeps :
      (existing : List Task) (clients : Clients) (draft : Draft) (w v : Working)
      → Apart clients
      → add_draft existing clients draft w ≡ returns v
      → Keeps attempts r immutable w v
  unfolding add_draft
  draft-Keeps existing clients draft w v k h = elim (Option-cases (get clients draft.client_id)) [
    | inl e ↦ absurd (not_panics (rw (e, add_draft) at h))
    | inr (p, e) ↦
        subst (Keeps attempts r immutable w) (of_returns (rw (e, add_draft) at h)) (record {
          quiet = λ q.
              (empty-append w.diags _
                (dependencies-quiet existing w.tasks clients _ p draft.dependencies [] _ q)).0;
          stands = λ q s. record {
            alone = snoc_other w.tasks _ s.alone (k draft.client_id p e);
            live = λ d z.
                any-append (λ t. same_int (ResolvedTask.id t) d) w.tasks _
                ∙ ground (arith, s.live d z);
            unmoved = s.unmoved;
          };
        })
  ]

  pub drafts-Keeps :
      (existing : List Task) (clients : Clients) (mutations : List PlanMutation) (w v : Working)
      → Apart clients
      → add_drafts existing clients mutations w ≡ returns v
      → Keeps attempts r immutable w v
  unfolding add_drafts
  drafts-Keeps existing clients [] w v k h =
      subst (Keeps attempts r immutable w) (of_returns h) (Keeps-refl attempts r immutable w)
  drafts-Keeps existing clients (add_task draft ∷ mutations) w v k h =
      let (u, first, later) =
        split_returns (add_draft existing clients draft w) (add_drafts existing clients mutations) v
          h in
      Keeps-trans attempts r immutable (draft-Keeps existing clients draft w u k first)
        (drafts-Keeps existing clients mutations u v k later)
  drafts-Keeps existing clients (update_task task u ∷ mutations) w v k h =
      drafts-Keeps existing clients mutations w v k h
  drafts-Keeps existing clients (remove_task task ∷ mutations) w v k h =
      drafts-Keeps existing clients mutations w v k h
  drafts-Keeps existing clients (add_dependency task depends_on ∷ mutations) w v k h =
      drafts-Keeps existing clients mutations w v k h
  drafts-Keeps existing clients (remove_dependency task depends_on ∷ mutations) w v k h =
      drafts-Keeps existing clients mutations w v k h
  drafts-Keeps existing clients (reorder_task task position ∷ mutations) w v k h =
      drafts-Keeps existing clients mutations w v k h
