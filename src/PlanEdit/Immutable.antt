-- ===== src/PlanEdit/Immutable.antt =====
-- A patch that is accepted leaves a task alone that has started or finished.
use agentic_software_factory.Prelude.{
  ℕ, ◌≡◌, ◌≢◌, inl, inr, refl, ap, sym, subst, ◌∙◌, arith, Bool, true, false, List, [], ◌∷◌, ◌++◌,
  Option, some, Option-cases, eq_of_some, Bool-cases, any, any-append, is_empty, if◌then◌else◌, ℤ,
  same_int, same_int→eq, same_int_sym, has_int, Str,
}
use agentic_software_factory.PlanEdit.{
  Task, TaskRef, Update, PlanDiagnostic, ResolvedTask, find, has_task, Clients, resolve_id, Diags,
  is_working_immutable,
}
use agentic_software_factory.PlanEdit.Drafts.{
  Working, pushed, immutable_task, unknown_task, was_superseded,
}
use agentic_software_factory.PlanEdit.Calls.{returns, panics}
use agentic_software_factory.PlanEdit.Steps.{
  on_mutable, update_step, remove_step, handle_dependency, reorder_step, replace_first, updated,
  holds_back, change_dependency,
}
use agentic_software_factory.PlanEdit.Alone.{
  of_id, of_id-find, find-id, of_id-replace_first, of_id-remove_all, has_task-replace_first,
  has_task-remove_all, of_id-any,
}

pub of_returns : {A : Type 0} {a b : A} → returns a ≡ returns b → a ≡ b
of_returns h = cc

pub not_panics : {A : Type 0} {b : A} → panics ≢ returns b
not_panics h = cc

pub empty-append :
    (xs ys : Diags) → is_empty (xs ++ ys) ≡ true → (is_empty xs ≡ true) × (is_empty ys ≡ true)
empty-append [] ys h = (refl, h)
empty-append (x ∷ xs) ys h = absurd (ground (arith, h))

module _ (attempts : ℤ → Option ℕ) (r : ResolvedTask)
    (immutable : is_working_immutable r attempts ≡ true) where
  -- The task stands alone under its id, with what it depends on, and is not to be moved.
  pub record Stands (w : Working) : Type 0 where
    pub alone : of_id r.id w.tasks ≡ r ∷ []
    pub live : (d : ℤ) → has_int r.dependencies d ≡ true → has_task w.tasks d ≡ true
    pub unmoved : any (λ (e : ℤ × ℕ). same_int (e.0) r.id) w.reorders ≡ false

  -- A change that reports nothing keeps the task, and neither had what came before reported anything.
  pub record Keeps (w v : Working) : Type 0 where
    pub quiet : is_empty v.diags ≡ true → is_empty w.diags ≡ true
    pub stands : is_empty v.diags ≡ true → Stands w → Stands v

  pub Keeps-refl : (w : Working) → Keeps w w
  Keeps-refl w = record { quiet = λ h. h; stands = λ h s. s }

  pub Keeps-trans : {u v w : Working} → Keeps u v → Keeps v w → Keeps u w
  Keeps-trans f g = record {
    quiet = λ h. f.quiet (g.quiet h);
    stands = λ h s. g.stands h (f.stands (g.quiet h) s);
  }

  pushed-Keeps : (w : Working) (d : Diags) → is_empty d ≡ false → Keeps w (pushed w d)
  pushed-Keeps w d e = record {
    quiet = λ h. (empty-append w.diags d h).0;
    stands = λ h s. absurd (ground (arith, e, empty-append w.diags d h));
  }

  -- A task that may change is another one.
  other_id :
      (w : Working) (id : ℤ) (t : ResolvedTask)
      → Stands w
      → find id w.tasks ≡ some t
      → is_working_immutable t attempts ≡ false
      → same_int id r.id ≡ false
  other_id w id t s e m = elim (Bool-cases (same_int id r.id)) [
    | inr f ↦ f
    | inl i ↦
        let found = of_id-find r.id w.tasks [] r s.alone in
        let same : t ≡ r =
          eq_of_some (sym e ∙ ap (λ n. find n w.tasks) (same_int→eq id r.id i) ∙ found) in
        absurd (ground (arith, immutable, m, ap (λ x. is_working_immutable x attempts) same))
  ]

  on_mutable-Keeps :
      (clients : Clients) (task : TaskRef) (field text : Str) (w v : Working)
      (change : ℤ → ResolvedTask → Working)
      → ((id : ℤ) (t : ResolvedTask)
          → find id w.tasks ≡ some t
          → is_working_immutable t attempts ≡ false
          → Keeps w (change id t))
      → on_mutable attempts clients task field text w change ≡ returns v
      → Keeps w v
  on_mutable-Keeps clients task field text w v change k h =
      elim (Option-cases (resolve_id task w.tasks clients)) [
        | inl e ↦
            subst (Keeps w) (of_returns (rw (e, on_mutable) at h))
              (pushed-Keeps w (unknown_task task ∷ []) refl)
        | inr (id, e) ↦ elim (Option-cases (find id w.tasks)) [
          | inl f ↦ absurd (not_panics (rw (e, f, on_mutable) at h))
          | inr (t, f) ↦ elim (Bool-cases (is_working_immutable t attempts)) [
            | inl i ↦
                subst (Keeps w) (of_returns (rw (e, f, i, on_mutable) at h))
                  (pushed-Keeps w (immutable_task task field text ∷ []) refl)
            | inr i ↦ subst (Keeps w) (of_returns (rw (e, f, i, on_mutable) at h)) (k id t f i)
          ]
        ]
      ]

  replaced :
      (w v : Working) (id : ℤ) (t new : ResolvedTask)
      → find id w.tasks ≡ some t
      → is_working_immutable t attempts ≡ false
      → new.id ≡ t.id
      → v.tasks ≡ replace_first id new w.tasks
      → v.reorders ≡ w.reorders
      → (is_empty v.diags ≡ true → is_empty w.diags ≡ true)
      → Keeps w v
  replaced w v id t new e m i f g q =
      let same = i ∙ find-id id w.tasks t e in
      record {
        quiet = q;
        stands = λ h s. record {
          alone =
              ap (of_id r.id) f
              ∙ of_id-replace_first r.id id new w.tasks same (other_id w id t s e m)
              ∙ s.alone;
          live = λ d z.
              ap (λ l. has_task l d) f ∙ has_task-replace_first id d new w.tasks same ∙ s.live d z;
          unmoved = ap (any (λ (e : ℤ × ℕ). same_int (e.0) r.id)) g ∙ s.unmoved;
        };
      }

  -- What the task depends on is held back.
  held_back :
      (w : Working) (id d : ℤ)
      → Stands w
      → same_int id r.id ≡ false
      → has_int r.dependencies d ≡ true
      → any (holds_back attempts id) w.tasks ≡ false
      → same_int id d ≡ false
  held_back w id d s other z none_held = elim (Bool-cases (same_int id d)) [
    | inr f ↦ f
    | inl i ↦
        let k = subst (λ x. has_int r.dependencies x ≡ true) (sym (same_int→eq id d i)) z in
        let held : any (holds_back attempts id) (of_id r.id w.tasks) ≡ true =
          ap (any (holds_back attempts id)) s.alone
          ∙ ground (arith, k, immutable, other, same_int_sym r.id id) in
        absurd (ground (arith, none_held, of_id-any r.id (holds_back attempts id) w.tasks held))
  ]

  pub update-Keeps :
      (clients : Clients) (task : TaskRef) (u : Update) (w v : Working)
      → update_step attempts clients task u w ≡ returns v
      → Keeps w v
  unfolding update_step updated
  update-Keeps clients task u w v h =
      on_mutable-Keeps clients task _ _ w v _
        (λ id t e m.
          replaced w _ id t ((updated task u t).0) e m refl refl refl
            (λ q. (empty-append w.diags ((updated task u t).1) q).0))
        h

  pub reorder-Keeps :
      (clients : Clients) (task : TaskRef) (position : ℕ) (w v : Working)
      → reorder_step attempts clients task position w ≡ returns v
      → Keeps w v
  unfolding reorder_step
  reorder-Keeps clients task position w v h =
      on_mutable-Keeps clients task _ _ w v _
        (λ id t e m. record {
          quiet = λ q. q;
          stands = λ q s. record {
            alone = s.alone;
            live = s.live;
            unmoved =
                any-append (λ (e : ℤ × ℕ). same_int (e.0) r.id) w.reorders ((id, position) ∷ [])
                ∙ ground (arith, s.unmoved, other_id w id t s e m);
          };
        })
        h

  pub remove-Keeps :
      (clients : Clients) (task : TaskRef) (w v : Working)
      → remove_step attempts clients task w ≡ returns v
      → Keeps w v
  unfolding remove_step
  remove-Keeps clients task w v h =
      on_mutable-Keeps clients task _ _ w v _
        (λ id t e m. record {
          quiet = λ q. (empty-append w.diags _ q).0;
          stands = λ q s. record {
            alone = of_id-remove_all r.id id w.tasks (other_id w id t s e m) ∙ s.alone;
            live = λ d z.
                has_task-remove_all id d w.tasks
                  (held_back w id d s (other_id w id t s e m) z
                    (ground (arith, (empty-append w.diags _ q).1)))
                  (s.live d z);
            unmoved = s.unmoved;
          };
        })
        h

  change-Keeps :
      (add : Bool) (task depends_on : TaskRef) (id dep_id : ℤ) (t : ResolvedTask) (w : Working)
      → find id w.tasks ≡ some t
      → is_working_immutable t attempts ≡ false
      → Keeps w (change_dependency add task depends_on id dep_id t w)
  change-Keeps true task depends_on id dep_id t w e m =
      elim (Bool-cases (has_int t.dependencies dep_id)) [
        | inl k ↦ rw k (pushed-Keeps w _ refl)
        | inr k ↦ rw k (replaced w _ id t _ e m refl refl refl (λ q. q))
      ]
  change-Keeps false task depends_on id dep_id t w e m =
      elim (Bool-cases (has_int t.dependencies dep_id)) [
        | inl k ↦ rw k (replaced w _ id t _ e m refl refl refl (λ q. q))
        | inr k ↦ rw k (pushed-Keeps w _ refl)
      ]

  if_pushed :
      (b : Bool) (w v : Working) (d : PlanDiagnostic)
      → Keeps w v
      → Keeps w (if b then pushed w (d ∷ []) else v)
  if_pushed true w v d k = pushed-Keeps w (d ∷ []) refl
  if_pushed false w v d k = k

  pub dependency-Keeps :
      (existing : List Task) (clients : Clients) (add : Bool) (task depends_on : TaskRef)
      (w v : Working)
      → handle_dependency existing attempts clients add task depends_on w ≡ returns v
      → Keeps w v
  unfolding handle_dependency
  dependency-Keeps existing clients add task depends_on w v h =
      elim (Option-cases (resolve_id task w.tasks clients)) [
        | inl e ↦
            subst (Keeps w) (of_returns (rw (e, handle_dependency) at h)) (pushed-Keeps w _ refl)
        | inr (id, e) ↦ elim (Option-cases (resolve_id depends_on w.tasks clients)) [
          | inl f ↦
              subst (Keeps w) (of_returns (rw (e, f, handle_dependency) at h))
                (pushed-Keeps w _ refl)
          | inr (dep_id, f) ↦ elim (Bool-cases (same_int id dep_id)) [
            | inl i ↦
                subst (Keeps w) (of_returns (rw (e, f, i, handle_dependency) at h))
                  (pushed-Keeps w _ refl)
            | inr i ↦
                on_mutable-Keeps clients task _ _ w v _
                  (λ id' t found m.
                    if_pushed (was_superseded existing dep_id) w _ _
                      (change-Keeps add task depends_on id' dep_id t w found m))
                  (rw (e, f, i, handle_dependency) at h)
          ]
        ]
      ]
