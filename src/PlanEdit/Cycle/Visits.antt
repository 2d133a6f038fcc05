-- ===== src/PlanEdit/Cycle/Visits.antt =====
-- Popping a task that is new searches what it depends on.
use agentic_software_factory.Prelude.{
  ℕ, zero, suc, ◌+◌, ◌≤◌, ◌≡◌, ◌≢◌, inl, inr, ap, sym, subst, ◌∙◌, arith, Bool, true, false, List,
  [], ◌∷◌, Bool-cases, length, ℤ, same_int, same_int→eq, has_int,
}
use mathlib.Core.WellFounded.{Acc}
use native.Mathlib.Nat.{mul-le-mul_right}
use agentic_software_factory.PlanEdit.{ResolvedTask}
use agentic_software_factory.PlanEdit.Cycle.{
  Marks, set_mark, Stack, search_from, dependencies_of, edges, visit_fuel,
}
use agentic_software_factory.PlanEdit.Cycle.Marking.{
  set_mark-two, set_mark-seen, set_mark-of, set_mark-kept, set_mark-same, set_mark-other,
  left-opened, left-visit,
}
use agentic_software_factory.PlanEdit.Cycle.Pushing.{
  length-pending, pending-from, pending-of, mark-cases,
}
use agentic_software_factory.PlanEdit.Cycle.Search.{
  DependsOn, one, more, Acyclic, Sound, Grows, Above, nodes, weight, rest_of, Goes, Visited, Visits,
  same_fuel, visit_all,
}
use agentic_software_factory.PlanEdit.Cycle.Visit.{
  known, bounded, pushed_by, open_step, open_visit, processed_visit,
}

module _ (tasks : List ResolvedTask) where
  -- The task is open while its dependencies are searched.
  opened_Sound :
      (m : Marks) (c : Bool) (x : ℤ) → Sound tasks m c → m x ≡ 0 → Sound tasks (set_mark x 1 m) c
  opened_Sound m c x s e = record {
    small = λ y. ground (arith, s.small y);
    closed = λ y d h dep z. set_mark-seen x d 0 m (s.closed y d (set_mark-two x y m h) dep) z;
    settled = λ y z h. s.settled y z (set_mark-two x y m h);
    cyclic = s.cyclic;
  }

  closed_Sound :
      (m : Marks) (b : Bool) (x : ℤ)
      → Sound tasks m b
      → ((d : ℤ) → DependsOn tasks d x → m d ≢ 0)
      → ((d : ℤ) → DependsOn tasks d x → b ≡ false → m d ≡ 2)
      → Sound tasks (set_mark x 2 m) b
  closed_Sound m b x s seen done = record {
    small = λ y. ground (arith, s.small y);
    closed = λ y d h dep z.
        set_mark-seen x d 1 m
          (elim (set_mark-of x y 2 2 m h) [
            | inl e ↦ seen d (subst (λ w. DependsOn tasks d w) (sym e) dep)
            | inr e ↦ s.closed y d e dep
          ])
          z;
    settled = λ y z h. elim (set_mark-of x y 2 2 m h) [
      | inl e ↦ subst (Acyclic tasks) e (Acc.intro x (λ d dep. s.settled d z (done d dep z)))
      | inr e ↦ s.settled y z e
    ];
    cyclic = s.cyclic;
  }

  closed_Grows :
      (m n : Marks) (x : ℤ)
      → m x ≡ 0
      → Grows tasks (set_mark x 1 m) n
      → Grows tasks m (set_mark x 2 n)
  closed_Grows m n x e g =
      let still : n x ≡ 1 = g.opens x (set_mark-same x 1 m) in
      record {
        opens = λ y h. elim (Bool-cases (same_int x y)) [
          | inl t ↦ absurd (ground (arith, ap m (same_int→eq x y t), e, h))
          | inr f ↦ set_mark-other x y 2 n f ∙ g.opens y (set_mark-other x y 1 m f ∙ h)
        ];
        keeps = λ y h.
            set_mark-kept x y 2 2 n (λ z. ground (arith, z, still))
              (g.keeps y (set_mark-kept x y 1 2 m (λ z. ground (arith, z, e)) h));
        closes = λ y h. elim (Bool-cases (same_int x y)) [
          | inl t ↦ absurd (ground (arith, rw t at h))
          | inr f ↦ sym (set_mark-other x y 1 m f) ∙ g.closes y (sym (set_mark-other x y 2 n f) ∙ h)
        ];
      }

  -- What is pushed is a dependency.
  pushed_dep : (m : Marks) (x d : ℤ) → has_int (pushed_by tasks m x) d ≡ true → DependsOn tasks d x
  pushed_dep m x d h = elim (pending-from (set_mark x 1 m) (dependencies_of tasks x) [] d h) [
    | inl none_yet ↦ absurd (ground (arith, none_yet))
    | inr (dep, not_done) ↦ dep
  ]

  opened_Above :
      (m : Marks) (x d : ℤ) → Above tasks m x → DependsOn tasks d x → Above tasks (set_mark x 1 m) d
  opened_Above m x d above dep y o = elim (set_mark-of x y 1 1 m o) [
    | inl e ↦ one (subst (λ w. DependsOn tasks d w) e dep)
    | inr e ↦ more (above y e) dep
  ]

  new_visit :
      (bound : ℕ) (m : Marks) (c : Bool) (x : ℤ) (stack : Stack)
      → Visits tasks bound
      → rest_of tasks m ≤ suc bound
      → Sound tasks m c
      → Above tasks m x
      → has_int (nodes tasks) x ≡ true
      → m x ≡ 0
      → (n : Marks) × (b : Bool) × Goes tasks
          ((x, false) ∷ stack)
          stack
          m
          n
          c
          b
          (visit_fuel (edges tasks))
        × Visited tasks (x ∷ []) m n c b
  unfolding search_from
  new_visit bound m c x stack v h s above k e =
      let ds = pushed_by tasks m x in
      let opened = set_mark x 1 m in
      let lighter = left-visit (weight tasks) (nodes tasks) m x k e in
      let few : length ds ≤ edges tasks =
        omega (arith, length-pending opened (dependencies_of tasks x) [], bounded tasks x) in
      let (n, b, goes, all_seen) =
        visit_all tasks bound ds opened c ((x, true) ∷ stack) v (omega (arith, h, lighter))
          (opened_Sound m c x s e) (λ d i. opened_Above m x d above (pushed_dep m x d i))
          (λ d i. known tasks x d (pushed_dep m x d i)) in
      let seen_dep : (d : ℤ) → DependsOn tasks d x → n d ≢ 0 = λ d dep.
        elim (pending-of opened (dependencies_of tasks x) [] d dep) [
          | inl z ↦ λ w. ground (arith, w, all_seen.grows.keeps d z)
          | inr z ↦ all_seen.seen d z
        ] in
      let done_dep : (d : ℤ) → DependsOn tasks d x → b ≡ false → n d ≡ 2 = λ d dep i.
        elim (pending-of opened (dependencies_of tasks x) [] d dep) [
          | inl z ↦ all_seen.grows.keeps d z
          | inr z ↦ all_seen.finished d z i
        ] in
      (
        set_mark x 2 n,
        b,
        record {
          count = suc (goes.count + 1);
          enough = omega (
            arith,
            goes.enough,
            lighter,
            left-opened (weight tasks) (nodes tasks) n x 1,
            mul-le-mul_right (visit_fuel (edges tasks)) few,
          );
          reaches = λ j.
              same_fuel tasks (suc (goes.count + suc j)) ((x, false) ∷ stack) m c (omega arith)
              ∙ open_step tasks m c x stack (goes.count + suc j) (λ z. ground (arith, z, e))
              ∙ goes.reaches (suc j);
        },
        record {
          sound = closed_Sound n b x all_seen.sound seen_dep done_dep;
          grows = closed_Grows m n x e all_seen.grows;
          seen = λ y i. λ w. ground (
            arith,
            w,
            set_mark-same x 2 n,
            ap (set_mark x 2 n) (same_int→eq x y (ground (arith, i))),
          );
          finished = λ y i z.
              ap (set_mark x 2 n) (sym (same_int→eq x y (ground (arith, i)))) ∙ set_mark-same x 2 n;
          stays = all_seen.stays;
        },
      )

  pub visits : (bound : ℕ) → Visits tasks bound
  visits zero m c x stack h s above k = elim (mark-cases (m x) (s.small x)) [
    | inr (inl e) ↦ open_visit tasks m c x stack s above e
    | inr (inr e) ↦ processed_visit tasks m c x stack s above e
    | inl e ↦ absurd (omega (arith, h, left-visit (weight tasks) (nodes tasks) m x k e))
  ]
  visits (suc bound) m c x stack h s above k = elim (mark-cases (m x) (s.small x)) [
    | inr (inl e) ↦ open_visit tasks m c x stack s above e
    | inr (inr e) ↦ processed_visit tasks m c x stack s above e
    | inl e ↦ new_visit bound m c x stack (visits bound) h s above k e
  ]
