-- ===== src/PlanEdit/Cycle/Visit.antt =====
-- What popping one task does: it is open, processed, or new.
use agentic_software_factory.Prelude.{
  ℕ, suc, ◌+◌, ◌≤◌, ◌≡◌, ◌≢◌, ◌⊎◌, inl, inr, refl, ap, subst, ◌∙◌, arith, Bool, true, false, List,
  [], ◌∷◌, ◌==◌, ◌||◌, not, some, Option-cases, any-append, Bool-cases, length, is_empty, ℤ,
  same_int, same_int→eq, same_int_refl, has_int,
}
use agentic_software_factory.PlanEdit.{ResolvedTask}
use agentic_software_factory.PlanEdit.Cycle.{
  Marks, set_mark, Stack, search_from, dependencies_of, by_id, edges, visit_fuel,
}
use agentic_software_factory.PlanEdit.Cycle.Marking.{set_mark-other, set_mark-back}
use agentic_software_factory.PlanEdit.Cycle.Pushing.{
  items, pending, push-items, length-pending, pending-from, mark-cases,
}
use agentic_software_factory.PlanEdit.Cycle.Search.{
  DependsOn, Chain, one, more, Sound, Above, nodes, Goes, Visited, same_fuel, Grows-refl,
}

by_id-nodes :
    (tasks : List ResolvedTask) (x : ℤ) (deps : List ℤ)
    → by_id tasks x ≡ some deps
    → ((d : ℤ) → has_int deps d ≡ true → has_int (nodes tasks) d ≡ true)
      × (length deps ≤ edges tasks)
by_id-nodes [] x deps e = absurd (ground (arith, e))
by_id-nodes (t ∷ tasks) x deps e = elim (Option-cases (by_id tasks x)) [
  | inl none_later ↦ here (ground (arith, e, none_later))
  | inr (later, some_later) ↦
      let (inside, short) = by_id-nodes tasks x deps (ground (arith, e, some_later)) in
      (
        λ d h.
            ground (arith, inside d h, any-append (λ m. same_int m d) t.dependencies (nodes tasks)),
        omega (arith, short),
      )
]
  where
    here :
        t.dependencies ≡ deps
        → ((d : ℤ) → has_int deps d ≡ true → has_int (nodes (t ∷ tasks)) d ≡ true)
          × (length deps ≤ edges (t ∷ tasks))
    here same =
        subst
          (λ w.
            ((d : ℤ) → has_int w d ≡ true → has_int (nodes (t ∷ tasks)) d ≡ true)
            × (length w ≤ edges (t ∷ tasks)))
          same
          (
            λ d h. ground (arith, h, any-append (λ m. same_int m d) t.dependencies (nodes tasks)),
            omega arith,
          )

pub known_cases :
    (tasks : List ResolvedTask) (x : ℤ)
    → (dependencies_of tasks x ≡ [])
      ⊎ ((deps : List ℤ) × (by_id tasks x ≡ some deps) × (dependencies_of tasks x ≡ deps))
unfolding dependencies_of
known_cases tasks x = elim (Option-cases (by_id tasks x)) [
  | inl e ↦ inl (rw (e, dependencies_of) refl)
  | inr (deps, e) ↦ inr (deps, e, rw (e, dependencies_of) refl)
]

pub known :
    (tasks : List ResolvedTask) (x d : ℤ) → DependsOn tasks d x → has_int (nodes tasks) d ≡ true
known tasks x d h = elim (known_cases tasks x) [
  | inl e ↦ absurd (ground (arith, subst (λ w. has_int w d ≡ true) e h))
  | inr (deps, e, f) ↦ (by_id-nodes tasks x deps e).0 d (subst (λ w. has_int w d ≡ true) f h)
]

pub bounded : (tasks : List ResolvedTask) (x : ℤ) → length (dependencies_of tasks x) ≤ edges tasks
bounded tasks x = elim (known_cases tasks x) [
  | inl e ↦ omega (arith, ap length e)
  | inr (deps, e, f) ↦ omega (arith, ap length f, (by_id-nodes tasks x deps e).1)
]

first_of : (ds : List ℤ) → is_empty ds ≡ false → (d : ℤ) × (has_int ds d ≡ true)
first_of [] h = absurd (ground (arith, h))
first_of (d ∷ ds) h = (d, ground (arith, same_int_refl d))

module _ (tasks : List ResolvedTask) where
  -- Open tasks on top of the stack are each a cycle, and nothing else changes.
  all_open :
      (ds : List ℤ) (m : Marks) (c : Bool) (stack : Stack) (k : ℕ)
      → ((d : ℤ) → has_int ds d ≡ true → m d ≡ 1)
      → search_from (length ds + k) tasks (items ds stack) m c
        ≡ search_from k tasks stack m (c || not (is_empty ds))
  unfolding search_from
  all_open [] m c stack k h =
      same_fuel tasks k stack m c (omega arith) ∙ ap (search_from k tasks stack m) (ground arith)
  all_open (d ∷ ds) m c stack k h =
      same_fuel tasks (suc (length ds + k)) (items (d ∷ ds) stack) m c (omega arith)
      ∙ rw (h d (ground (arith, same_int_refl d)), search_from)
          (all_open ds m true stack k (λ y z. h y (ground (arith, z)))
            ∙ ap (search_from k tasks stack m) (ground arith))

  pub open_visit :
      (m : Marks) (c : Bool) (x : ℤ) (stack : Stack)
      → Sound tasks m c
      → Above tasks m x
      → m x ≡ 1
      → (n : Marks) × (b : Bool) × Goes tasks
          ((x, false) ∷ stack)
          stack
          m
          n
          c
          b
          (visit_fuel (edges tasks))
        × Visited tasks (x ∷ []) m n c b
  unfolding search_from
  open_visit m c x stack s above e = (
    m,
    true,
    record {
      count = 1;
      enough = omega arith;
      reaches = λ k.
          same_fuel tasks (suc k) ((x, false) ∷ stack) m c (omega arith) ∙ rw (e, search_from) refl;
    },
    record {
      sound = record {
        small = s.small;
        closed = s.closed;
        settled = λ y z. absurd (ground (arith, z));
        cyclic = λ z. (x, above x e);
      };
      grows = Grows-refl tasks m;
      seen = λ y h.
          subst (λ z. m z ≢ 0) (same_int→eq x y (ground (arith, h))) (λ z. ground (arith, z, e));
      finished = λ y h z. absurd (ground (arith, z));
      stays = λ z. absurd (ground (arith, z));
    },
  )

  -- Opening a task pushes its end and its dependencies that are not processed.
  abbrev pub pushed_by : (m : Marks) (x : ℤ) → List ℤ
  pushed_by m x = pending (set_mark x 1 m) (dependencies_of tasks x) []

  pub open_step :
      (m : Marks) (c : Bool) (x : ℤ) (stack : Stack) (k : ℕ)
      → m x ≢ 1
      → search_from (suc k) tasks ((x, false) ∷ stack) m c
        ≡ search_from k tasks (items (pushed_by m x) ((x, true) ∷ stack)) (set_mark x 1 m) c
  unfolding search_from
  open_step m c x stack k e = elim (Bool-cases (m x == 1)) [
    | inl t ↦ absurd (e (ground (arith, t)))
    | inr f ↦
        rw (f, search_from)
          (ap (λ w. search_from k tasks w (set_mark x 1 m) c)
            (push-items (set_mark x 1 m) (dependencies_of tasks x) [] ((x, true) ∷ stack)))
  ]

  -- A dependency that was pushed while nothing new is below is open, and makes a cycle.
  processed_cycle :
      (m : Marks) (c : Bool) (x d : ℤ)
      → Sound tasks m c
      → Above tasks m x
      → m x ≡ 2
      → has_int (pushed_by m x) d ≡ true
      → (set_mark x 1 m d ≡ 1) × Chain tasks d d
  processed_cycle m c x d s above e h =
      elim (pending-from (set_mark x 1 m) (dependencies_of tasks x) [] d h) [
        | inl none_yet ↦ absurd (ground (arith, none_yet))
        | inr (dep, not_done) ↦ elim (Bool-cases (same_int x d)) [
          | inl t ↦ rw t (refl, subst (λ w. Chain tasks w d) (same_int→eq x d t) (one dep))
          | inr f ↦
              let is_open : m d ≡ 1 = elim (mark-cases (m d) (s.small d)) [
                | inl z ↦ absurd (s.closed x d e dep z)
                | inr (inl z) ↦ z
                | inr (inr z) ↦ absurd (not_done (set_mark-other x d 1 m f ∙ z))
              ] in
              (set_mark-other x d 1 m f ∙ is_open, more (above d is_open) dep)
        ]
      ]

  pub processed_visit :
      (m : Marks) (c : Bool) (x : ℤ) (stack : Stack)
      → Sound tasks m c
      → Above tasks m x
      → m x ≡ 2
      → (n : Marks) × (b : Bool) × Goes tasks
          ((x, false) ∷ stack)
          stack
          m
          n
          c
          b
          (visit_fuel (edges tasks))
        × Visited tasks (x ∷ []) m n c b
  unfolding search_from
  processed_visit m c x stack s above e =
      let ds = pushed_by m x in
      let opened = set_mark x 1 m in
      (
        m,
        c || not (is_empty ds),
        record {
          count = suc (length ds + 1);
          enough =
              omega (arith, bounded tasks x, length-pending opened (dependencies_of tasks x) []);
          reaches = λ k.
              same_fuel tasks (suc (length ds + suc k)) ((x, false) ∷ stack) m c (omega arith)
              ∙ open_step m c x stack (length ds + suc k) (λ z. ground (arith, z, e))
              ∙ all_open ds opened c ((x, true) ∷ stack) (suc k)
                  (λ d h. (processed_cycle m c x d s above e h).0)
              ∙ ap (λ w. search_from k tasks stack w (c || not (is_empty ds)))
                  (set_mark-back x m e);
        },
        record {
          sound = record {
            small = s.small;
            closed = s.closed;
            settled = λ y z. s.settled y (ground (arith, z));
            cyclic = λ z. elim (Bool-cases (is_empty ds)) [
              | inl t ↦ s.cyclic (ground (arith, z, t))
              | inr f ↦ let (d, h) = first_of ds f in (d, (processed_cycle m c x d s above e h).1)
            ];
          };
          grows = Grows-refl tasks m;
          seen = λ y h.
              subst (λ z. m z ≢ 0) (same_int→eq x y (ground (arith, h)))
                (λ z. ground (arith, z, e));
          finished = λ y h z. subst (λ w. m w ≡ 2) (same_int→eq x y (ground (arith, h))) e;
          stays = λ z. ground (arith, z);
        },
      )
