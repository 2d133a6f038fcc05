-- ===== src/PlanEdit/Cycle/Decides.antt =====
-- The search decides whether a task depends on itself.
use agentic_software_factory.Prelude.{
  ◌+◌, ◌-◌, ◌*◌, ◌≤◌, ◌≡◌, ◌≢◌, ◌⊎◌, ◌↔◌, inl, inr, refl, ap, sym, subst, ◌∙◌, arith, Bool, true,
  false, List, [], ◌∷◌, ◌==◌, some, none, Option, Option-cases, any-append, Bool-cases, length, ℤ,
  same_int, same_int→eq, same_int_refl, has_int, length-append,
}
use mathlib.Core.WellFounded.{Acc}
use agentic_software_factory.PlanEdit.{ResolvedTask, has_task}
use agentic_software_factory.PlanEdit.Cycle.{Marks, search_from, by_id, edges}
use agentic_software_factory.PlanEdit.Cycle.Marking.{left-seen, left-start}
use agentic_software_factory.PlanEdit.Cycle.Pushing.{mark-cases}
use agentic_software_factory.PlanEdit.Cycle.Search.{
  DependsOn, Chain, one, more, Acyclic, Sound, Grows, nodes, weight, rest_of, Visited, same_fuel,
  Grows-refl, Grows-trans,
}
use agentic_software_factory.PlanEdit.Cycle.{has_cycle, search_each, search_fuel}
use agentic_software_factory.PlanEdit.Cycle.Visits.{visits}
use agentic_software_factory.PlanEdit.Cycle.Visit.{known_cases}

module _ (tasks : List ResolvedTask) where
  -- No task is open between two searches.
  abbrev Idle : Marks → Type 0
  Idle m = (y : ℤ) → m y ≢ 1

  start_fuel : (m : Marks) → rest_of tasks m ≤ rest_of tasks (λ id. 0)
  start_fuel m = left-seen (weight tasks) (nodes tasks) (λ id. 0) m (λ y z. absurd (z refl))

  length-nodes : (rest : List ResolvedTask) → length (nodes rest) ≡ length rest + edges rest
  length-nodes [] = omega arith
  length-nodes (t ∷ rest) =
      omega (arith, length-append t.dependencies (nodes rest), length-nodes rest)

  -- One search from a task.
  search_one :
      (m : Marks) (c : Bool) (x : ℤ)
      → Sound tasks m c
      → Idle m
      → has_int (nodes tasks) x ≡ true
      → (n : Marks) × (b : Bool) × (search_from (search_fuel tasks) tasks ((x, false) ∷ []) m c
          ≡ some (n, b))
        × Idle n
        × Visited tasks (x ∷ []) m n c b
  unfolding search_from
  search_one m c x s idle k =
      let (n, b, goes, here) =
        visits tasks (rest_of tasks m) m c x [] (omega arith) s (λ y o. absurd (idle y o)) k in
      let spare = search_fuel tasks - goes.count in
      let fuel : search_fuel tasks ≡ goes.count + spare = omega (
        arith,
        goes.enough,
        start_fuel m,
        left-start (weight tasks) (nodes tasks),
        ap (λ w. w * weight tasks) (length-nodes tasks),
      ) in
      (
        n,
        b,
        same_fuel tasks (goes.count + spare) ((x, false) ∷ []) m c fuel ∙ goes.reaches spare,
        (λ y o. idle y (here.grows.closes y o)),
        here,
      )

  search_all :
      (rest : List ResolvedTask) (m : Marks) (c : Bool)
      → Sound tasks m c
      → Idle m
      → ((t : ℤ) → has_task rest t ≡ true → has_int (nodes tasks) t ≡ true)
      → (n : Marks) × (b : Bool) × (search_each tasks rest m c ≡ some (n, b))
        × Sound tasks n b
        × Grows tasks m n
        × ((t : ℤ) → has_task rest t ≡ true → b ≡ false → n t ≡ 2)
        × (b ≡ false → c ≡ false)
  unfolding search_each
  search_all [] m c s idle k =
      (m, c, refl, s, Grows-refl tasks m, (λ t h. absurd (ground (arith, h))), λ h. h)
  search_all (r ∷ rest) m c s idle k = elim (Bool-cases (m r.id == 0)) [
    | inl e ↦
        let (n, b, found, still, here) =
          search_one m c r.id s idle (k r.id (ground (arith, same_int_refl r.id))) in
        let (n', b', later, sound, grows, done, stays) =
          search_all rest n b here.sound still (λ t h. k t (ground (arith, h))) in
        (
          n',
          b',
          rw (e, search_each)
              (ap
                  (λ o. elim o as (λ o. Option (Marks × Bool)) [
                    | none ↦ none
                    | some f ↦ search_each tasks rest (f.0) (f.1)
                  ])
                  found
                ∙ later),
          sound,
          Grows-trans tasks here.grows grows,
          (λ t h z. elim (Bool-cases (same_int r.id t)) [
            | inl i ↦
                subst (λ w. n' w ≡ 2) (same_int→eq r.id t i)
                  (grows.keeps r.id
                    (here.finished r.id (ground (arith, same_int_refl r.id)) (stays z)))
            | inr i ↦ done t (ground (arith, h, i)) z
          ]),
          λ z. here.stays (stays z),
        )
    | inr e ↦
        let (n', b', later, sound, grows, done, stays) =
          search_all rest m c s idle (λ t h. k t (ground (arith, h))) in
        (
          n',
          b',
          rw (e, search_each) later,
          sound,
          grows,
          (λ t h z. elim (Bool-cases (same_int r.id t)) [
            | inl i ↦
                subst (λ w. n' w ≡ 2) (same_int→eq r.id t i)
                  (grows.keeps r.id (elim (mark-cases (m r.id) (s.small r.id)) [
                    | inl z ↦ absurd (ground (arith, e, z))
                    | inr (inl z) ↦ absurd (idle r.id z)
                    | inr (inr z) ↦ z
                  ]))
            | inr i ↦ done t (ground (arith, h, i)) z
          ]),
          stays,
        )
  ]

  Chain-first :
      {x z : ℤ} → Chain tasks x z → (d : ℤ) × DependsOn tasks d x × ((d ≡ z) ⊎ Chain tasks d z)
  Chain-first (one {x} {y} dep) = (y, dep, inl refl)
  Chain-first (more {x} {y} {z} p dep) =
      let (d, first, later) = Chain-first p in
      (
        d,
        first,
        inr (elim later [
          | inl e ↦ one (subst (λ w. DependsOn tasks z w) (sym e) dep)
          | inr q ↦ more q dep
        ]),
      )

  Acyclic-irreflexive : (x : ℤ) → Acyclic tasks x → ¬ (Chain tasks x x)
  Acyclic-irreflexive x (Acc.intro _ f) p =
      let (d, dep, later) = Chain-first p in
      elim later [
        | inl e ↦ Acyclic-irreflexive d (f d dep) (subst (λ w. Chain tasks w d) (sym e) (one dep))
        | inr q ↦ Acyclic-irreflexive d (f d dep) (more q dep)
      ]

by_id-has_task :
    (tasks : List ResolvedTask) (x : ℤ) (deps : List ℤ)
    → by_id tasks x ≡ some deps
    → has_task tasks x ≡ true
by_id-has_task [] x deps e = absurd (ground (arith, e))
by_id-has_task (t ∷ tasks) x deps e = elim (Option-cases (by_id tasks x)) [
  | inl none_later ↦ ground (arith, e, none_later)
  | inr (later, some_later) ↦ ground (arith, by_id-has_task tasks x later some_later)
]

-- What depends on something is a task.
dependent-has_task :
    (tasks : List ResolvedTask) (x d : ℤ) → DependsOn tasks d x → has_task tasks x ≡ true
dependent-has_task tasks x d h = elim (known_cases tasks x) [
  | inl e ↦ absurd (ground (arith, subst (λ w. has_int w d ≡ true) e h))
  | inr (deps, e, f) ↦ by_id-has_task tasks x deps e
]

has_task-nodes :
    (tasks : List ResolvedTask) (x : ℤ) → has_task tasks x ≡ true → has_int (nodes tasks) x ≡ true
has_task-nodes [] x h = absurd (ground (arith, h))
has_task-nodes (t ∷ tasks) x h =
    ground (
      arith,
      h,
      has_task-nodes tasks x,
      any-append (λ m. same_int m x) t.dependencies (nodes tasks),
    )

-- The search of any list of tasks ends within its fuel, and reports a cycle exactly when some task
-- depends on itself, through others or not.
pub has_cycle_iff :
    (tasks : List ResolvedTask)
    → (b : Bool) × (has_cycle tasks ≡ some b) × ((b ≡ true) ↔ ((x : ℤ) × Chain tasks x x))
unfolding has_cycle
has_cycle_iff tasks =
    let (n, b, found, s, grows, done, stays) =
      search_all tasks tasks (λ id. 0) false fresh (λ y z. absurd (ground (arith, z)))
        (has_task-nodes tasks) in
    (
      b,
      ap (λ o. elim o as (λ o. Option Bool) [ none ↦ none | some f ↦ some (f.1) ]) found,
      (
        s.cyclic,
        λ (x, p). elim (Bool-cases b) [
          | inl t ↦ t
          | inr f ↦
              let (d, dep, later) = Chain-first tasks p in
              absurd (
                Acyclic-irreflexive tasks x
                  (s.settled x f (done x (dependent-has_task tasks x d dep) f)) p)
        ],
      ),
    )
  where
    fresh : Sound tasks (λ id. 0) false
    fresh = record {
      small = λ y. omega arith;
      closed = λ y d h. absurd (ground (arith, h));
      settled = λ y z h. absurd (ground (arith, h));
      cyclic = λ z. absurd (ground (arith, z));
    }
