-- ===== src/Planner/Graph/Draining.antt =====
-- The loop pops the tasks in a topological order, each once.
use agentic_software_factory.Prelude.{
  ◌||◌, sym, ◌∙◌, ℕ, zero, suc, ◌+◌, ◌≤◌, ◌≡◌, refl, subst, ap, inl, inr, arith, true, false, List,
  [], ◌∷◌, length, map, Str, str_eq, str_eq→eq, str_eq_refl, contains, Bool-cases, some,
}
use agentic_software_factory.Planner.{PlannedTask, name}
use agentic_software_factory.Planner.Known.{Counts, relax_all, drain_all}
use agentic_software_factory.Planner.Graph.{
  deps_of, Distinct, hits, hits-cons, hits-bound, hits-all, hits-known, hits-covers,
}
use agentic_software_factory.Planner.Graph.Stacking.{relax_all-keeps, relax_all-pushes}
use agentic_software_factory.Planner.Graph.Relaxing.{
  IsApart, Positive, relax_all-IsApart, relax_all-degree, relax_all-stack,
}

-- The list, from its end, has a task only after all the dependencies of the task.
abbrev pub Ordered : List PlannedTask → List Str → Type 0
Ordered tasks [] = Unit
Ordered tasks (p ∷ ps) =
    ((d : Str) → contains (deps_of tasks p) d ≡ true → contains ps d ≡ true) × Ordered tasks ps

pub record Progress (tasks : List PlannedTask) (degrees : Counts) (stack popped : List Str)
    : Type 0 where
  pub split : IsApart degrees stack popped
  pub count : (n : Str) → degrees n + hits (deps_of tasks n) popped ≡ length (deps_of tasks n)
  pub ordered : Ordered tasks popped
  pub known_stack : (n : Str) → contains stack n ≡ true → contains (map name tasks) n ≡ true
  pub known_done : (n : Str) → contains popped n ≡ true → contains (map name tasks) n ≡ true
  pub started :
      (n : Str)
      → contains (map name tasks) n ≡ true
      → degrees n ≡ 0
      → (contains stack n || contains popped n) ≡ true

pop-IsApart :
    (id : Str) (degrees : Counts) (stack popped : List Str)
    → IsApart degrees (id ∷ stack) popped
    → IsApart degrees stack (id ∷ popped)
pop-IsApart id degrees stack popped a = record {
  stacked = (a.stacked).1;
  done = (a.apart id (ground (arith, str_eq_refl id)), a.done);
  apart = λ n c. elim (Bool-cases (str_eq id n)) [
    | inl t ↦ absurd (
        ground (arith, c, subst (λ m. contains stack m ≡ false) (str_eq→eq id n t) ((a.stacked).0)))
    | inr f ↦ ground (arith, f, a.apart n (ground (arith, c)))
  ];
  zero_stacked = λ n c. a.zero_stacked n (ground (arith, c));
  zero_done = λ n c. elim (Bool-cases (str_eq id n)) [
    | inl t ↦ a.zero_stacked n (ground (arith, t))
    | inr f ↦ a.zero_done n (ground (arith, c, f))
  ];
}

pop-Positive :
    (tasks : List PlannedTask) (id : Str) (degrees : Counts) (stack popped : List Str)
    → Progress tasks degrees (id ∷ stack) popped
    → Positive id tasks degrees
pop-Positive tasks id degrees stack popped p n c = ground (
  arith,
  c,
  p.count n,
  hits-cons (deps_of tasks n) id popped,
  hits-bound (deps_of tasks n) (id ∷ popped) ((pop-IsApart id degrees stack popped p.split).done),
)

pop-count :
    (tasks : List PlannedTask) (id : Str) (degrees : Counts) (stack popped : List Str) (n : Str)
    → Distinct (map name tasks)
    → Progress tasks degrees (id ∷ stack) popped
    → (relax_all id tasks (degrees, stack)).0 n + hits (deps_of tasks n) (id ∷ popped)
      ≡ length (deps_of tasks n)
pop-count tasks id degrees stack popped n u p = ground (
  arith,
  relax_all-degree id tasks degrees stack n u,
  p.count n,
  hits-cons (deps_of tasks n) id popped,
  pop-Positive tasks id degrees stack popped p n,
)

pop-Ordered :
    (tasks : List PlannedTask) (id : Str) (degrees : Counts) (stack popped : List Str)
    → Progress tasks degrees (id ∷ stack) popped
    → Ordered tasks (id ∷ popped)
pop-Ordered tasks id degrees stack popped p =
    (λ d c. hits-all (deps_of tasks id) popped d ((p.split).done) all c, p.ordered)
  where
    all : length (deps_of tasks id) ≤ hits (deps_of tasks id) popped
    all = omega (arith, p.count id, (p.split).zero_stacked id (ground (arith, str_eq_refl id)))

-- A task that waits for nothing any more is stacked or popped.
pop-started :
    (tasks : List PlannedTask) (id : Str) (degrees : Counts) (stack popped : List Str) (n : Str)
    → Distinct (map name tasks)
    → Progress tasks degrees (id ∷ stack) popped
    → contains (map name tasks) n ≡ true
    → (relax_all id tasks (degrees, stack)).0 n ≡ 0
    → (contains ((relax_all id tasks (degrees, stack)).1) n || contains (id ∷ popped) n) ≡ true
pop-started tasks id degrees stack popped n u p k z =
    let lowered = sym (relax_all-degree id tasks degrees stack n u) ∙ z in
    elim (Bool-cases (contains (deps_of tasks n) id)) [
      | inl c ↦ ground (arith, relax_all-pushes id tasks degrees stack n k c (rw c at lowered))
      | inr c ↦
          let before = p.started n k (rw c at lowered) in
          elim (Bool-cases (contains stack n)) [
            | inl s ↦ ground (arith, relax_all-keeps id tasks degrees stack n s)
            | inr s ↦ ground (arith, before, s)
          ]
    ]

pop-Progress :
    (tasks : List PlannedTask) (id : Str) (degrees : Counts) (stack popped : List Str)
    → Distinct (map name tasks)
    → Progress tasks degrees (id ∷ stack) popped
    → Progress tasks
        ((relax_all id tasks (degrees, stack)).0)
        ((relax_all id tasks (degrees, stack)).1)
        (id ∷ popped)
pop-Progress tasks id degrees stack popped u p = record {
  split =
      relax_all-IsApart id tasks degrees stack (id ∷ popped) u
        (pop-Positive tasks id degrees stack popped p)
        (pop-IsApart id degrees stack popped p.split);
  count = λ n. pop-count tasks id degrees stack popped n u p;
  ordered = pop-Ordered tasks id degrees stack popped p;
  known_stack = λ n c. ground (arith, relax_all-stack id tasks degrees stack n c, p.known_stack n);
  known_done = λ n c. ground (arith, c, p.known_stack n, p.known_done n);
  started = λ n k z. pop-started tasks id degrees stack popped n u p k z;
}

length-names : (tasks : List PlannedTask) → length (map name tasks) ≡ length tasks
length-names [] = refl
length-names (task ∷ tasks) = ap suc (length-names tasks)

-- No more names are popped than there are tasks; if as many, then each task is popped.
popped-bound :
    (tasks : List PlannedTask) (degrees : Counts) (stack popped : List Str)
    → Progress tasks degrees stack popped
    → length popped ≤ length tasks
popped-bound tasks degrees stack popped p = omega (
  arith,
  hits-bound (map name tasks) popped ((p.split).done),
  hits-known (map name tasks) popped p.known_done,
  length-names tasks,
)

popped-all :
    (tasks : List PlannedTask) (degrees : Counts) (stack popped : List Str) (n : Str)
    → Progress tasks degrees stack popped
    → length tasks ≤ length popped
    → contains (map name tasks) n ≡ true
    → contains popped n ≡ true
popped-all tasks degrees stack popped n p h c =
    hits-all (map name tasks) popped n ((p.split).done) all c
  where
    all : length (map name tasks) ≤ hits (map name tasks) popped
    all = omega (arith, h, hits-known (map name tasks) popped p.known_done, length-names tasks)

-- How the loop ends: the visited tasks, the last first, are in a topological order, and no task is left
-- that lists no dependency twice and whose dependencies are all visited.
pub record Drained (tasks : List PlannedTask) (visited : ℕ) : Type 0 where
  pub order : List Str
  pub visits : length order ≡ visited
  pub bounded : visited ≤ length tasks
  pub once : Distinct order
  pub known : (n : Str) → contains order n ≡ true → contains (map name tasks) n ≡ true
  pub topological : Ordered tasks order
  pub maximal :
      (n : Str)
      → contains (map name tasks) n ≡ true
      → Distinct (deps_of tasks n)
      → ((d : Str) → contains (deps_of tasks n) d ≡ true → contains order d ≡ true)
      → contains order n ≡ true
  pub complete :
      visited ≡ length tasks
      → (n : Str) → contains (map name tasks) n ≡ true
      → contains order n ≡ true

nothing_left :
    (tasks : List PlannedTask) (degrees : Counts) (popped : List Str) (n : Str)
    → Progress tasks degrees [] popped
    → contains (map name tasks) n ≡ true
    → Distinct (deps_of tasks n)
    → ((d : Str) → contains (deps_of tasks n) d ≡ true → contains popped d ≡ true)
    → contains popped n ≡ true
nothing_left tasks degrees popped n p k u all =
    p.started n k (omega (arith, p.count n, hits-covers (deps_of tasks n) popped u all))

pub drain_all-Drained :
    (fuel : ℕ) (tasks : List PlannedTask) (degrees : Counts) (stack popped : List Str) (visited : ℕ)
    → Distinct (map name tasks)
    → Progress tasks degrees stack popped
    → length popped ≡ visited
    → fuel + visited ≡ length tasks
    → (v : ℕ) × (drain_all fuel tasks degrees stack visited ≡ some v) × Drained tasks v
unfolding drain_all
drain_all-Drained fuel tasks degrees [] popped visited u p e f = (
  visited,
  refl,
  record {
    order = popped;
    visits = e;
    bounded = omega (arith, e, popped-bound tasks degrees [] popped p);
    once = (p.split).done;
    known = p.known_done;
    topological = p.ordered;
    maximal = λ n k d all. nothing_left tasks degrees popped n p k d all;
    complete = λ h n c. popped-all tasks degrees [] popped n p (omega (arith, e, h)) c;
  },
)
drain_all-Drained zero tasks degrees (id ∷ stack) popped visited u p e f = absurd (
    ground (
      arith,
      popped-all tasks degrees (id ∷ stack) popped id p (omega (arith, e, f))
          (p.known_stack id (ground (arith, str_eq_refl id))),
      (p.split).apart id (ground (arith, str_eq_refl id)),
    ))
drain_all-Drained (suc fuel) tasks degrees (id ∷ stack) popped visited u p e f =
    let next = relax_all id tasks (degrees, stack) in
    drain_all-Drained fuel tasks (next.0) (next.1) (id ∷ popped) (visited + 1) u
      (pop-Progress tasks id degrees stack popped u p) (omega (arith, e)) (omega (arith, f))
