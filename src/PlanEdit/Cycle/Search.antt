-- ===== src/PlanEdit/Cycle/Search.antt =====
-- The search from one task ends within its fuel, and finds a cycle if it can reach one.
use agentic_software_factory.Prelude.{
  ℕ, ◌+◌, ◌*◌, ◌≤◌, ◌≡◌, ◌≢◌, inl, inr, ap, ◌∙◌, arith, Bool, true, false, List, [], ◌∷◌, ◌++◌,
  Bool-cases, length, ℤ, same_int, same_int_refl, has_int,
}
use mathlib.Core.WellFounded.{Acc}
use agentic_software_factory.PlanEdit.{ResolvedTask}
use agentic_software_factory.PlanEdit.Cycle.{
  Marks, Stack, search_from, dependencies_of, edges, visit_fuel,
}
use agentic_software_factory.PlanEdit.Cycle.Pushing.{items, mark-cases}
use agentic_software_factory.PlanEdit.Cycle.Marking.{left, left-seen}

-- The tasks and what they depend on.
abbrev pub nodes : List ResolvedTask → List ℤ
nodes [] = []
nodes (t ∷ rest) = t.id ∷ (t.dependencies ++ nodes rest)

module _ (tasks : List ResolvedTask) where
  abbrev pub DependsOn : ℤ → ℤ → Type 0
  DependsOn y x = has_int (dependencies_of tasks x) y ≡ true

  -- The first depends on the second, through others.
  pub data Chain : ℤ → ℤ → Type 0 where
    one : {x y : ℤ} → DependsOn y x → Chain x y
    more : {x y z : ℤ} → Chain x y → DependsOn z y → Chain x z

  abbrev pub Cycle : Type 0
  Cycle = (x : ℤ) × Chain x x

  abbrev pub Acyclic : ℤ → Type 0
  Acyclic x = Acc DependsOn x

  -- What is true of the marks and of `cyclic` whenever an item is popped.
  pub record Sound (m : Marks) (c : Bool) : Type 0 where
    pub small : (y : ℤ) → m y ≤ 2
    pub closed : (y d : ℤ) → m y ≡ 2 → DependsOn d y → m d ≢ 0
    pub settled : (y : ℤ) → c ≡ false → m y ≡ 2 → Acyclic y
    pub cyclic : c ≡ true → Cycle

  -- The open tasks stay the same, and what was processed stays so.
  pub record Grows (m n : Marks) : Type 0 where
    pub opens : (y : ℤ) → m y ≡ 1 → n y ≡ 1
    pub keeps : (y : ℤ) → m y ≡ 2 → n y ≡ 2
    pub closes : (y : ℤ) → n y ≡ 1 → m y ≡ 1

  -- Each open task depends on the task, through others.
  abbrev pub Above : Marks → ℤ → Type 0
  Above m x = (y : ℤ) → m y ≡ 1 → Chain y x

  -- What opening a task takes at most: its pushes, each opened for a moment.
  abbrev pub weight : ℕ
  weight = 2 + edges tasks * visit_fuel (edges tasks)

  abbrev pub rest_of : Marks → ℕ
  rest_of = left weight (nodes tasks)

  -- The search goes from the one stack to the other in so many steps.
  pub record Goes (before after : Stack) (m n : Marks) (c b : Bool) (budget : ℕ) : Type 0 where
    pub count : ℕ
    pub enough : count + rest_of n ≤ budget + rest_of m
    pub reaches : (k : ℕ) → search_from (count + k) tasks before m c ≡ search_from k tasks after n b

  pub record Visited (d : List ℤ) (m n : Marks) (c b : Bool) : Type 0 where
    pub sound : Sound n b
    pub grows : Grows m n
    pub seen : (y : ℤ) → has_int d y ≡ true → n y ≢ 0
    pub finished : (y : ℤ) → has_int d y ≡ true → b ≡ false → n y ≡ 2
    pub stays : b ≡ false → c ≡ false

  abbrev pub Visits : ℕ → Type 0
  Visits bound =
      (m : Marks) (c : Bool) (x : ℤ) (stack : Stack)
      → rest_of m ≤ bound
      → Sound m c
      → Above m x
      → has_int (nodes tasks) x ≡ true
      → (n : Marks) × (b : Bool) × Goes ((x, false) ∷ stack) stack m n c b
          (visit_fuel (edges tasks))
        × Visited (x ∷ []) m n c b

  pub Grows-refl : (m : Marks) → Grows m m
  Grows-refl m = record { opens = λ y h. h; keeps = λ y h. h; closes = λ y h. h }

  pub Grows-trans : {m n p : Marks} → Grows m n → Grows n p → Grows m p
  Grows-trans f g = record {
    opens = λ y h. g.opens y (f.opens y h);
    keeps = λ y h. g.keeps y (f.keeps y h);
    closes = λ y h. f.closes y (g.closes y h);
  }

  -- A task that was seen stays seen.
  Grows-seen : {m n : Marks} {c : Bool} (y : ℤ) → Sound m c → Grows m n → m y ≢ 0 → n y ≢ 0
  Grows-seen {m} {n} y s g h = elim (mark-cases (m y) (s.small y)) [
    | inl e ↦ absurd (h e)
    | inr (inl e) ↦ omega (arith, g.opens y e)
    | inr (inr e) ↦ omega (arith, g.keeps y e)
  ]

  pub same_fuel :
      {a : ℕ} (b : ℕ) (stack : Stack) (m : Marks) (c : Bool)
      → a ≡ b
      → search_from a tasks stack m c ≡ search_from b tasks stack m c
  same_fuel b stack m c e = ap (λ w. search_from w tasks stack m c) e

  -- The items on top of the stack, one after the other.
  pub visit_all :
      (bound : ℕ) (ds : List ℤ) (m : Marks) (c : Bool) (stack : Stack)
      → Visits bound
      → rest_of m ≤ bound
      → Sound m c
      → ((d : ℤ) → has_int ds d ≡ true → Above m d)
      → ((d : ℤ) → has_int ds d ≡ true → has_int (nodes tasks) d ≡ true)
      → (n : Marks) × (b : Bool) × Goes
          (items ds stack)
          stack
          m
          n
          c
          b
          (length ds * visit_fuel (edges tasks))
        × Visited ds m n c b
  visit_all bound [] m c stack v h s above known = (
    m,
    c,
    record { count = 0; enough = omega arith; reaches = λ k. same_fuel k stack m c (omega arith) },
    record {
      sound = s;
      grows = Grows-refl m;
      seen = λ y h. absurd (ground (arith, h));
      finished = λ y h. absurd (ground (arith, h));
      stays = λ h. h;
    },
  )
  visit_all bound (d ∷ ds) m c stack v h s above known =
      let (n, b, first, here) =
        v m c d (items ds stack) h s (above d (ground (arith, same_int_refl d)))
          (known d (ground (arith, same_int_refl d))) in
      let (n', b', second, there) =
        visit_all bound ds n b stack v
          (omega
            (arith, h, left-seen weight (nodes tasks) m n (λ y z. Grows-seen y s here.grows z)))
          here.sound (λ y k z o. above y (ground (arith, k)) z (here.grows.closes z o))
          (λ y k. known y (ground (arith, k))) in
      (
        n',
        b',
        record {
          count = first.count + second.count;
          enough = omega (arith, first.enough, second.enough);
          reaches = λ k.
              same_fuel (first.count + (second.count + k)) (items (d ∷ ds) stack) m c (omega arith)
              ∙ first.reaches (second.count + k)
              ∙ second.reaches k;
        },
        record {
          sound = there.sound;
          grows = Grows-trans here.grows there.grows;
          seen = λ y k. elim (Bool-cases (same_int d y)) [
            | inl e ↦ Grows-seen y here.sound there.grows (here.seen y (ground (arith, e)))
            | inr e ↦ there.seen y (ground (arith, k, e))
          ];
          finished = λ y k z. elim (Bool-cases (same_int d y)) [
            | inl e ↦ there.grows.keeps y (here.finished y (ground (arith, e)) (there.stays z))
            | inr e ↦ there.finished y (ground (arith, k, e)) z
          ];
          stays = λ e. here.stays (there.stays e);
        },
      )
