-- ===== src/Planner/Acyclic.antt =====
-- What the validation of a plan accepts: its loop ends, and its graph has no cycle.
use agentic_software_factory.Prelude.{
  ℕ, suc, ◌≤◌, ◌<◌, ◌≡◌, ◌⊎◌, refl, sym, subst, ap, inl, inr, arith, true, false, List, [], ◌∷◌,
  if◌then◌else◌, length, map, Str, str_eq, str_eq→eq, str_eq_refl, contains, Bool-cases, some,
  Result, ok, err, is_empty, ◌>>◌,
}
use agentic_software_factory.Planner.{
  PlannedTask, Plan, name, visited_tasks, check_contents, check_dependencies, check_acyclic,
  check_planning, validate_plan, max_tasks,
}
use agentic_software_factory.Planner.Graph.{deps_of, Distinct}
use agentic_software_factory.Planner.Graph.Relaxing.{deps_of-absent}
use agentic_software_factory.Planner.Graph.Draining.{Ordered}
use agentic_software_factory.Planner.Graph.Starting.{IsOrder, visited_tasks-Drained}

-- The names are distinct, and none of them is in a list.
Fresh : List Str → List Str → Type 0
Fresh seen names = Distinct names × ((n : Str) → contains names n ≡ true → contains seen n ≡ false)

Fresh-cons :
    (seen : List Str) (x : Str) (names : List Str)
    → contains seen x ≡ false
    → Fresh (x ∷ seen) names
    → Fresh seen (x ∷ names)
unfolding Fresh
Fresh-cons seen x names h (u, k) = ((ground (arith, k x, str_eq_refl x), u), fresh)
  where
    fresh : (n : Str) → contains (x ∷ names) n ≡ true → contains seen n ≡ false
    fresh n c = elim (Bool-cases (str_eq x n)) [
      | inl t ↦ subst (λ m. contains seen m ≡ false) (str_eq→eq x n t) h
      | inr f ↦ ground (arith, c, f, k n)
    ]

accepted-Fresh :
    (seen : List Str) (tasks : List PlannedTask) (r : List Str)
    → check_contents seen tasks ≡ ok r
    → Fresh seen (map name tasks)
unfolding check_contents Fresh
accepted-Fresh seen [] r h = (tt, λ n c. absurd (ground (arith, c)))
accepted-Fresh seen (task ∷ tasks) r h =
    Fresh-cons seen (name task) (map name tasks) (ground (arith, h))
      (accepted-Fresh (name task ∷ seen) tasks r (ground (arith, h)))

accepted-Distinct :
    (tasks : List PlannedTask) (r : List Str)
    → check_contents [] tasks ≡ ok r
    → Distinct (map name tasks)
unfolding Fresh
accepted-Distinct tasks r h = (accepted-Fresh [] tasks r h).0

-- The place of a name in an order, counted from the end.
rank : List Str → Str → ℕ
rank [] n = 0
rank (p ∷ ps) n = let rest = rank ps n in if str_eq p n then suc (length ps) else rest

rank-bound : (ps : List Str) (n : Str) → rank ps n ≤ length ps
unfolding rank
rank-bound [] n = omega arith
rank-bound (p ∷ ps) n = ground (arith, rank-bound ps n)

earlier :
    (tasks : List PlannedTask) (order : List Str) (a b : Str)
    → Distinct order
    → Ordered tasks order
    → contains order a ≡ true
    → contains (deps_of tasks a) b ≡ true
    → (contains order b ≡ true) × (rank order b < rank order a)
unfolding rank
earlier tasks [] a b u o c h = absurd (ground (arith, c))
earlier tasks (p ∷ ps) a b (x, u) (d, o) c h = elim (Bool-cases (str_eq p a)) [
  | inl t ↦
      later (d b (subst (λ m. contains (deps_of tasks m) b ≡ true) (sym (str_eq→eq p a t)) h))
        (rank-bound ps b) t
  | inr f ↦
      let e = earlier tasks ps a b u o (ground (arith, c, f)) h in
      (ground (arith, e.0), ground (arith, f, e.1, differs (e.0)))
]
  where
    differs : contains ps b ≡ true → str_eq p b ≡ false
    differs m = elim (Bool-cases (str_eq p b)) [
      | inl t ↦ absurd (ground (arith, m, subst (λ k. contains ps k ≡ false) (str_eq→eq p b t) x))
      | inr f ↦ f
    ]

    later :
        contains ps b ≡ true
        → rank ps b ≤ length ps
        → str_eq p a ≡ true
        → (contains (p ∷ ps) b ≡ true) × (rank (p ∷ ps) b < rank (p ∷ ps) a)
    later m le t = (ground (arith, m), ground (arith, t, le, differs m))

-- A name needs another, directly or through other tasks.
pub data Needs (tasks : List PlannedTask) : Str → Str → Type 0 where
  direct : {a b : Str} → contains (deps_of tasks a) b ≡ true → Needs tasks a b
  through : {a b c : Str} → contains (deps_of tasks a) b ≡ true → Needs tasks b c → Needs tasks a c

known :
    (tasks : List PlannedTask) (a b : Str)
    → contains (deps_of tasks a) b ≡ true
    → contains (map name tasks) a ≡ true
known tasks a b h = elim (Bool-cases (contains (map name tasks) a)) [
  | inl t ↦ t
  | inr f ↦ absurd (ground (arith, h, ap (λ ds. contains ds b) (deps_of-absent tasks a f)))
]

Needs-rank :
    (tasks : List PlannedTask) (order : List Str) {a c : Str}
    → Distinct order
    → Ordered tasks order
    → ((n : Str) → contains (map name tasks) n ≡ true → contains order n ≡ true)
    → Needs tasks a c
    → rank order c < rank order a
Needs-rank tasks order {a} {c} u o k (direct h) =
    (earlier tasks order a c u o (k a (known tasks a c h)) h).1
Needs-rank tasks order {a} {c} u o k (through {b = b} h m) = omega (
  arith,
  (earlier tasks order a b u o (k a (known tasks a b h)) h).1,
  Needs-rank tasks order u o k m,
)

-- What an accepted check says of the loop: it visited every task.
check_acyclic-ok :
    (hash_order : List Str → List Str) (tasks : List PlannedTask) (v : ℕ)
    → visited_tasks hash_order tasks ≡ some v
    → check_acyclic hash_order tasks ≡ ok tt
    → v ≡ length tasks
unfolding check_acyclic
check_acyclic-ok hash_order tasks v e h = ground (arith, e, h)

no_cycle :
    (hash_order : List Str → List Str) (tasks : List PlannedTask)
    → IsOrder hash_order
    → Distinct (map name tasks)
    → check_acyclic hash_order tasks ≡ ok tt
    → (a : Str) → ¬ Needs tasks a a
no_cycle hash_order tasks o u h a n =
    let run = visited_tasks-Drained hash_order tasks o u in
    let d = run.2 in
    let all = d.complete (check_acyclic-ok hash_order tasks (run.0) (run.1) h) in
    omega (arith, Needs-rank tasks d.order d.once d.topological all n)

Result-cases :
    (r : Result (List Str) Str) → ((a : List Str) × (r ≡ ok a)) ⊎ ((e : Str) × (r ≡ err e))
Result-cases (ok a) = inl (a, refl)
Result-cases (err e) = inr (e, refl)

and_then-ok : (a b c : Result (Unit {0}) Str) → (a >> b >> c) ≡ ok tt → b ≡ ok tt
and_then-ok (ok u) (ok v) c h = refl
and_then-ok (ok u) (err e) c h = absurd (ground (arith, h))
and_then-ok (err e) b c h = absurd (ground (arith, h))

-- The parts of an accepted plan.
accepted :
    (hash_order : List Str → List Str) (plan : Plan)
    → validate_plan hash_order plan ≡ ok tt
    → (is_empty plan.tasks ≡ false)
      × (length plan.tasks ≤ max_tasks)
      × ((seen : List Str) × (check_contents [] plan.tasks ≡ ok seen))
      × (check_acyclic hash_order plan.tasks ≡ ok tt)
unfolding validate_plan
accepted hash_order plan h = elim (Result-cases (check_contents [] plan.tasks)) [
  | inl (seen, e) ↦ (
    ground (arith, h),
    ground (arith, h),
    (seen, e),
    and_then-ok (check_dependencies seen plan.tasks) (check_acyclic hash_order plan.tasks)
        (check_planning plan.tasks) (ground (arith, h, e)),
  )
  | inr (e, q) ↦ absurd (ground (arith, h, q))
]

-- A plan that is accepted has between 1 and 50 tasks, their names are distinct, and no task needs
-- itself, directly or through other tasks: the dependency graph has no cycle. This holds for every
-- order in which the hash map may give its keys.
pub validate_plan-acyclic :
    (hash_order : List Str → List Str) (plan : Plan)
    → IsOrder hash_order
    → validate_plan hash_order plan ≡ ok tt
    → (0 < length plan.tasks)
      × (length plan.tasks ≤ 50)
      × Distinct (map name plan.tasks)
      × ((a : Str) → ¬ Needs plan.tasks a a)
validate_plan-acyclic hash_order plan o h =
    let parts = accepted hash_order plan h in
    let u = accepted-Distinct plan.tasks ((parts.2).0) ((parts.2).1) in
    (nonempty plan.tasks (parts.0), parts.1, u, no_cycle hash_order plan.tasks o u (parts.3))
  where
    nonempty : (tasks : List PlannedTask) → is_empty tasks ≡ false → 0 < length tasks
    nonempty [] e = absurd (ground (arith, e))
    nonempty (t ∷ tasks) e = omega arith
