-- ===== src/Planner/Graph/Lookups.antt =====
-- No look-up of the loop of `validate_plan` fails: the names of the tasks are the keys of the map.
use agentic_software_factory.Prelude.{
  ℕ, zero, suc, ◌+◌, ◌≡◌, refl, inl, inr, arith, true, some, List, [], ◌∷◌, ◌==◌, if◌then◌else◌,
  map, Bool-cases, Str, str_eq, str_eq_refl, contains,
}
use agentic_software_factory.Planner.{
  PlannedTask, name, Degrees, set, decrement, indegree, subtract, relax, drain,
}
use agentic_software_factory.Planner.Known.{Counts, set_count, count_of, relax_all, drain_all}

-- The map has the given count for each name of the list.
abbrev Agrees : List Str → Degrees → Counts → Type 0
Agrees names degrees counts = (n : Str) → contains names n ≡ true → degrees n ≡ some (counts n)

pub indegree-known :
    (tasks : List PlannedTask) → Agrees (map name tasks) (indegree tasks) (count_of tasks)
unfolding indegree count_of
indegree-known [] n c = absurd (ground (arith, c))
indegree-known (task ∷ tasks) n c = elim (Bool-cases (str_eq (name task) n)) [
  | inl e ↦ rw e refl
  | inr e ↦ rw e (indegree-known tasks n (ground (arith, c, e)))
]

set-Agrees :
    (names : List Str) (degrees : Degrees) (counts : Counts) (m : Str) (v : ℕ)
    → Agrees names degrees counts
    → Agrees names (set m v degrees) (set_count m v counts)
set-Agrees names degrees counts m v a n c = elim (Bool-cases (str_eq m n)) [
  | inl e ↦ rw e refl
  | inr e ↦ rw e (a n c)
]

relax-known :
    (names : List Str) (id : Str) (tasks : List PlannedTask) (degrees : Degrees) (counts : Counts)
    (stack : List Str)
    → ((n : Str) → contains (map name tasks) n ≡ true → contains names n ≡ true)
    → Agrees names degrees counts
    → (d : Degrees) × (relax id tasks (degrees, stack)
        ≡ some (d, (relax_all id tasks (counts, stack)).1))
      × Agrees names d ((relax_all id tasks (counts, stack)).0)
unfolding relax relax_all subtract
relax-known names id [] degrees counts stack k a = (degrees, refl, a)
relax-known names id (task ∷ tasks) degrees counts stack k a =
    let later : (n : Str) → contains (map name tasks) n ≡ true → contains names n ≡ true =
      λ n c. k n (ground (arith, c)) in
    let found = a (name task) (k (name task) (ground (arith, str_eq_refl (name task)))) in
    let e = decrement (counts (name task)) in
    elim (Bool-cases (contains task.dependencies id)) [
      | inr f ↦
          let (d, run, b) = relax-known names id tasks degrees counts stack later a in
          (d, rw (f, relax, subtract, relax_all) run, rw (f, relax_all) b)
      | inl t ↦
          let (d, run, b) =
            relax-known names id tasks (set (name task) e degrees) (set_count (name task) e counts)
              (if e == 0 then name task ∷ stack else stack) later
              (set-Agrees names degrees counts (name task) e a) in
          (d, rw (t, found, relax, subtract, relax_all) run, rw (t, relax_all) b)
    ]

pub drain-known :
    (fuel : ℕ) (tasks : List PlannedTask) (degrees : Degrees) (counts : Counts) (stack : List Str)
    (visited v : ℕ)
    → Agrees (map name tasks) degrees counts
    → drain_all fuel tasks counts stack visited ≡ some v
    → drain fuel tasks degrees stack visited ≡ some v
unfolding drain drain_all
drain-known fuel tasks degrees counts [] visited v a h = h
drain-known zero tasks degrees counts (id ∷ stack) visited v a h = absurd (ground (arith, h))
drain-known (suc fuel) tasks degrees counts (id ∷ stack) visited v a h =
    let (d, run, b) = relax-known (map name tasks) id tasks degrees counts stack (λ n c. c) a in
    let next = relax_all id tasks (counts, stack) in
    rw (run, drain) (drain-known fuel tasks d (next.0) (next.1) (visited + 1) v b h)
