-- ===== src/Planner/Graph/Starting.antt =====
-- The queue before the loop, and the loop as a whole.
use agentic_software_factory.Prelude.{
  str_eq_refl, ℕ, ◌≡◌, refl, sym, ◌∙◌, ap, arith, Bool, true, false, List, [], ◌∷◌, ◌==◌,
  if◌then◌else◌, length, map, Str, str_eq, str_eq→eq, contains, filter, some,
}
use agentic_software_factory.Planner.{
  PlannedTask, name, indegree, waits_for_none, ready_tasks, drain, visited_tasks,
}
use agentic_software_factory.Planner.Graph.Lookups.{indegree-known, drain-known}
use agentic_software_factory.Planner.Known.{count_of}
use agentic_software_factory.Planner.Graph.{deps_of, count_of-length, Distinct, hits-nil}
use agentic_software_factory.Planner.Graph.Draining.{Progress, Drained, drain_all-Drained}

-- What a hash map's iteration promises: each key once.
pub record IsOrder (hash_order : List Str → List Str) : Type 0 where
  pub distinct : (l : List Str) → Distinct l → Distinct (hash_order l)
  pub same_keys : (l : List Str) (n : Str) → contains (hash_order l) n ≡ contains l n

contains-filter :
    (p : Str → Bool) (l : List Str) (n : Str)
    → contains (filter p l) n ≡ true
    → (contains l n ≡ true) × (p n ≡ true)
contains-filter p [] n h = absurd (ground (arith, h))
contains-filter p (x ∷ l) n h = ground (arith, h, contains-filter p l n, same)
  where
    same : str_eq x n ≡ true → p x ≡ p n
    same t = ap p (str_eq→eq x n t)

filter-contains :
    (p : Str → Bool) (l : List Str) (n : Str)
    → contains l n ≡ true
    → p n ≡ true
    → contains (filter p l) n ≡ true
filter-contains p [] n c h = absurd (ground (arith, c))
filter-contains p (x ∷ l) n c h = ground (arith, c, h, filter-contains p l n, same)
  where
    same : str_eq x n ≡ true → p x ≡ p n
    same t = ap p (str_eq→eq x n t)

Distinct-if :
    (b : Bool) (x : Str) (l : List Str)
    → contains l x ≡ false
    → Distinct l
    → Distinct (if b then x ∷ l else l)
Distinct-if true x l a u = (a, u)
Distinct-if false x l a u = u

filter-Distinct : (p : Str → Bool) (l : List Str) → Distinct l → Distinct (filter p l)
filter-Distinct p [] u = tt
filter-Distinct p (x ∷ l) (a, u) =
    Distinct-if (p x) x (filter p l) (ground (arith, a, contains-filter p l x))
      (filter-Distinct p l u)

filter-same :
    (p q : Str → Bool) (l : List Str)
    → ((x : Str) → contains l x ≡ true → p x ≡ q x)
    → filter p l ≡ filter q l
filter-same p q [] k = refl
filter-same p q (x ∷ l) k =
    ground (
      arith,
      k x (ground (arith, str_eq_refl x)),
      filter-same p q l (λ y c. k y (ground (arith, c))),
    )

-- The queue before the loop where no look-up fails.
ready_all : (List Str → List Str) → List PlannedTask → List Str
ready_all hash_order tasks = filter (λ n. count_of tasks n == 0) (hash_order (map name tasks))

ready-known :
    (hash_order : List Str → List Str) (tasks : List PlannedTask)
    → IsOrder hash_order
    → ready_tasks hash_order tasks ≡ ready_all hash_order tasks
unfolding ready_tasks ready_all
ready-known hash_order tasks o =
    filter-same _ _ (hash_order (map name tasks))
      (λ n c. ap waits_for_none (indegree-known tasks n (sym (o.same_keys (map name tasks) n) ∙ c)))

initial-Progress :
    (hash_order : List Str → List Str) (tasks : List PlannedTask)
    → IsOrder hash_order
    → Distinct (map name tasks)
    → Progress tasks (count_of tasks) (ready_all hash_order tasks) []
unfolding ready_all
initial-Progress hash_order tasks o u = record {
  split = record {
    stacked =
        filter-Distinct (λ n. count_of tasks n == 0) (hash_order (map name tasks))
          (o.distinct (map name tasks) u);
    done = tt;
    apart = λ n c. refl;
    zero_stacked = λ n c.
        ground (
          arith,
          (contains-filter (λ m. count_of tasks m == 0) (hash_order (map name tasks)) n c).1,
        );
    zero_done = λ n c. absurd (ground (arith, c));
  };
  count = λ n. omega (arith, count_of-length tasks n, hits-nil (deps_of tasks n));
  ordered = tt;
  known_stack = λ n c.
      sym (o.same_keys (map name tasks) n)
      ∙ (contains-filter (λ m. count_of tasks m == 0) (hash_order (map name tasks)) n c).0;
  known_done = λ n c. absurd (ground (arith, c));
  started = λ n k z. ground (
    arith,
    filter-contains (λ m. count_of tasks m == 0) (hash_order (map name tasks)) n
        (o.same_keys (map name tasks) n ∙ k) (ground (arith, z)),
  );
}

-- The loop of a plan whose task names are distinct ends before its fuel does, and no name that it looks
-- up is missing. What it has visited are tasks of the plan, each once, in an order in which each comes
-- after its dependencies; it stops only when every task that lists no dependency twice and whose
-- dependencies are all visited is visited itself; and if it counts as many as there are tasks, it has
-- visited all of them.
pub visited_tasks-Drained :
    (hash_order : List Str → List Str) (tasks : List PlannedTask)
    → IsOrder hash_order
    → Distinct (map name tasks)
    → (v : ℕ) × (visited_tasks hash_order tasks ≡ some v) × Drained tasks v
unfolding visited_tasks
visited_tasks-Drained hash_order tasks o u =
    let (v, run, drained) =
      drain_all-Drained (length tasks) tasks (count_of tasks) (ready_all hash_order tasks) [] 0 u
        (initial-Progress hash_order tasks o u) refl (omega arith) in
    (
      v,
      ap (λ q. drain (length tasks) tasks (indegree tasks) q 0) (ready-known hash_order tasks o)
          ∙ drain-known (length tasks) tasks (indegree tasks) (count_of tasks)
              (ready_all hash_order tasks) 0 v (indegree-known tasks) run,
      drained,
    )
