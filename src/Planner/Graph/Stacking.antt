-- ===== src/Planner/Graph/Stacking.antt =====
-- Which tasks the inner loop leaves on the stack.
use agentic_software_factory.Prelude.{
  ◌≡◌, refl, sym, subst, ◌∙◌, ap, inl, inr, arith, Bool, true, false, List, [], ◌∷◌, map, Str,
  str_eq, str_eq→eq, contains, Bool-cases,
}
use agentic_software_factory.Planner.{PlannedTask, name, decrement}
use agentic_software_factory.Planner.Known.{Counts, relax_all}
use agentic_software_factory.Planner.Graph.{deps_of}
use agentic_software_factory.Planner.Graph.Relaxing.{deps_of-cons, step, step-degree}

step-keeps :
    (depends : Bool) (n : Str) (degrees : Counts) (stack : List Str) (m : Str)
    → contains stack m ≡ true
    → contains ((step depends n (degrees, stack)).1) m ≡ true
step-keeps false n degrees stack m h = h
step-keeps true n degrees stack m h = ground (arith, h)

-- What is stacked stays so, and a dependent whose last degree goes is stacked.
pub relax_all-keeps :
    (id : Str) (tasks : List PlannedTask) (degrees : Counts) (stack : List Str) (n : Str)
    → contains stack n ≡ true
    → contains ((relax_all id tasks (degrees, stack)).1) n ≡ true
unfolding relax_all
relax_all-keeps id [] degrees stack n h = h
relax_all-keeps id (task ∷ tasks) degrees stack n h =
    let c = contains task.dependencies id in
    relax_all-keeps id tasks ((step c (name task) (degrees, stack)).0)
      ((step c (name task) (degrees, stack)).1) n (step-keeps c (name task) degrees stack n h)

step-pushes :
    (n m : Str) (degrees : Counts) (stack : List Str)
    → str_eq n m ≡ true
    → decrement (degrees m) ≡ 0
    → contains ((step true n (degrees, stack)).1) m ≡ true
step-pushes n m degrees stack t z =
    let e : decrement (degrees n) ≡ 0 = ap (λ x. decrement (degrees x)) (str_eq→eq n m t) ∙ z in
    rw e (ground (arith, t))

pub relax_all-pushes :
    (id : Str) (tasks : List PlannedTask) (degrees : Counts) (stack : List Str) (n : Str)
    → contains (map name tasks) n ≡ true
    → contains (deps_of tasks n) id ≡ true
    → decrement (degrees n) ≡ 0
    → contains ((relax_all id tasks (degrees, stack)).1) n ≡ true
unfolding relax_all
relax_all-pushes id [] degrees stack n k c z = absurd (ground (arith, k))
relax_all-pushes id (task ∷ tasks) degrees stack n k c z =
    let d = contains task.dependencies id in
    let after = step d (name task) (degrees, stack) in
    let depends = sym (ap (λ ds. contains ds id) (deps_of-cons task tasks n)) ∙ c in
    elim (Bool-cases (str_eq (name task) n)) [
      | inl t ↦ relax_all-keeps id tasks (after.0) (after.1) n (
          subst (λ b. contains ((step b (name task) (degrees, stack)).1) n ≡ true)
            (sym (rw t at depends)) (step-pushes (name task) n degrees stack t z))
      | inr f ↦
          relax_all-pushes id tasks (after.0) (after.1) n (ground (arith, k, f)) (rw f at depends)
            (ap decrement (step-degree d (name task) degrees stack n ∙ rw f refl) ∙ z)
    ]
