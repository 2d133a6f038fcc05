-- ===== src/Planner/Graph/Relaxing.antt =====
-- What the inner loop does to the degrees and to the stack.
use agentic_software_factory.Prelude.{
  ℕ, zero, suc, ◌<◌, ◌≡◌, refl, sym, subst, ◌∙◌, ap, inl, inr, arith, Bool, true, false, List, [],
  ◌∷◌, ◌||◌, ◌&&◌, ◌==◌, if◌then◌else◌, map, Str, str_eq, str_eq→eq, str_eq_refl, contains,
  Bool-cases,
}
use agentic_software_factory.Planner.{PlannedTask, name, decrement}
use agentic_software_factory.Planner.Known.{Counts, set_count, relax_all}
use agentic_software_factory.Planner.Graph.{deps_of, Distinct}

-- The stack and the popped names are distinct and apart, and have degree 0.
pub record IsApart (degrees : Counts) (stack popped : List Str) : Type 0 where
  pub stacked : Distinct stack
  pub done : Distinct popped
  pub apart : (n : Str) → contains stack n ≡ true → contains popped n ≡ false
  pub zero_stacked : (n : Str) → contains stack n ≡ true → degrees n ≡ 0
  pub zero_done : (n : Str) → contains popped n ≡ true → degrees n ≡ 0

-- The names depend on the popped one only while their degree is positive.
abbrev pub Positive : Str → List PlannedTask → Counts → Type 0
Positive id tasks degrees = (n : Str) → contains (deps_of tasks n) id ≡ true → 0 < degrees n

pub deps_of-absent :
    (tasks : List PlannedTask) (n : Str)
    → contains (map name tasks) n ≡ false
    → deps_of tasks n ≡ []
unfolding deps_of
deps_of-absent [] n h = refl
deps_of-absent (task ∷ tasks) n h = ground (arith, h, deps_of-absent tasks n)

pub deps_of-cons :
    (task : PlannedTask) (tasks : List PlannedTask) (n : Str)
    → deps_of (task ∷ tasks) n
      ≡ (if str_eq (name task) n then task.dependencies else deps_of tasks n)
unfolding deps_of
deps_of-cons task tasks n = refl

-- The degrees and the stack after one task, which depends on the popped one or not.
abbrev pub step : Bool → Str → Counts × List Str → Counts × List Str
step depends n (degrees, stack) =
    let e = decrement (degrees n) in
    if depends
    then (set_count n e degrees, if e == 0 then n ∷ stack else stack)
    else (degrees, stack)

absent :
    (n : Str) (degrees : Counts) (xs : List Str)
    → ((m : Str) → contains xs m ≡ true → degrees m ≡ 0)
    → 0 < degrees n
    → contains xs n ≡ false
absent n degrees xs z pos = elim (Bool-cases (contains xs n)) [
  | inl t ↦ absurd (omega (arith, z n t, pos))
  | inr f ↦ f
]

set-other :
    (n m : Str) (e : ℕ) (degrees : Counts)
    → degrees m ≡ 0
    → 0 < degrees n
    → set_count n e degrees m ≡ 0
set-other n m e degrees z pos = elim (Bool-cases (str_eq n m)) [
  | inl t ↦ absurd (omega (arith, subst (λ k. 0 < degrees k) (str_eq→eq n m t) pos, z))
  | inr f ↦ ground (arith, f, z)
]

keep-IsApart :
    (n : Str) (e : ℕ) (degrees : Counts) (stack popped : List Str)
    → 0 < degrees n
    → IsApart degrees stack popped
    → IsApart (set_count n e degrees) stack popped
keep-IsApart n e degrees stack popped pos a = record {
  stacked = a.stacked;
  done = a.done;
  apart = a.apart;
  zero_stacked = λ m c. set-other n m e degrees (a.zero_stacked m c) pos;
  zero_done = λ m c. set-other n m e degrees (a.zero_done m c) pos;
}

push-IsApart :
    (n : Str) (degrees : Counts) (stack popped : List Str)
    → 0 < degrees n
    → IsApart degrees stack popped
    → IsApart (set_count n 0 degrees) (n ∷ stack) popped
push-IsApart n degrees stack popped pos a = record {
  stacked = (absent n degrees stack a.zero_stacked pos, a.stacked);
  done = a.done;
  apart = λ m c. elim (Bool-cases (str_eq n m)) [
    | inl t ↦
        subst (λ k. contains popped k ≡ false) (str_eq→eq n m t)
          (absent n degrees popped a.zero_done pos)
    | inr f ↦ a.apart m (ground (arith, c, f))
  ];
  zero_stacked = λ m c. elim (Bool-cases (str_eq n m)) [
    | inl t ↦ ground (arith, t)
    | inr f ↦ set-other n m 0 degrees (a.zero_stacked m (ground (arith, c, f))) pos
  ];
  zero_done = λ m c. set-other n m 0 degrees (a.zero_done m c) pos;
}

step-IsApart :
    (depends : Bool) (n : Str) (degrees : Counts) (stack popped : List Str)
    → (depends ≡ true → 0 < degrees n)
    → IsApart degrees stack popped
    → IsApart ((step depends n (degrees, stack)).0) ((step depends n (degrees, stack)).1) popped
step-IsApart false n degrees stack popped pos a = a
step-IsApart true n degrees stack popped pos a = go (decrement (degrees n))
  where
    go : (e : ℕ) → IsApart (set_count n e degrees) (if e == 0 then n ∷ stack else stack) popped
    go zero = push-IsApart n degrees stack popped (pos refl) a
    go (suc e) =
        subst (λ s. IsApart (set_count n (suc e) degrees) s popped) (ground arith)
          (keep-IsApart n (suc e) degrees stack popped (pos refl) a)

pub step-degree :
    (depends : Bool) (n : Str) (degrees : Counts) (stack : List Str) (m : Str)
    → (step depends n (degrees, stack)).0 m
      ≡ (if str_eq n m && depends then decrement (degrees n) else degrees m)
step-degree false n degrees stack m = ground arith
step-degree true n degrees stack m = ground arith

step-stack :
    (depends : Bool) (n : Str) (degrees : Counts) (stack : List Str) (m : Str)
    → contains ((step depends n (degrees, stack)).1) m ≡ true
    → (str_eq n m || contains stack m) ≡ true
step-stack false n degrees stack m h = ground (arith, h)
step-stack true n degrees stack m h = ground (arith, h)

-- The other tasks have other names.
other :
    (task : PlannedTask) (tasks : List PlannedTask) (id n : Str)
    → contains (map name tasks) (name task) ≡ false
    → contains (deps_of tasks n) id ≡ true
    → str_eq (name task) n ≡ false
other task tasks id n a c = elim (Bool-cases (str_eq (name task) n)) [
  | inl t ↦ absurd (ground (arith, c, none_of t))
  | inr f ↦ f
]
  where
    none_of : str_eq (name task) n ≡ true → contains (deps_of tasks n) id ≡ false
    none_of t =
        subst (λ ds. contains ds id ≡ false)
          (sym (
            deps_of-absent tasks n
              (subst (λ m. contains (map name tasks) m ≡ false) (str_eq→eq (name task) n t) a)))
          refl

Positive-step :
    (id : Str) (task : PlannedTask) (tasks : List PlannedTask) (degrees : Counts) (stack : List Str)
    → contains (map name tasks) (name task) ≡ false
    → Positive id (task ∷ tasks) degrees
    → Positive id tasks ((step (contains task.dependencies id) (name task) (degrees, stack)).0)
Positive-step id task tasks degrees stack a pos n c =
    let o = other task tasks id n a c in
    let d = step-degree (contains task.dependencies id) (name task) degrees stack n in
    let p = pos n (ap (λ ds. contains ds id) (deps_of-cons task tasks n) ∙ ground (arith, o, c)) in
    subst (λ k. 0 < k) (sym (d ∙ ground (arith, o))) p

pub relax_all-IsApart :
    (id : Str) (tasks : List PlannedTask) (degrees : Counts) (stack popped : List Str)
    → Distinct (map name tasks)
    → Positive id tasks degrees
    → IsApart degrees stack popped
    → IsApart
        ((relax_all id tasks (degrees, stack)).0)
        ((relax_all id tasks (degrees, stack)).1)
        popped
unfolding relax_all
relax_all-IsApart id [] degrees stack popped u pos a = a
relax_all-IsApart id (task ∷ tasks) degrees stack popped (x, u) pos a =
    let c = contains task.dependencies id in
    relax_all-IsApart id tasks ((step c (name task) (degrees, stack)).0)
      ((step c (name task) (degrees, stack)).1) popped u
      (Positive-step id task tasks degrees stack x pos)
      (step-IsApart c (name task) degrees stack popped (λ h. pos (name task) (first h)) a)
  where
    first :
        contains task.dependencies id ≡ true
        → contains (deps_of (task ∷ tasks) (name task)) id ≡ true
    first h =
        ap (λ ds. contains ds id) (deps_of-cons task tasks (name task))
        ∙ ground (arith, h, str_eq_refl (name task))

-- The degree of the name of the first task is settled at the first step, any other later.
first-degree :
    (e c b : Bool) (d dn s r : ℕ)
    → (e ≡ true → b ≡ false)
    → (e ≡ true → dn ≡ d)
    → s ≡ (if e && c then decrement dn else d)
    → r ≡ (if b then decrement s else s)
    → r ≡ (if (if e then c else b) then decrement d else d)
first-degree true c b d dn s r none_of same h k = ground (arith, none_of refl, same refl, h, k)
first-degree false c b d dn s r none_of same h k = ground (arith, h, k)

pub relax_all-degree :
    (id : Str) (tasks : List PlannedTask) (degrees : Counts) (stack : List Str) (n : Str)
    → Distinct (map name tasks)
    → (relax_all id tasks (degrees, stack)).0 n
      ≡ (if contains (deps_of tasks n) id then decrement (degrees n) else degrees n)
unfolding relax_all deps_of
relax_all-degree id [] degrees stack n u = refl
relax_all-degree id (task ∷ tasks) degrees stack n (x, u) =
    let c = contains task.dependencies id in
    let after = step c (name task) (degrees, stack) in
    let rest = relax_all id tasks after in
    first-degree (str_eq (name task) n) c (contains (deps_of tasks n) id) (degrees n)
      (degrees (name task)) (after.0 n) (rest.0 n) (λ t. none_of t)
      (λ t. ap degrees (str_eq→eq (name task) n t)) (step-degree c (name task) degrees stack n)
      (relax_all-degree id tasks (after.0) (after.1) n u)
    ∙ ground arith
  where
    none_of : str_eq (name task) n ≡ true → contains (deps_of tasks n) id ≡ false
    none_of t =
        subst (λ ds. contains ds id ≡ false)
          (sym (
            deps_of-absent tasks n
              (subst (λ m. contains (map name tasks) m ≡ false) (str_eq→eq (name task) n t) x)))
          refl

pub relax_all-stack :
    (id : Str) (tasks : List PlannedTask) (degrees : Counts) (stack : List Str) (n : Str)
    → contains ((relax_all id tasks (degrees, stack)).1) n ≡ true
    → (contains (map name tasks) n || contains stack n) ≡ true
unfolding relax_all
relax_all-stack id [] degrees stack n h = h
relax_all-stack id (task ∷ tasks) degrees stack n h =
    let c = contains task.dependencies id in
    ground (
      arith,
      step-stack c (name task) degrees stack n,
      relax_all-stack id tasks ((step c (name task) (degrees, stack)).0)
          ((step c (name task) (degrees, stack)).1) n h,
    )
