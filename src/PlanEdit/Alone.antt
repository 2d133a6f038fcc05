-- ===== src/PlanEdit/Alone.antt =====
-- The tasks of an id in a list, and what the changes of a list leave of them.
use agentic_software_factory.Prelude.{
  ℕ, zero, suc, ◌≡◌, inl, inr, refl, ap, sym, subst, ◌∙◌, arith, Bool, true, false, not, ◌||◌, List,
  [], ◌∷◌, ◌++◌, ◌==◌, Option, some, none, length, as_i32, eq_of_some, Option-cases, Bool-cases,
  any, any-filter, filter, map, if◌then◌else◌, ℤ, same_int, same_int→eq, has_int,
}
use agentic_software_factory.TaskState.{TaskState}
use agentic_software_factory.PlanEdit.{ResolvedTask, find, has_task}
use agentic_software_factory.PlanEdit.States.{
  is_mutable, mutable, set_state, state_of, recompute_states,
}
use agentic_software_factory.PlanEdit.Calls.{returns}
use agentic_software_factory.PlanEdit.Cycle.{by_id}
use agentic_software_factory.PlanEdit.States.Known.{assign_each}
use agentic_software_factory.PlanEdit.States.Ends.{order_among-ends}
use agentic_software_factory.PlanEdit.States.Lookups.{recompute_states-known}
use agentic_software_factory.PlanEdit.Steps.{replace_first}
use agentic_software_factory.PlanEdit.Patch.{remove_first, insert_at, reorder, number_from, pruned}

-- `tasks.filter(|t| t.id == id)`
abbrev pub of_id : ℤ → List ResolvedTask → List ResolvedTask
of_id id tasks = filter (λ t. same_int (ResolvedTask.id t) id) tasks

apart : (a b c : ℤ) → same_int a b ≡ true → same_int b c ≡ false → same_int a c ≡ false
apart a b c e d = subst (λ w. same_int w c ≡ false) (sym (same_int→eq a b e)) d

head_of : {A : Type 0} {x y : A} {xs ys : List A} → x ∷ xs ≡ y ∷ ys → x ≡ y
head_of h = cc

pub of_id-append :
    (id : ℤ) (xs ys : List ResolvedTask) → of_id id (xs ++ ys) ≡ of_id id xs ++ of_id id ys
of_id-append id [] ys = refl
of_id-append id (t ∷ xs) ys = elim (Bool-cases (same_int t.id id)) [
  | inl e ↦ rw e (ap (λ w. t ∷ w) (of_id-append id xs ys))
  | inr e ↦ rw e (of_id-append id xs ys)
]

pub of_id-find :
    (id : ℤ) (tasks rest : List ResolvedTask) (r : ResolvedTask)
    → of_id id tasks ≡ r ∷ rest
    → find id tasks ≡ some r
of_id-find id [] rest r h = cc
of_id-find id (t ∷ tasks) rest r h = elim (Bool-cases (same_int t.id id)) [
  | inl e ↦ rw e (ap some (head_of (rw e at h)))
  | inr e ↦ rw e (of_id-find id tasks rest r (rw e at h))
]

pub find-id :
    (id : ℤ) (tasks : List ResolvedTask) (t : ResolvedTask) → find id tasks ≡ some t → t.id ≡ id
find-id id [] t h = cc
find-id id (u ∷ tasks) t h = elim (Bool-cases (same_int u.id id)) [
  | inl e ↦ ap ResolvedTask.id (sym (eq_of_some (rw e at h))) ∙ same_int→eq u.id id e
  | inr e ↦ find-id id tasks t (rw e at h)
]

-- A list with another task in it, under another id.
pub of_id-replace_first :
    (id other : ℤ) (new : ResolvedTask) (tasks : List ResolvedTask)
    → new.id ≡ other
    → same_int other id ≡ false
    → of_id id (replace_first other new tasks) ≡ of_id id tasks
of_id-replace_first id other new [] e d = refl
of_id-replace_first id other new (t ∷ tasks) e d = elim (Bool-cases (same_int t.id other)) [
  | inl i ↦ rw i (
      rw (apart t.id other id i d) (
        ap (λ w. if w then new ∷ of_id id tasks else of_id id tasks)
          (ap (λ w. same_int w id) e ∙ d)))
  | inr i ↦
      rw i (
        ap (λ w. if same_int t.id id then t ∷ w else w)
          (of_id-replace_first id other new tasks e d))
]

pub has_task-replace_first :
    (id d : ℤ) (new : ResolvedTask) (tasks : List ResolvedTask)
    → new.id ≡ id
    → has_task (replace_first id new tasks) d ≡ has_task tasks d
has_task-replace_first id d new [] e = refl
has_task-replace_first id d new (t ∷ tasks) e = elim (Bool-cases (same_int t.id id)) [
  | inl i ↦ rw i (ap (λ w. same_int w d || has_task tasks d) (e ∙ sym (same_int→eq t.id id i)))
  | inr i ↦ rw i (ap (λ w. same_int t.id d || w) (has_task-replace_first id d new tasks e))
]

pub has_task-remove_all :
    (id d : ℤ) (tasks : List ResolvedTask)
    → same_int id d ≡ false
    → has_task tasks d ≡ true
    → has_task (filter (λ t. not (same_int (ResolvedTask.id t) id)) tasks) d ≡ true
has_task-remove_all id d [] e h = absurd (ground (arith, h))
has_task-remove_all id d (t ∷ tasks) e h = elim (Bool-cases (same_int t.id id)) [
  | inl i ↦ rw i (has_task-remove_all id d tasks e (ground (arith, h, apart t.id id d i e)))
  | inr i ↦ rw i (ground (arith, h, has_task-remove_all id d tasks e))
]

-- What is found with some property is one of the tasks with it.
pub of_id-any :
    (id : ℤ) (p : ResolvedTask → Bool) (tasks : List ResolvedTask)
    → any p (of_id id tasks) ≡ true
    → any p tasks ≡ true
of_id-any id p tasks = any-filter p (λ t. same_int (ResolvedTask.id t) id) tasks

pub of_id-remove_all :
    (id other : ℤ) (tasks : List ResolvedTask)
    → same_int other id ≡ false
    → of_id id (filter (λ t. not (same_int (ResolvedTask.id t) other)) tasks) ≡ of_id id tasks
of_id-remove_all id other [] d = refl
of_id-remove_all id other (t ∷ tasks) d = elim (Bool-cases (same_int t.id other)) [
  | inl i ↦ rw i (rw (apart t.id other id i d) (of_id-remove_all id other tasks d))
  | inr i ↦
      rw i (ap (λ w. if same_int t.id id then t ∷ w else w) (of_id-remove_all id other tasks d))
]

of_id-remove_first :
    (id other : ℤ) (tasks : List ResolvedTask)
    → same_int other id ≡ false
    → of_id id (remove_first other tasks) ≡ of_id id tasks
of_id-remove_first id other [] d = refl
of_id-remove_first id other (t ∷ tasks) d = elim (Bool-cases (same_int t.id other)) [
  | inl i ↦ rw i (rw (apart t.id other id i d) refl)
  | inr i ↦
      rw i (ap (λ w. if same_int t.id id then t ∷ w else w) (of_id-remove_first id other tasks d))
]

of_id-insert_at :
    (id : ℤ) (n : ℕ) (new : ResolvedTask) (tasks : List ResolvedTask)
    → same_int new.id id ≡ false
    → of_id id (insert_at n new tasks) ≡ of_id id tasks
of_id-insert_at id zero new tasks d = rw d refl
of_id-insert_at id (suc n) new [] d = rw d refl
of_id-insert_at id (suc n) new (t ∷ tasks) d =
    ap (λ w. if same_int t.id id then t ∷ w else w) (of_id-insert_at id n new tasks d)

of_id-set_state :
    (id other : ℤ) (s : TaskState) (tasks : List ResolvedTask)
    → same_int other id ≡ false
    → of_id id (set_state other s tasks) ≡ of_id id tasks
of_id-set_state id other s [] d = refl
of_id-set_state id other s (t ∷ tasks) d = elim (Bool-cases (same_int t.id other)) [
  | inl i ↦ rw i (rw (apart t.id other id i d) refl)
  | inr i ↦
      rw i (ap (λ w. if same_int t.id id then t ∷ w else w) (of_id-set_state id other s tasks d))
]

pub of_id-reorder :
    (id : ℤ) (reorders : List (ℤ × ℕ)) (tasks : List ResolvedTask)
    → any (λ (e : ℤ × ℕ). same_int (e.0) id) reorders ≡ false
    → of_id id (reorder reorders tasks) ≡ of_id id tasks
unfolding reorder
of_id-reorder id [] tasks d = refl
of_id-reorder id ((other, position) ∷ reorders) tasks d = elim (Option-cases (find other tasks)) [
  | inl e ↦ rw (e, reorder) (of_id-reorder id reorders tasks (ground (arith, d)))
  | inr (t, e) ↦
      let d' : same_int other id ≡ false = ground (arith, d) in
      let there : same_int t.id id ≡ false =
        subst (λ w. same_int w id ≡ false) (sym (find-id other tasks t e)) d' in
      rw (e, reorder)
        (of_id-reorder id reorders (insert_at position t (remove_first other tasks))
            (ground (arith, d))
          ∙ of_id-insert_at id position t (remove_first other tasks) there
          ∙ of_id-remove_first id other tasks d')
]

pub of_id-pruned :
    (id : ℤ) (all_tasks tasks : List ResolvedTask)
    → of_id id (map (pruned all_tasks) tasks) ≡ map (pruned all_tasks) (of_id id tasks)
of_id-pruned id all_tasks [] = refl
of_id-pruned id all_tasks (t ∷ tasks) = elim (Bool-cases (same_int t.id id)) [
  | inl e ↦ rw e (ap (λ w. pruned all_tasks t ∷ w) (of_id-pruned id all_tasks tasks))
  | inr e ↦ rw e (of_id-pruned id all_tasks tasks)
]

-- A task under another position.
abbrev pub moved : ResolvedTask → ℤ → ResolvedTask
moved r p = record r { position = p }

tail_of : {A : Type 0} {x y : A} {xs ys : List A} → x ∷ xs ≡ y ∷ ys → xs ≡ ys
tail_of h = cc

number_from-none :
    (id : ℤ) (n : ℕ) (tasks : List ResolvedTask)
    → of_id id tasks ≡ []
    → of_id id (number_from n tasks) ≡ []
unfolding number_from
number_from-none id n [] h = refl
number_from-none id n (t ∷ tasks) h = elim (Bool-cases (same_int t.id id)) [
  | inl e ↦ absurd (ground (arith, rw e at h))
  | inr e ↦ rw e (number_from-none id (suc n) tasks (rw e at h))
]

pub of_id-number_from :
    (id : ℤ) (n : ℕ) (tasks : List ResolvedTask) (r : ResolvedTask)
    → of_id id tasks ≡ r ∷ []
    → (p : ℤ) × (of_id id (number_from n tasks) ≡ moved r p ∷ [])
unfolding number_from
of_id-number_from id n [] r h = cc
of_id-number_from id n (t ∷ tasks) r h = elim (Bool-cases (same_int t.id id)) [
  | inl e ↦
      let same = head_of (rw e at h) in
      let none_left = number_from-none id (suc n) tasks (tail_of (rw e at h)) in
      (
        as_i32 n,
        rw e (ap (λ w. moved t (as_i32 n) ∷ w) none_left ∙ ap (λ w. moved w (as_i32 n) ∷ []) same),
      )
  | inr e ↦ let (p, found) = of_id-number_from id (suc n) tasks r (rw e at h) in (p, rw e found)
]

pub mutable-of_id :
    (attempts : ℤ → Option ℕ) (id : ℤ) (tasks : List ResolvedTask)
    → has_int (mutable attempts tasks) id ≡ any (is_mutable attempts) (of_id id tasks)
mutable-of_id attempts id [] = refl
mutable-of_id attempts id (t ∷ tasks) = ground (arith, mutable-of_id attempts id tasks)

of_id-assign_each :
    (id : ℤ) (order : List ℤ) (states : ℤ → Option TaskState) (tasks : List ResolvedTask)
    → has_int order id ≡ false
    → of_id id (assign_each order states tasks) ≡ of_id id tasks
unfolding assign_each
of_id-assign_each id [] states tasks d = refl
of_id-assign_each id (other ∷ order) states tasks d =
    of_id-assign_each id order _ _ (ground (arith, d))
    ∙ of_id-set_state id other _ tasks (ground (arith, d))

by_id-set_state :
    (id x : ℤ) (s : TaskState) (tasks : List ResolvedTask)
    → by_id (set_state id s tasks) x ≡ by_id tasks x
by_id-set_state id x s [] = refl
by_id-set_state id x s (t ∷ tasks) = elim (Bool-cases (same_int t.id id)) [
  | inl e ↦ rw e refl
  | inr e ↦ rw e (ap (later t x) (by_id-set_state id x s tasks))
]
  where
    later : ResolvedTask → ℤ → Option (List ℤ) → Option (List ℤ)
    later t x (some deps) = some deps
    later t x none = if same_int t.id x then some t.dependencies else none

by_id-assign_each :
    (order : List ℤ) (states : ℤ → Option TaskState) (tasks : List ResolvedTask) (x : ℤ)
    → by_id (assign_each order states tasks) x ≡ by_id tasks x
unfolding assign_each
by_id-assign_each [] states tasks x = refl
by_id-assign_each (id ∷ order) states tasks x =
    by_id-assign_each order _ _ x ∙ by_id-set_state id x _ tasks

either :
    (id : ℤ) (b : Bool) (xs ys : List ResolvedTask)
    → of_id id xs ≡ of_id id ys
    → of_id id (if b then xs else ys) ≡ of_id id ys
either id true xs ys h = h
either id false xs ys h = refl

-- Recomputing the states returns, and leaves a task alone that is not mutable, and the dependencies
-- of every task.
pub recompute_states-of_id :
    (tasks : List ResolvedTask) (attempts : ℤ → Option ℕ)
    → (settled : List ResolvedTask) × (recompute_states tasks attempts ≡ returns settled)
      × ((id : ℤ) → has_int (mutable attempts tasks) id ≡ false → of_id id settled ≡ of_id id tasks)
      × ((id : ℤ) → by_id settled id ≡ by_id tasks id)
recompute_states-of_id tasks attempts =
    let (order, found, listed) = order_among-ends tasks (mutable attempts tasks) in
    let all_set = length order == length (mutable attempts tasks) in
    (
      if all_set then assign_each order (state_of tasks) tasks else tasks,
      recompute_states-known tasks attempts order found listed,
      λ id d.
          either id all_set (assign_each order (state_of tasks) tasks) tasks
            (of_id-assign_each id order (state_of tasks) tasks (ground (arith, d, listed id))),
      λ id. chosen id all_set order,
    )
  where
    chosen :
        (x : ℤ) (b : Bool) (order : List ℤ)
        → by_id (if b then assign_each order (state_of tasks) tasks else tasks) x ≡ by_id tasks x
    chosen x true order = by_id-assign_each order (state_of tasks) tasks x
    chosen x false order = refl
