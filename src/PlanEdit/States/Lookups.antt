-- ===== src/PlanEdit/States/Lookups.antt =====
-- No look-up of `recompute_states` fails: the ids that it looks up are ids of tasks.
use agentic_software_factory.Prelude.{
  ℕ, zero, suc, ◌-◌, ◌≡◌, ◌⊎◌, inl, inr, refl, ap, ◌∙◌, arith, Bool, true, false, none, some,
  Option, List, [], ◌∷◌, ◌++◌, ◌==◌, Bool-cases, length, filter, if◌then◌else◌, ℤ, same_int,
  same_int→eq, same_int_refl, has_int,
}
use agentic_software_factory.TaskState.{TaskState}
use agentic_software_factory.PlanEdit.{ResolvedTask, has_task}
use agentic_software_factory.PlanEdit.Calls.{returns, then-returns}
use agentic_software_factory.PlanEdit.States.{
  mutable, States, first_dependencies, Degrees, set_degree, degree_of, indegree, initial_queue,
  release_at, release, order_from, topological_order, set_state, assign, state_of, recompute_states,
}
use agentic_software_factory.PlanEdit.States.Known.{
  deps_at, Counts, count_at, set_count, lower_one, lower_each, lower_all, order_among, assign_each,
}

first-known :
    (tasks : List ResolvedTask) (id : ℤ)
    → has_task tasks id ≡ true
    → first_dependencies tasks id ≡ returns (deps_at tasks id)
first-known [] id h = absurd (ground (arith, h))
first-known (t ∷ tasks) id h = elim (Bool-cases (same_int t.id id)) [
  | inl e ↦ rw (e, first_dependencies, deps_at) refl
  | inr e ↦ rw (e, first_dependencies, deps_at) (first-known tasks id (ground (arith, h, e)))
]

-- The map has the given count for each id of the list.
abbrev Agrees : List ℤ → Degrees → Counts → Type 0
Agrees among degrees counts = (x : ℤ) → has_int among x ≡ true → degrees x ≡ some (counts x)

degree-known :
    (degrees : Degrees) (x : ℤ) (n : ℕ) → degrees x ≡ some n → degree_of degrees x ≡ returns n
degree-known degrees x n e = rw (e, degree_of) refl

set-Agrees :
    (among : List ℤ) (degrees : Degrees) (counts : Counts) (id : ℤ) (n : ℕ)
    → Agrees among degrees counts
    → Agrees among (set_degree id n degrees) (set_count id n counts)
set-Agrees among degrees counts id n a x h = elim (Bool-cases (same_int id x)) [
  | inl e ↦ rw e refl
  | inr e ↦ rw e (a x h)
]

module _ (tasks : List ResolvedTask) (among : List ℤ) where
  indegree-known :
      (ids : List ℤ) (degrees : Degrees)
      → ((x : ℤ) → has_int ids x ≡ true → has_task tasks x ≡ true)
      → (d : Degrees) × (indegree tasks among ids degrees ≡ returns d)
        × ((x : ℤ)
            → (has_int ids x ≡ true) ⊎ (degrees x ≡ some (count_at tasks among x))
            → d x ≡ some (count_at tasks among x))
  unfolding indegree
  indegree-known [] degrees k =
      (degrees, refl, λ x h. elim h [ inl i ↦ absurd (ground (arith, i)) | inr e ↦ e ])
  indegree-known (id ∷ ids) degrees k =
      let (d, e, f) =
        indegree-known ids (set_degree id (count_at tasks among id) degrees)
          (λ x h. k x (ground (arith, h))) in
      (
        d,
        then-returns _ (first-known tasks id (k id (ground (arith, same_int_refl id)))) ∙ e,
        λ x h. f x (elim (Bool-cases (same_int id x)) [
          | inl t ↦ inr (rw t (ap (λ y. some (count_at tasks among y)) (same_int→eq id x t)))
          | inr t ↦ elim h [ inl i ↦ inl (ground (arith, i, t)) | inr g ↦ inr (rw t g) ]
        ]),
      )

  queue-known :
      (ids : List ℤ) (degrees : Degrees) (counts : Counts)
      → Agrees ids degrees counts
      → initial_queue degrees ids ≡ returns (filter (λ id. counts id == 0) ids)
  unfolding initial_queue
  queue-known [] degrees counts a = refl
  queue-known (id ∷ ids) degrees counts a =
      then-returns _ (degree-known degrees id (counts id) (a id (ground (arith, same_int_refl id))))
      ∙ then-returns _ (queue-known ids degrees counts (λ x h. a x (ground (arith, h))))

  release_at-known :
      (id other : ℤ) (degrees : Degrees) (counts : Counts) (queue : List ℤ)
      → has_task tasks other ≡ true
      → Agrees among degrees counts
      → (d : Degrees) × (release_at tasks id other (degrees, queue) (counts other)
          ≡ returns (d, (lower_one tasks id other (counts, queue)).1))
        × Agrees among d ((lower_one tasks id other (counts, queue)).0)
  release_at-known id other degrees counts queue k a = elim (Bool-cases (counts other == 0)) [
    | inl z ↦ (degrees, rw z refl, rw z a)
    | inr z ↦
        let bound = first-known tasks other k in
        elim (Bool-cases (has_int (deps_at tasks other) id)) [
          | inl d ↦ (
            set_degree other (counts other - 1) degrees,
            rw z (then-returns _ bound ∙ rw d refl),
            rw (z, d) (set-Agrees among degrees counts other (counts other - 1) a),
          )
          | inr d ↦ (degrees, rw z (then-returns _ bound ∙ rw d refl), rw (z, d) a)
        ]
  ]

  release-known :
      (id : ℤ) (others : List ℤ) (degrees : Degrees) (counts : Counts) (queue : List ℤ)
      → ((x : ℤ) → has_int others x ≡ true → has_task tasks x ≡ true)
      → ((x : ℤ) → has_int others x ≡ true → has_int among x ≡ true)
      → Agrees among degrees counts
      → (d : Degrees) × (release tasks id others (degrees, queue)
          ≡ returns (d, (lower_each tasks id others (counts, queue)).1))
        × Agrees among d ((lower_each tasks id others (counts, queue)).0)
  unfolding release lower_each
  release-known id [] degrees counts queue k l a = (degrees, refl, a)
  release-known id (other ∷ others) degrees counts queue k l a =
      let here : has_int (other ∷ others) other ≡ true = ground (arith, same_int_refl other) in
      let (d, e, b) = release_at-known id other degrees counts queue (k other here) a in
      let next = lower_one tasks id other (counts, queue) in
      let (d', e', b') =
        release-known id others d (next.0) (next.1) (λ x h. k x (ground (arith, h)))
          (λ x h. l x (ground (arith, h))) b in
      (
        d',
        then-returns _ (
              then-returns _ (degree-known degrees other (counts other) (a other (l other here)))
              ∙ e)
            ∙ e',
        b',
      )

  order_from-known :
      (fuel : ℕ) (degrees : Degrees) (counts : Counts) (queue order result : List ℤ)
      → ((x : ℤ) → has_int among x ≡ true → has_task tasks x ≡ true)
      → Agrees among degrees counts
      → lower_all fuel tasks among counts queue order ≡ some result
      → order_from fuel tasks among degrees queue order ≡ returns result
  unfolding order_from lower_all
  order_from-known fuel degrees counts [] order result k a h = ground (arith, h)
  order_from-known zero degrees counts (id ∷ queue) order result k a h = absurd (ground (arith, h))
  order_from-known (suc fuel) degrees counts (id ∷ queue) order result k a h =
      let (d, e, b) = release-known id among degrees counts queue k (λ x h. h) a in
      let next = lower_each tasks id among (counts, queue) in
      then-returns _ e ∙ order_from-known fuel d (next.0) (next.1) (order ++ id ∷ []) result k b h

  topological_order-known :
      (order : List ℤ)
      → ((x : ℤ) → has_int among x ≡ true → has_task tasks x ≡ true)
      → order_among tasks among ≡ some order
      → topological_order tasks among ≡ returns order
  unfolding topological_order order_among
  topological_order-known order k h =
      let (d, e, f) = indegree-known among (λ id. none) k in
      let a : Agrees among d (count_at tasks among) = λ x i. f x (inl i) in
      then-returns _ e
      ∙ then-returns _ (queue-known among d (count_at tasks among) a)
      ∙ order_from-known (length among) d (count_at tasks among) _ [] order k a h

has_task-set_state :
    (id x : ℤ) (s : TaskState) (tasks : List ResolvedTask)
    → has_task (set_state id s tasks) x ≡ has_task tasks x
has_task-set_state id x s [] = refl
has_task-set_state id x s (t ∷ tasks) = elim (Bool-cases (same_int t.id id)) [
  | inl e ↦ rw e refl
  | inr e ↦ rw e (ground (arith, has_task-set_state id x s tasks))
]

assign-known :
    (order : List ℤ) (states : States) (tasks : List ResolvedTask)
    → ((x : ℤ) → has_int order x ≡ true → has_task tasks x ≡ true)
    → assign order states tasks ≡ returns (assign_each order states tasks)
unfolding assign assign_each
assign-known [] states tasks k = refl
assign-known (id ∷ order) states tasks k =
    then-returns _ (first-known tasks id (k id (ground (arith, same_int_refl id))))
    ∙ assign-known order _ _ (λ x h. has_task-set_state id x _ tasks ∙ k x (ground (arith, h)))

mutable-known :
    (attempts : ℤ → Option ℕ) (tasks : List ResolvedTask) (x : ℤ)
    → has_int (mutable attempts tasks) x ≡ true
    → has_task tasks x ≡ true
mutable-known attempts [] x h = absurd (ground (arith, h))
mutable-known attempts (t ∷ tasks) x h = ground (arith, h, mutable-known attempts tasks x)

-- Where the order is found within its fuel, the states are recomputed without a panic.
pub recompute_states-known :
    (tasks : List ResolvedTask) (attempts : ℤ → Option ℕ) (order : List ℤ)
    → order_among tasks (mutable attempts tasks) ≡ some order
    → ((x : ℤ) → has_int order x ≡ true → has_int (mutable attempts tasks) x ≡ true)
    → recompute_states tasks attempts
      ≡ returns (
          if length order == length (mutable attempts tasks)
          then assign_each order (state_of tasks) tasks
          else tasks)
unfolding recompute_states
recompute_states-known tasks attempts order h k =
    then-returns _ (
      topological_order-known tasks (mutable attempts tasks) order (mutable-known attempts tasks) h)
    ∙ chosen (length order == length (mutable attempts tasks))
  where
    chosen :
        (b : Bool)
        → (if b then assign order (state_of tasks) tasks else returns tasks)
          ≡ returns (if b then assign_each order (state_of tasks) tasks else tasks)
    chosen true =
        assign-known order (state_of tasks) tasks (λ x i. mutable-known attempts tasks x (k x i))
    chosen false = refl
