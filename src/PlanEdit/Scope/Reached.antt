-- ===== src/PlanEdit/Scope/Reached.antt =====
-- The scope of a replan is what is reached from the seed through tasks that may change.
use agentic_software_factory.Prelude.{
  ℕ, zero, suc, ◌≡◌, ◌⊎◌, ◌↔◌, inl, inr, refl, ap, sym, subst, ◌∙◌, arith, true, ◌||◌, List, [],
  ◌∷◌, length, ℤ, same_int, same_int→eq, same_int_refl, same_int_sym, has_int,
}
use agentic_software_factory.PlanEdit.{Task, PlanState}
use agentic_software_factory.PlanEdit.Calls.{returns, then-returns}
use agentic_software_factory.PlanEdit.Scope.{
  dependents, scope_from, insert_sorted, sort, mutable_scope,
}
use agentic_software_factory.PlanEdit.Scope.Scanning.{
  Child, Affected, direct, further, outside, Known, Searching, Nothing, Scanned, in_cons,
  scan-Searching,
}

module _ (state : PlanState) (seed : ℤ) where
  -- The first of the queue is popped.
  pops :
      (fuel : ℕ) (scope : List ℤ) (current : ℤ) (queue : List ℤ)
      → Searching state seed scope (current ∷ queue) (Nothing state seed) (suc fuel)
      → Searching state seed scope queue
          (Scanned state seed current (dependents state.tasks current))
          fuel
  pops fuel scope current queue s = record {
    within = omega (arith, s.within);
    sound = s.sound;
    queued = λ x h. s.queued x (ground (arith, h));
    closed = λ x h. elim (s.closed x h) [
      | inr (inr f) ↦ inr (inr f)
      | inr (inl z) ↦ elim z [ ]
      | inl q ↦ elim (in_cons state seed current x queue q) [
        | inl e ↦ inr (inl (sym e, λ c k. inr (k.0)))
        | inr e ↦ inl e
      ]
    ];
  }

  -- All its children are scanned.
  scanned :
      (fuel : ℕ) (scope : List ℤ) (current : ℤ) (queue : List ℤ)
      → Searching state seed scope queue (Scanned state seed current []) fuel
      → Searching state seed scope queue (Nothing state seed) fuel
  scanned fuel scope current queue s = record {
    within = s.within;
    sound = s.sound;
    queued = s.queued;
    closed = λ x h. elim (s.closed x h) [
      | inl q ↦ inl q
      | inr (inr f) ↦ inr (inr f)
      | inr (inl (at, f)) ↦ inr (
          inr (λ c k. elim (f c (subst (λ y. Child state y c) at k)) [
            | inl i ↦ i
            | inr i ↦ absurd (ground (arith, i))
          ]))
    ];
  }

  abbrev pub Complete : List ℤ → Type 0
  Complete scope =
      ((x : ℤ) → has_int scope x ≡ true → Affected state seed x)
      × ((x c : ℤ) → Known state seed x scope → Child state x c → has_int scope c ≡ true)

  scope_from-Complete :
      (fuel : ℕ) (scope queue : List ℤ)
      → Searching state seed scope queue (Nothing state seed) fuel
      → (result : List ℤ) × (scope_from fuel state queue scope ≡ returns result) × Complete result
  unfolding scope_from
  scope_from-Complete fuel scope [] s = (
    scope,
    refl,
    (
      s.sound,
      λ x c h k. elim (s.closed x h) [
        | inl q ↦ absurd (ground (arith, q))
        | inr (inl z) ↦ elim z [ ]
        | inr (inr f) ↦ f c k
      ],
    ),
  )
  scope_from-Complete zero scope (current ∷ queue) s = absurd (omega (arith, s.within))
  scope_from-Complete (suc fuel) scope (current ∷ queue) s =
      let (next, run, searching) =
        scan-Searching state seed current (dependents state.tasks current) scope queue fuel
          (λ c h. h) (s.queued current (ground (arith, same_int_refl current)))
          (pops fuel scope current queue s) in
      let (result, ran, complete) =
        scope_from-Complete fuel (next.0) (next.1)
          (scanned fuel (next.0) current (next.1) searching) in
      (result, then-returns _ run ∙ ran, complete)

  Affected-in :
      (scope : List ℤ) → Complete scope → (x : ℤ) → Affected state seed x → has_int scope x ≡ true
  Affected-in scope (sound, closed) x (direct k) = closed seed x (inl refl) k
  Affected-in scope (sound, closed) x (further {x = y} a k) =
      closed y x (inr (Affected-in scope (sound, closed) y a)) k

has_int-insert : (n x : ℤ) (l : List ℤ) → has_int (insert_sorted n l) x ≡ has_int (n ∷ l) x
has_int-insert n x [] = refl
has_int-insert n x (m ∷ l) = ground (arith, has_int-insert n x l)

has_int-sort : (x : ℤ) (l : List ℤ) → has_int (sort l) x ≡ has_int l x
has_int-sort x [] = refl
has_int-sort x (n ∷ l) =
    has_int-insert n x (sort l) ∙ ap (λ b. same_int n x || b) (has_int-sort x l)

outside-start : (tasks : List Task) → outside tasks [] ≡ length tasks
outside-start [] = omega arith
outside-start (t ∷ tasks) = omega (arith, outside-start tasks)

-- The scope of a replan is found within its fuel, and a task is in it exactly when it is reached from
-- the seed by dependents that may all still change.
pub mutable_scope_iff :
    (state : PlanState) (seed : ℤ)
    → (scope : List ℤ) × (mutable_scope state seed ≡ returns scope)
      × ((x : ℤ) → (has_int scope x ≡ true) ↔ Affected state seed x)
unfolding mutable_scope
mutable_scope_iff state seed =
    let (result, found, complete) =
      scope_from-Complete state seed (suc (length state.tasks)) [] (seed ∷ []) start in
    (
      sort result,
      then-returns _ found,
      λ x. (
        λ h. (complete.0) x (sym (has_int-sort x result) ∙ h),
        λ a. has_int-sort x result ∙ Affected-in state seed result complete x a,
      ),
    )
  where
    known :
        (x : ℤ)
        → Known state seed x []
        → (has_int (seed ∷ []) x ≡ true) ⊎ (⊥ ⊎ ((c : ℤ) → Child state x c → has_int [] c ≡ true))
    known x (inl e) = inl (ground (arith, ap (same_int x) e, same_int_sym x seed, same_int_refl x))
    known x (inr h) = absurd (ground (arith, h))

    start : Searching state seed [] (seed ∷ []) (Nothing state seed) (suc (length state.tasks))
    start = record {
      within = omega (arith, outside-start state.tasks);
      sound = λ x h. absurd (ground (arith, h));
      queued = λ x h. inl (sym (same_int→eq seed x (ground (arith, h))));
      closed = λ x h. known x h;
    }
