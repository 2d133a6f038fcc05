-- ===== src/PlanEdit/Scope/Scanning.antt =====
-- What scanning the children of one task does to the search for the scope of a replan.
use agentic_software_factory.Prelude.{
  none, refl, unwrap_or, Bool, ℕ, ◌+◌, ◌≤◌, ◌≡◌, ◌⊎◌, inl, inr, ap, sym, subst, ◌∙◌, arith, true,
  false, not, ◌&&◌, some, List, [], ◌∷◌, ◌++◌, length, length-append, any-append, if◌then◌else◌,
  Bool-cases, Option-cases, ℤ, same_int, same_int→eq, same_int_refl, same_int_sym, has_int,
}
use agentic_software_factory.PlanEdit.Scope.Children.{dependents-found}
use agentic_software_factory.PlanEdit.{Task, PlanState, is_immutable}
use agentic_software_factory.PlanEdit.Calls.{returns}
use agentic_software_factory.PlanEdit.Scope.{dependents, find_task, changes, scan}

-- The child is a task that has not started or finished.
abbrev pub may_change : PlanState → ℤ → Bool
may_change state child = elim (find_task state.tasks child) [
  | none ↦ false
  | some t ↦ not (is_immutable t (unwrap_or (state.attempts child) 0))
]

-- A task that may change and lists the other as a dependency.
abbrev pub Child : PlanState → ℤ → ℤ → Type 0
Child state x c = (has_int (dependents state.tasks x) c ≡ true) × (may_change state c ≡ true)

-- What a replan from the seed replaces.
pub data Affected (state : PlanState) (seed : ℤ) : ℤ → Type 0 where
  direct : {c : ℤ} → Child state seed c → Affected state seed c
  further : {x c : ℤ} → Affected state seed x → Child state x c → Affected state seed c

-- How many tasks are not in the scope yet.
abbrev pub outside : List Task → List ℤ → ℕ
outside [] scope = 0
outside (t ∷ tasks) scope = (if has_int scope t.id then 0 else 1) + outside tasks scope

outside-cons :
    (tasks : List Task) (scope : List ℤ) (c : ℤ) → outside tasks (c ∷ scope) ≤ outside tasks scope
outside-cons [] scope c = omega arith
outside-cons (t ∷ tasks) scope c = ground (arith, outside-cons tasks scope c)

outside-insert :
    (tasks : List Task) (scope : List ℤ) (c : ℤ) (t : Task)
    → find_task tasks c ≡ some t
    → has_int scope c ≡ false
    → 1 + outside tasks (c ∷ scope) ≤ outside tasks scope
outside-insert [] scope c t e h = absurd (ground (arith, e))
outside-insert (u ∷ tasks) scope c t e h = elim (Bool-cases (same_int u.id c)) [
  | inl i ↦
      let here : has_int scope u.id ≡ false =
        subst (λ x. has_int scope x ≡ false) (sym (same_int→eq u.id c i)) h in
      ground (arith, here, same_int_sym c u.id, i, outside-cons tasks scope c)
  | inr i ↦ ground (arith, same_int_sym c u.id, i, outside-insert tasks scope c t (rw i at e) h)
]

module _ (state : PlanState) (seed : ℤ) where
  may_change-found :
      (c : ℤ) → may_change state c ≡ true → (t : Task) × (find_task state.tasks c ≡ some t)
  may_change-found c h = elim (Option-cases (find_task state.tasks c)) [
    | inl e ↦ absurd (ground (arith, rw (e, may_change) at h))
    | inr found ↦ found
  ]

  abbrev pub Known : ℤ → List ℤ → Type 0
  Known x scope = (x ≡ seed) ⊎ (has_int scope x ≡ true)

  -- Each task of the scope or the seed is in the queue, or its children are in the scope.
  pub record Searching (scope queue : List ℤ) (pending : List ℤ → ℤ → Type 0) (bound : ℕ)
      : Type 0 where
    pub within : length queue + outside state.tasks scope ≤ bound
    pub sound : (x : ℤ) → has_int scope x ≡ true → Affected state seed x
    pub queued : (x : ℤ) → has_int queue x ≡ true → Known x scope
    pub closed :
        (x : ℤ)
        → Known x scope
        → (has_int queue x ≡ true)
          ⊎ (pending scope x ⊎ ((c : ℤ) → Child state x c → has_int scope c ≡ true))

  abbrev pub Nothing : List ℤ → ℤ → Type 0
  Nothing scope x = ⊥

  -- The task that was popped, and its children that are not scanned yet.
  abbrev pub Scanned : ℤ → List ℤ → List ℤ → ℤ → Type 0
  Scanned current left scope x =
      (x ≡ current)
      × ((c : ℤ) → Child state current c → (has_int scope c ≡ true) ⊎ (has_int left c ≡ true))

  child-Affected :
      (x c : ℤ) (scope : List ℤ)
      → ((y : ℤ) → has_int scope y ≡ true → Affected state seed y)
      → Known x scope
      → Child state x c
      → Affected state seed c
  child-Affected x c scope s (inl e) k = direct (subst (λ y. Child state y c) e k)
  child-Affected x c scope s (inr e) k = further (s x e) k

  pub in_cons :
      (c x : ℤ) (scope : List ℤ) → has_int (c ∷ scope) x ≡ true → (c ≡ x) ⊎ (has_int scope x ≡ true)
  in_cons c x scope h = elim (Bool-cases (same_int c x)) [
    | inl e ↦ inl (same_int→eq c x e)
    | inr e ↦ inr (ground (arith, h, e))
  ]

  in_snoc :
      (c x : ℤ) (queue : List ℤ)
      → has_int (queue ++ c ∷ []) x ≡ true
      → (c ≡ x) ⊎ (has_int queue x ≡ true)
  in_snoc c x queue h = elim (Bool-cases (same_int c x)) [
    | inl e ↦ inl (same_int→eq c x e)
    | inr e ↦ inr (ground (arith, h, e, any-append (λ m. same_int m x) queue (c ∷ [])))
  ]

  to_snoc :
      (c x : ℤ) (queue : List ℤ)
      → (c ≡ x) ⊎ (has_int queue x ≡ true)
      → has_int (queue ++ c ∷ []) x ≡ true
  to_snoc c x queue (inl e) =
      any-append (λ m. same_int m x) queue (c ∷ [])
      ∙ ground (arith, ap (λ y. same_int y x) e, same_int_refl x)
  to_snoc c x queue (inr h) = any-append (λ m. same_int m x) queue (c ∷ []) ∙ ground (arith, h)

  -- A child joins the scope and the queue.
  joins :
      (current c : ℤ) (left scope queue : List ℤ) (bound : ℕ)
      → Child state current c
      → has_int scope c ≡ false
      → Known current scope
      → Searching scope queue (Scanned current (c ∷ left)) bound
      → Searching (c ∷ scope) (queue ++ c ∷ []) (Scanned current left) bound
  joins current c left scope queue bound child new known s =
      let (t, found) = may_change-found c (child.1) in
      record {
        within = omega (
          arith,
          s.within,
          length-append queue (c ∷ []),
          outside-insert state.tasks scope c t found new,
        );
        sound = λ x h. elim (in_cons c x scope h) [
          | inl e ↦
              subst (Affected state seed) e (child-Affected current c scope s.sound known child)
          | inr e ↦ s.sound x e
        ];
        queued = λ x h. elim (in_snoc c x queue h) [
          | inl e ↦ inr (ground (arith, ap (λ y. same_int y x) e, same_int_refl x))
          | inr e ↦ wider x (s.queued x e)
        ];
        closed = λ x h. elim (narrower x h) [
          | inl e ↦ inl (to_snoc c x queue (inl e))
          | inr e ↦ elim (s.closed x e) [
            | inl q ↦ inl (to_snoc c x queue (inr q))
            | inr (inr f) ↦ inr (inr (λ c' k. ground (arith, f c' k)))
            | inr (inl (at, f)) ↦ inr (
                inl (
                  at,
                  λ c' k. elim (f c' k) [
                    | inl i ↦ inl (ground (arith, i))
                    | inr i ↦ elim (in_cons c c' left i) [
                      | inl j ↦ inl (ground (arith, ap (λ y. same_int y c') j, same_int_refl c'))
                      | inr j ↦ inr j
                    ]
                  ],
                ))
          ]
        ];
      }
    where
      wider : (x : ℤ) → Known x scope → Known x (c ∷ scope)
      wider x (inl e) = inl e
      wider x (inr e) = inr (ground (arith, e))

      narrower : (x : ℤ) → Known x (c ∷ scope) → (c ≡ x) ⊎ Known x scope
      narrower x (inl e) = inr (inl e)
      narrower x (inr h) = elim (in_cons c x scope h) [ inl e ↦ inl e | inr e ↦ inr (inr e) ]

  -- A child that is in the scope, or may not change, is passed over.
  passed :
      (current c : ℤ) (left scope queue : List ℤ) (bound : ℕ)
      → (may_change state c && not (has_int scope c)) ≡ false
      → Searching scope queue (Scanned current (c ∷ left)) bound
      → Searching scope queue (Scanned current left) bound
  passed current c left scope queue bound stays s = record {
    within = s.within;
    sound = s.sound;
    queued = s.queued;
    closed = λ x h. elim (s.closed x h) [
      | inl q ↦ inl q
      | inr (inr f) ↦ inr (inr f)
      | inr (inl (at, f)) ↦ inr (
          inl (
            at,
            λ c' k. elim (f c' k) [
              | inl i ↦ inl i
              | inr i ↦ elim (in_cons c c' left i) [
                | inl j ↦ inl (
                    subst (λ y. has_int scope y ≡ true) j
                      (ground (arith, stays, ap (may_change state) j, k.1)))
                | inr j ↦ inr j
              ]
            ],
          ))
    ];
  }

  -- No look-up of the loop fails on the children of a task.
  scan-child :
      (c : ℤ) (left scope queue : List ℤ)
      → (t : Task) × (find_task state.tasks c ≡ some t)
      → scan state (c ∷ left) (scope, queue)
        ≡ scan state left (
            if may_change state c && not (has_int scope c)
            then (c ∷ scope, queue ++ c ∷ [])
            else (scope, queue))
  unfolding scan
  scan-child c left scope queue (t, e) = rw (e, changes, may_change) refl

  pub scan-Searching :
      (current : ℤ) (left scope queue : List ℤ) (bound : ℕ)
      → ((c : ℤ) → has_int left c ≡ true → has_int (dependents state.tasks current) c ≡ true)
      → Known current scope
      → Searching scope queue (Scanned current left) bound
      → (next : List ℤ × List ℤ) × (scan state left (scope, queue) ≡ returns next)
        × Searching (next.0) (next.1) (Scanned current []) bound
  scan-Searching current [] scope queue bound k known s = ((scope, queue), unfold scan in refl, s)
  scan-Searching current (c ∷ left) scope queue bound k known s =
      let turn =
        scan-child c left scope queue
          (dependents-found state.tasks current c (k c (ground (arith, same_int_refl c)))) in
      elim (Bool-cases (may_change state c && not (has_int scope c))) [
        | inl e ↦
            let child : Child state current c =
              (k c (ground (arith, same_int_refl c)), ground (arith, e)) in
            let new : has_int scope c ≡ false = ground (arith, e) in
            let (next, run, found) =
              scan-Searching current left (c ∷ scope) (queue ++ c ∷ []) bound
                (λ d h. k d (ground (arith, h))) (wider known)
                (joins current c left scope queue bound child new known s) in
            (next, (rw e at turn) ∙ run, found)
        | inr e ↦
            let (next, run, found) =
              scan-Searching current left scope queue bound (λ d h. k d (ground (arith, h))) known
                (passed current c left scope queue bound e s) in
            (next, (rw e at turn) ∙ run, found)
      ]
    where
      wider : Known current scope → Known current (c ∷ scope)
      wider (inl e) = inl e
      wider (inr e) = inr (ground (arith, e))
