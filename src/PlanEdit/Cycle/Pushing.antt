-- ===== src/PlanEdit/Cycle/Pushing.antt =====
-- What a task that is opened pushes on the stack.
use agentic_software_factory.Prelude.{
  ℕ, ◌+◌, ◌≤◌, ◌≡◌, ◌≢◌, ◌⊎◌, inl, inr, refl, subst, arith, true, false, List, [], ◌∷◌, ◌==◌,
  Bool-cases, length, if◌then◌else◌, ℤ, same_int, same_int→eq, has_int,
}
use agentic_software_factory.PlanEdit.Cycle.{Marks, Stack, push_dependencies}

abbrev pub items : List ℤ → Stack → Stack
items [] stack = stack
items (d ∷ ds) stack = (d, false) ∷ items ds stack

-- The dependencies that are pushed, the last on top.
abbrev pub pending : Marks → List ℤ → List ℤ → List ℤ
pending m [] acc = acc
pending m (d ∷ ds) acc = pending m ds (if m d == 2 then acc else d ∷ acc)

pub push-items :
    (m : Marks) (ds acc : List ℤ) (stack : Stack)
    → push_dependencies m ds (items acc stack) ≡ items (pending m ds acc) stack
push-items m [] acc stack = refl
push-items m (d ∷ ds) acc stack = elim (Bool-cases (m d == 2)) [
  | inl t ↦ rw t (push-items m ds acc stack)
  | inr f ↦ rw f (push-items m ds (d ∷ acc) stack)
]

pub length-pending :
    (m : Marks) (ds acc : List ℤ) → length (pending m ds acc) ≤ length ds + length acc
length-pending m [] acc = omega arith
length-pending m (d ∷ ds) acc = elim (Bool-cases (m d == 2)) [
  | inl t ↦ rw t (omega (arith, length-pending m ds acc))
  | inr f ↦ rw f (omega (arith, length-pending m ds (d ∷ acc)))
]

-- What is pushed was pending or is a dependency, and is not processed.
pub pending-from :
    (m : Marks) (ds acc : List ℤ) (x : ℤ)
    → has_int (pending m ds acc) x ≡ true
    → (has_int acc x ≡ true) ⊎ ((has_int ds x ≡ true) × (m x ≢ 2))
pending-from m [] acc x h = inl h
pending-from m (d ∷ ds) acc x h = elim (Bool-cases (m d == 2)) [
  | inl t ↦ elim (pending-from m ds acc x (rw t at h)) [
    | inl a ↦ inl a
    | inr (a, b) ↦ inr (ground (arith, a), b)
  ]
  | inr f ↦ elim (pending-from m ds (d ∷ acc) x (rw f at h)) [
    | inl a ↦ elim (Bool-cases (same_int d x)) [
      | inl s ↦
          inr (ground (arith, s), subst (λ y. m y ≢ 2) (same_int→eq d x s) (ground (arith, f)))
      | inr s ↦ inl (ground (arith, a, s))
    ]
    | inr (a, b) ↦ inr (ground (arith, a), b)
  ]
]

pending-acc :
    (m : Marks) (ds acc : List ℤ) (x : ℤ)
    → has_int acc x ≡ true
    → has_int (pending m ds acc) x ≡ true
pending-acc m [] acc x h = h
pending-acc m (d ∷ ds) acc x h = elim (Bool-cases (m d == 2)) [
  | inl t ↦ rw t (pending-acc m ds acc x h)
  | inr f ↦ rw f (pending-acc m ds (d ∷ acc) x (ground (arith, h)))
]

-- A dependency is pushed, or it is processed.
pub pending-of :
    (m : Marks) (ds acc : List ℤ) (x : ℤ)
    → has_int ds x ≡ true
    → (m x ≡ 2) ⊎ (has_int (pending m ds acc) x ≡ true)
pending-of m [] acc x h = absurd (ground (arith, h))
pending-of m (d ∷ ds) acc x h = elim (Bool-cases (same_int d x)) [
  | inl s ↦ elim (Bool-cases (m d == 2)) [
    | inl t ↦ inl (subst (λ y. m y ≡ 2) (same_int→eq d x s) (ground (arith, t)))
    | inr f ↦ inr (rw f (pending-acc m ds (d ∷ acc) x (ground (arith, s))))
  ]
  | inr s ↦ pending-of m ds (if m d == 2 then acc else d ∷ acc) x (ground (arith, h, s))
]

pub mark-cases : (n : ℕ) → n ≤ 2 → (n ≡ 0) ⊎ ((n ≡ 1) ⊎ (n ≡ 2))
mark-cases n h = ground (arith, h)
