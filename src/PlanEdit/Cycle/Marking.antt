-- ===== src/PlanEdit/Cycle/Marking.antt =====
-- The marks of the search: what setting one does, and how many nodes have none yet.
use agentic_software_factory.Prelude.{
  ℕ, suc, ◌+◌, ◌*◌, ◌≤◌, ◌≡◌, ◌≢◌, ◌⊎◌, inl, inr, refl, ap, sym, ◌∙◌, arith, true, false, List, [],
  ◌∷◌, ◌==◌, Bool-cases, length, if◌then◌else◌, ℤ, same_int, same_int→eq, same_int_refl,
  same_int_sym, has_int,
}
use agentic_software_factory.PlanEdit.Cycle.{Marks, set_mark}

pub set_mark-same : (x : ℤ) (v : ℕ) (m : Marks) → set_mark x v m x ≡ v
set_mark-same x v m = rw (same_int_refl x) refl

pub set_mark-other : (x y : ℤ) (v : ℕ) (m : Marks) → same_int x y ≡ false → set_mark x v m y ≡ m y
set_mark-other x y v m e = rw e refl

-- Setting a mark to 1 and then back to 2 changes nothing if it was 2.
pub set_mark-back : (x : ℤ) (m : Marks) → m x ≡ 2 → set_mark x 2 (set_mark x 1 m) ≡ m
set_mark-back x m e = λ i y. at y i
  where
    at : (y : ℤ) → set_mark x 2 (set_mark x 1 m) y ≡ m y
    at y = elim (Bool-cases (same_int x y)) [
      | inl t ↦ rw t (sym e ∙ ap m (same_int→eq x y t))
      | inr f ↦ rw f refl
    ]

pub set_mark-two : (x y : ℤ) (m : Marks) → set_mark x 1 m y ≡ 2 → m y ≡ 2
set_mark-two x y m h = ground (arith, h)

pub set_mark-seen : (x y : ℤ) (v : ℕ) (m : Marks) → m y ≢ 0 → set_mark x (suc v) m y ≢ 0
set_mark-seen x y v m h = λ e. ground (arith, h, e)

pub set_mark-of : (x y : ℤ) (v w : ℕ) (m : Marks) → set_mark x v m y ≡ w → (x ≡ y) ⊎ (m y ≡ w)
set_mark-of x y v w m h = elim (Bool-cases (same_int x y)) [
  | inl t ↦ inl (same_int→eq x y t)
  | inr f ↦ inr (rw f at h)
]

-- A mark that is not the one of the task keeps its value.
pub set_mark-kept : (x y : ℤ) (v w : ℕ) (m : Marks) → m x ≢ w → m y ≡ w → set_mark x v m y ≡ w
set_mark-kept x y v w m d h = elim (Bool-cases (same_int x y)) [
  | inl t ↦ absurd (d (ap m (same_int→eq x y t) ∙ h))
  | inr f ↦ rw f h
]

-- The weight of the unvisited nodes of a list, each counted with a weight.
unfoldable pub left : ℕ → List ℤ → Marks → ℕ
left k [] m = 0
left k (n ∷ ns) m = (if m n == 0 then k else 0) + left k ns m

pub left-opened :
    (k : ℕ) (ns : List ℤ) (m : Marks) (x : ℤ) (v : ℕ)
    → left k ns (set_mark x (suc v) m) ≤ left k ns m
unfolding left
left-opened k [] m x v = omega arith
left-opened k (n ∷ ns) m x v = ground (arith, left-opened k ns m x v)

pub left-visit :
    (k : ℕ) (ns : List ℤ) (m : Marks) (x : ℤ)
    → has_int ns x ≡ true
    → m x ≡ 0
    → k + left k ns (set_mark x 1 m) ≤ left k ns m
unfolding left
left-visit k [] m x h e = absurd (ground (arith, h))
left-visit k (n ∷ ns) m x h e = elim (Bool-cases (same_int n x)) [
  | inl t ↦
      let same = same_int→eq n x t in
      rw same (rw (same_int_refl x) (rw e (omega (arith, left-opened k ns m x 0))))
  | inr f ↦
      let there = left-visit k ns m x (ground (arith, h, f)) e in
      rw (same_int_sym x n ∙ f) (omega (arith, there))
]

pub left-start : (k : ℕ) (ns : List ℤ) → left k ns (λ id. 0) ≡ length ns * k
unfolding left
left-start k [] = omega arith
left-start k (n ∷ ns) = omega (arith, left-start k ns)

-- Where what was seen stays seen, the weight of the rest does not grow.
pub left-seen :
    (k : ℕ) (ns : List ℤ) (m n : Marks) → ((y : ℤ) → m y ≢ 0 → n y ≢ 0) → left k ns n ≤ left k ns m
unfolding left
left-seen k [] m n h = omega arith
left-seen k (x ∷ ns) m n h = ground (arith, left-seen k ns m n h, h x)
