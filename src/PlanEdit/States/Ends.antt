-- ===== src/PlanEdit/States/Ends.antt =====
-- The order of the mutable tasks is found within its fuel, and has mutable tasks only.
use agentic_software_factory.Prelude.{
  ℕ, zero, suc, ◌+◌, ◌-◌, ◌≤◌, ◌≡◌, ◌≢◌, inl, inr, refl, ap, sym, subst, arith, Bool, true, false,
  List, [], ◌∷◌, ◌++◌, ◌==◌, some, Bool-cases, any-append, any-filter, length, length-append,
  filter, if◌then◌else◌, ℤ, same_int, same_int→eq, same_int_refl, same_int_sym, has_int,
}
use agentic_software_factory.PlanEdit.{ResolvedTask}
use agentic_software_factory.PlanEdit.States.Known.{
  Counts, set_count, lower_each, lower_all, order_among, count_at,
}

-- How many entries still wait for others.
abbrev owing : List ℤ → Counts → ℕ
owing [] degrees = 0
owing (n ∷ ns) degrees = (if degrees n == 0 then 0 else 1) + owing ns degrees

owing-lowered :
    (ns : List ℤ) (degrees : Counts) (x : ℤ) (v : ℕ)
    → degrees x ≢ 0
    → owing ns (set_count x v degrees) ≤ owing ns degrees
owing-lowered [] degrees x v h = omega arith
owing-lowered (n ∷ ns) degrees x v h = elim (Bool-cases (same_int x n)) [
  | inl t ↦
      let e = ap degrees (same_int→eq x n t) in
      rw t (ground (arith, owing-lowered ns degrees x v h, e, h))
  | inr f ↦ rw f (ground (arith, owing-lowered ns degrees x v h))
]

owing-settled :
    (ns : List ℤ) (degrees : Counts) (x : ℤ)
    → has_int ns x ≡ true
    → degrees x ≢ 0
    → 1 + owing ns (set_count x 0 degrees) ≤ owing ns degrees
owing-settled [] degrees x k h = absurd (ground (arith, k))
owing-settled (n ∷ ns) degrees x k h = elim (Bool-cases (same_int x n)) [
  | inl t ↦
      let e = ap degrees (same_int→eq x n t) in
      rw t (ground (arith, owing-lowered ns degrees x 0 h, e, h))
  | inr f ↦
      rw f (ground (arith, owing-settled ns degrees x (ground (arith, k, same_int_sym x n, f)) h))
]

start-owing :
    (ns : List ℤ) (degrees : Counts)
    → length (filter (λ id. degrees id == 0) ns) + owing ns degrees ≡ length ns
start-owing [] degrees = omega arith
start-owing (n ∷ ns) degrees = ground (arith, start-owing ns degrees)

module _ (tasks : List ResolvedTask) (among : List ℤ) where
  -- The queue has entries of the list only, and each pop lets the queue grow by what no longer waits.
  pub record Fits (s : Counts × List ℤ) (bound : ℕ) : Type 0 where
    pub within : length (s.1) + owing among (s.0) ≤ bound
    pub listed : (x : ℤ) → has_int (s.1) x ≡ true → has_int among x ≡ true

  if-Fits :
      (b : Bool) (s t : Counts × List ℤ) (bound : ℕ)
      → (b ≡ true → Fits s bound)
      → (b ≡ false → Fits t bound)
      → Fits (if b then s else t) bound
  if-Fits true s t bound f g = f refl
  if-Fits false s t bound f g = g refl

  snoc-listed :
      (queue : List ℤ) (id : ℤ)
      → ((x : ℤ) → has_int queue x ≡ true → has_int among x ≡ true)
      → has_int among id ≡ true
      → (x : ℤ) → has_int (queue ++ id ∷ []) x ≡ true
      → has_int among x ≡ true
  snoc-listed queue id k e x h = elim (Bool-cases (same_int id x)) [
    | inl t ↦ subst (λ w. has_int among w ≡ true) (same_int→eq id x t) e
    | inr f ↦ k x (ground (arith, h, f, any-append (λ m. same_int m x) queue (id ∷ [])))
  ]

  -- A dependency of an entry that waits is done.
  lowered-Fits :
      (other : ℤ) (degrees : Counts) (queue : List ℤ) (bound : ℕ)
      → has_int among other ≡ true
      → degrees other ≢ 0
      → Fits (degrees, queue) bound
      → Fits
          (
            set_count other (degrees other - 1) degrees,
            if degrees other - 1 == 0 then queue ++ other ∷ [] else queue,
          )
          bound
  lowered-Fits other degrees queue bound e h fits = elim (Bool-cases (degrees other - 1 == 0)) [
    | inl t ↦ rw t (record {
      within = omega (
        arith,
        fits.within,
        length-append queue (other ∷ []),
        subst (λ w. 1 + owing among (set_count other w degrees) ≤ owing among degrees)
            (sym (zero_of t)) (owing-settled among degrees other e h),
      );
      listed = snoc-listed queue other fits.listed e;
    })
    | inr f ↦ rw f (record {
      within = omega (arith, fits.within, owing-lowered among degrees other (degrees other - 1) h);
      listed = fits.listed;
    })
  ]
    where
      zero_of : (degrees other - 1 == 0) ≡ true → degrees other - 1 ≡ 0
      zero_of t = ground (arith, t)

  lower_each-Fits :
      (id : ℤ) (others : List ℤ) (s : Counts × List ℤ) (bound : ℕ)
      → ((x : ℤ) → has_int others x ≡ true → has_int among x ≡ true)
      → Fits s bound
      → Fits (lower_each tasks id others s) bound
  unfolding lower_each
  lower_each-Fits id [] s bound k fits = fits
  lower_each-Fits id (other ∷ others) (degrees, queue) bound k fits =
      lower_each-Fits id others _ bound (λ x h. k x (ground (arith, h)))
        (if-Fits _ _ _ bound
          (λ t.
            lowered-Fits other degrees queue bound (k other (ground (arith, same_int_refl other)))
              (λ z. ground (arith, t, z)) fits)
          (λ f. fits))

  lower_all-ends :
      (fuel : ℕ) (degrees : Counts) (queue order : List ℤ)
      → Fits (degrees, queue) fuel
      → ((x : ℤ) → has_int order x ≡ true → has_int among x ≡ true)
      → (result : List ℤ) × (lower_all fuel tasks among degrees queue order ≡ some result)
        × ((x : ℤ) → has_int result x ≡ true → has_int among x ≡ true)
  unfolding lower_all
  lower_all-ends fuel degrees [] order fits k = (order, refl, k)
  lower_all-ends zero degrees (id ∷ queue) order fits k = absurd (omega (arith, fits.within))
  lower_all-ends (suc fuel) degrees (id ∷ queue) order fits k =
      let next =
        lower_each-Fits id among (degrees, queue) fuel (λ x h. h)
          (record {
            within = omega (arith, fits.within);
            listed = λ x h. fits.listed x (ground (arith, h));
          }) in
      lower_all-ends fuel ((lower_each tasks id among (degrees, queue)).0)
        ((lower_each tasks id among (degrees, queue)).1) (order ++ id ∷ []) next
        (snoc-listed order id k (fits.listed id (ground (arith, same_int_refl id))))

filter_any :
    (p : ℤ → Bool) (ns : List ℤ) (x : ℤ) → has_int (filter p ns) x ≡ true → has_int ns x ≡ true
filter_any p ns x = any-filter (λ m. same_int m x) p ns

-- The order of the entries of a list is found within its fuel, and has entries of the list only.
pub order_among-ends :
    (tasks : List ResolvedTask) (among : List ℤ)
    → (order : List ℤ) × (order_among tasks among ≡ some order)
      × ((x : ℤ) → has_int order x ≡ true → has_int among x ≡ true)
unfolding order_among
order_among-ends tasks among =
    let degrees = count_at tasks among in
    lower_all-ends tasks among (length among) degrees (filter (λ id. degrees id == 0) among) []
      (record {
        within = omega (arith, start-owing among degrees);
        listed = filter_any (λ id. degrees id == 0) among;
      })
      (λ x h. absurd (ground (arith, h)))
