-- ===== src/Stats.antt =====
-- crates/factory-types/src/stats.rs: the median of a sorted sample of `u64` values.
use agentic_software_factory.Prelude.{
  ℕ, zero, suc, ◌+◌, ◌-◌, ◌%◌, ◌^◌, ◌≤◌, ◌<◌, ◌≡◌, ◌≢◌, refl, ap, subst, sym, ◌∙◌, inl, inr,
  Bool-cases, eq_of_some, true, false, Option, none, some, List, [], ◌∷◌, ◌==◌, leb, arith,
  if◌then◌else◌, is_empty, length, get_elem?, Result, ok, err,
}
use Prim.Native.Nat.{◌/◌}

pub data Panic : Type 0 where
  index_out_of_bounds : Panic
  not_u64 : Panic

abbrev at : List ℕ → ℕ → Result ℕ Panic
at xs i = elim (get_elem? xs i) [ none ↦ err index_out_of_bounds | some x ↦ ok x ]

-- `u64::try_from(sum.div_ceil(2)).expect(..)`
abbrev mean : ℕ → ℕ → Result (Option ℕ) Panic
mean a b = if leb ((a + b + 1) / 2) (2 ^ 64 - 1) then ok (some ((a + b + 1) / 2)) else err not_u64

unfoldable pub median_u64 : List ℕ → Result (Option ℕ) Panic
median_u64 sorted =
    let middle = length sorted / 2 in
    if is_empty sorted
    then ok none
    else if length sorted % 2 == 1
    then elim (at sorted middle) [ ok x ↦ ok (some x) | err e ↦ err e ]
    else elim (at sorted (middle - 1)) [
      | err e ↦ err e
      | ok a ↦ elim (at sorted middle) [ err e ↦ err e | ok b ↦ mean a b ]
    ]

-- Every value is a `u64`.
abbrev pub AllU64 : List ℕ → Type 0
AllU64 [] = Unit
AllU64 (x ∷ xs) = (x < 2 ^ 64) × AllU64 xs

get-AllU64 :
    (xs : List ℕ) (i x : ℕ)
    → AllU64 xs
    → get_elem? xs i ≡ some x
    → (x < 2 ^ 64) × (is_empty xs ≡ false) × (0 < length xs)
get-AllU64 [] i x all h = absurd (ground (arith, h))
get-AllU64 (y ∷ xs) zero x (p, all) h =
    (subst (λ z. z < 2 ^ 64) (eq_of_some h) p, refl, omega arith)
get-AllU64 (y ∷ xs) (suc i) x (p, all) h = ((get-AllU64 xs i x all h).0, refl, omega arith)

half_odd : (n : ℕ) → n % 2 ≡ 1 → (n - 1) / 2 ≡ n / 2
half_odd n h = omega (arith, h)

half_even : (n : ℕ) → n % 2 ≢ 1 → 0 < n → (n - 1) / 2 ≡ n / 2 - 1
half_even n h p = omega (arith, h, p)

mean_same : (a : ℕ) → (a + a + 1) / 2 ≡ a
mean_same a = omega arith

mean-ok : (a b : ℕ) → a < 2 ^ 64 → b < 2 ^ 64 → mean a b ≡ ok (some ((a + b + 1) / 2))
mean-ok a b p q = ground (arith, p, q)

median-odd :
    (xs : List ℕ) (b : ℕ)
    → is_empty xs ≡ false
    → length xs % 2 == 1 ≡ true
    → get_elem? xs (length xs / 2) ≡ some b
    → median_u64 xs ≡ ok (some b)
unfolding median_u64
median-odd xs b n o f = ground (arith, n, o, f)

median-even :
    (xs : List ℕ) (a b : ℕ)
    → is_empty xs ≡ false
    → length xs % 2 == 1 ≡ false
    → get_elem? xs (length xs / 2 - 1) ≡ some a
    → get_elem? xs (length xs / 2) ≡ some b
    → median_u64 xs ≡ mean a b
unfolding median_u64
median-even xs a b n o e f = ground (arith, n, o, e, f)

median-value :
    (xs : List ℕ) (a b : ℕ)
    → AllU64 xs
    → get_elem? xs ((length xs - 1) / 2) ≡ some a
    → get_elem? xs (length xs / 2) ≡ some b
    → median_u64 xs ≡ ok (some ((a + b + 1) / 2))
median-value xs a b all e f = elim (Bool-cases (length xs % 2 == 1)) [
  | inl o ↦
      let same =
        subst (λ i. get_elem? xs i ≡ some a) (half_odd (length xs) (ground (arith, o))) e in
      let eq = eq_of_some (sym same ∙ f) in
      median-odd xs b present o f ∙ ap (λ n. ok (some n)) (ground (arith, eq))
  | inr o ↦
      median-even xs a b present o
        (subst (λ i. get_elem? xs i ≡ some a)
          (half_even (length xs) (ground (arith, o)) ((get-AllU64 xs (length xs / 2) b all f).2)) e)
        f
      ∙ mean-ok a b ((get-AllU64 xs ((length xs - 1) / 2) a all e).0)
          ((get-AllU64 xs (length xs / 2) b all f).0)
]
  where
    present : is_empty xs ≡ false
    present = (get-AllU64 xs (length xs / 2) b all f).1

get_elem?-some : (xs : List ℕ) (i : ℕ) → i < length xs → (x : ℕ) × (get_elem? xs i ≡ some x)
get_elem?-some [] i h = absurd (omega (arith, h))
get_elem?-some (x ∷ xs) zero h = (x, refl)
get_elem?-some (x ∷ xs) (suc i) h = get_elem?-some xs i (omega (arith, h))

not_empty : (xs : List ℕ) → is_empty xs ≡ false → 0 < length xs
not_empty [] h = absurd (ground (arith, h))
not_empty (x ∷ xs) h = omega arith

-- A sample of `u64` values that is not empty has the two elements around the middle, which coincide
-- for an odd size; its median is their mean with a half rounded up, and nothing panics; and where
-- these two are in order, the median lies between them.
pub median_u64_lem :
    (xs : List ℕ)
    → AllU64 xs
    → is_empty xs ≡ false
    → (a : ℕ) × (b : ℕ) × (get_elem? xs ((length xs - 1) / 2) ≡ some a)
      × (get_elem? xs (length xs / 2) ≡ some b)
      × (median_u64 xs ≡ ok (some ((a + b + 1) / 2)))
      × (a ≤ b → (a ≤ (a + b + 1) / 2) × ((a + b + 1) / 2 ≤ b))
median_u64_lem xs all h =
    let (a, e) = get_elem?-some xs ((length xs - 1) / 2) (omega (arith, not_empty xs h)) in
    let (b, f) = get_elem?-some xs (length xs / 2) (omega (arith, not_empty xs h)) in
    (a, b, e, f, median-value xs a b all e f, λ le. (omega (arith, le), omega (arith, le)))
