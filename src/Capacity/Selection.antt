-- ===== src/Capacity/Selection.antt =====
-- The member that the least-loaded selection returns.
use agentic_software_factory.Prelude.{
  ℕ, zero, suc, ◌+◌, ◌-◌, ◌%◌, ◌≤◌, ◌<◌, ◌≡◌, refl, ◌∙◌, ap, sym, subst, Bool, true, false, Option,
  none, some, List, [], ◌∷◌, arith, inl, inr, ◌==◌, leb, if◌then◌else◌, Bool-cases, is_empty,
  length, get_elem?, unwrap_or, map, All, Str, ok, err, ==_refl, any, ◌≢◌, contains, str_eq,
  str_eq_refl, str_eq→eq,
}
use agentic_software_factory.Capacity.{
  Load, inflight, minimum, counts, positions, remainder_by_zero, pick, at_index,
  select_agent_with_capacity,
}

-- The value is the minimum of the list.
record IsLeast (xs : List ℕ) (m : ℕ) : Type 0 where
  found : minimum xs ≡ some m
  lower : All (λ y. m ≤ y) xs
  listed : any (λ y. y == m) xs ≡ true

All-weaken : (m n : ℕ) (xs : List ℕ) → m ≤ n → All (λ y. n ≤ y) xs → All (λ y. m ≤ y) xs
All-weaken m n [] h a = a
All-weaken m n (x ∷ xs) h (b, a) = (omega (arith, h, b), All-weaken m n xs h a)

minimum-cons :
    (x m : ℕ) (xs : List ℕ)
    → minimum xs ≡ some m
    → minimum (x ∷ xs) ≡ some (if leb x m then x else m)
minimum-cons x m xs e =
    ap (λ o. elim o as (λ o. Option ℕ) [ none ↦ some x | some n ↦ some (if leb x n then x else n) ])
      e

cons-IsLeast : (x m : ℕ) (xs : List ℕ) → IsLeast xs m → IsLeast (x ∷ xs) (if leb x m then x else m)
cons-IsLeast x m xs l = record {
  found = minimum-cons x m xs l.found;
  lower = (ground arith, All-weaken (if leb x m then x else m) m xs (ground arith) l.lower);
  listed = ground (arith, l.listed, ==_refl x);
}

least : (x : ℕ) (xs : List ℕ) → (m : ℕ) × IsLeast (x ∷ xs) m
least x [] =
    (x, record { found = refl; lower = (omega arith, tt); listed = ground (arith, ==_refl x) })
least x (y ∷ ys) =
    let rest = least y ys in
    (if leb x rest.0 then x else rest.0, cons-IsLeast x (rest.0) (y ∷ ys) (rest.1))

-- What `positions` lists: a member's position, and that its count is the given one.
IsAt : Load → ℕ → ℕ → List Str → ℕ → Type 0
IsAt load m start pool i =
    (start ≤ i) × ((a : Str) × (get_elem? pool (i - start) ≡ some a) × (inflight load a ≡ m))

remainder : (i n : ℕ) → 0 < n → i % n < n
remainder i n h = omega (arith, h)

IsAt-cons :
    (load : Load) (m start i : ℕ) (agent : Str) (pool : List Str)
    → IsAt load m (start + 1) pool i
    → IsAt load m start (agent ∷ pool) i
unfolding IsAt
IsAt-cons load m start i agent pool (h, (a, e, c)) =
    (omega (arith, h), (a, subst (λ k. get_elem? (agent ∷ pool) k ≡ some a) shift e, c))
  where
    shift : suc (i - (start + 1)) ≡ i - start
    shift = omega (arith, h)

All-IsAt-cons :
    (load : Load) (m start : ℕ) (agent : Str) (pool : List Str) (is : List ℕ)
    → All (IsAt load m (start + 1) pool) is
    → All (IsAt load m start (agent ∷ pool)) is
All-IsAt-cons load m start agent pool [] a = a
All-IsAt-cons load m start agent pool (i ∷ is) (b, a) =
    (IsAt-cons load m start i agent pool b, All-IsAt-cons load m start agent pool is a)

All-if :
    (P : ℕ → Type 0) (b : Bool) (x : ℕ) (xs : List ℕ)
    → All P xs
    → (b ≡ true → P x)
    → All P (if b then x ∷ xs else xs)
All-if P true x xs a p = (p refl, a)
All-if P false x xs a p = a

positions-IsAt :
    (load : Load) (read m start : ℕ) (pool : List Str)
    → All (IsAt load m start pool) (positions (λ i. load) read m start pool)
unfolding positions IsAt
positions-IsAt load read m start [] = tt
positions-IsAt load read m start (agent ∷ pool) =
    All-if (IsAt load m start (agent ∷ pool)) (inflight load agent == m) start
      (positions (λ i. load) (read + 1) m (start + 1) pool)
      (All-IsAt-cons load m start agent pool (positions (λ i. load) (read + 1) m (start + 1) pool)
        (positions-IsAt load (read + 1) m (start + 1) pool))
      (λ t. (omega arith, (agent, first, ground (arith, t))))
  where
    first : get_elem? (agent ∷ pool) (start - start) ≡ some agent
    first = subst (λ k. get_elem? (agent ∷ pool) k ≡ some agent) (the_zero) refl
      where
        the_zero : 0 ≡ start - start
        the_zero = omega arith

-- The counts under one view.
counts-constant :
    (load : Load) (read : ℕ) (pool : List Str)
    → counts (λ i. load) read pool ≡ map (inflight load) pool
unfolding counts
counts-constant load read [] = refl
counts-constant load read (agent ∷ pool) =
    ap (λ ns. inflight load agent ∷ ns) (counts-constant load (read + 1) pool)

positions-found :
    (load : Load) (read m start : ℕ) (pool : List Str)
    → any (λ y. y == m) (map (inflight load) pool) ≡ true
    → is_empty (positions (λ i. load) read m start pool) ≡ false
unfolding positions
positions-found load read m start [] h = absurd (ground (arith, h))
positions-found load read m start (agent ∷ pool) h =
    ground (arith, h, positions-found load (read + 1) m (start + 1) pool)

get_elem?-All :
    (P : ℕ → Type 0) (xs : List ℕ) (k : ℕ)
    → All P xs
    → k < length xs
    → (x : ℕ) × (get_elem? xs k ≡ some x) × P x
get_elem?-All P [] k a h = absurd (omega (arith, h))
get_elem?-All P (x ∷ xs) zero (p, a) h = (x, refl, p)
get_elem?-All P (x ∷ xs) (suc k) (p, a) h = get_elem?-All P xs k a (omega (arith, h))

get_elem?-contains :
    (pool : List Str) (i : ℕ) (a : Str) → get_elem? pool i ≡ some a → contains pool a ≡ true
get_elem?-contains [] i a h = absurd (ground (arith, h))
get_elem?-contains (x ∷ pool) zero a h = ground (arith, h, str_eq_refl a)
get_elem?-contains (x ∷ pool) (suc i) a h = ground (arith, get_elem?-contains pool i a h)

lower-contains :
    (load : Load) (m : ℕ) (pool : List Str) (b : Str)
    → All (λ y. m ≤ y) (map (inflight load) pool)
    → contains pool b ≡ true
    → m ≤ inflight load b
lower-contains load m [] b a h = absurd (ground (arith, h))
lower-contains load m (x ∷ pool) b (p, a) h = elim (Bool-cases (str_eq x b)) [
  | inl t ↦ subst (λ c. m ≤ inflight load c) (str_eq→eq x b t) p
  | inr f ↦ lower-contains load m pool b a (ground (arith, h, f))
]

picked :
    (pool : List Str) (candidates : List ℕ) (k i : ℕ) (a : Str)
    → get_elem? candidates k ≡ some i
    → get_elem? pool i ≡ some a
    → pick pool candidates k ≡ ok (some a)
picked pool candidates k i a c e = ground (arith, c, e)

IsAt-zero :
    (load : Load) (m i : ℕ) (pool : List Str)
    → IsAt load m 0 pool i
    → (a : Str) × (get_elem? pool i ≡ some a) × (inflight load a ≡ m)
unfolding IsAt
IsAt-zero load m i pool (h, (a, e, c)) = (a, subst (λ k. get_elem? pool k ≡ some a) the_same e, c)
  where
    the_same : i - 0 ≡ i
    the_same = omega arith

at_index-IsAt :
    (load : Load) (m index : ℕ) (pool : List Str) (candidates : List ℕ)
    → All (IsAt load m 0 pool) candidates
    → is_empty candidates ≡ false
    → (a : Str) × (at_index pool index candidates ≡ ok (some a))
      × (contains pool a ≡ true)
      × (inflight load a ≡ m)
unfolding at_index
at_index-IsAt load m index pool [] all h = absurd (ground (arith, h))
at_index-IsAt load m index pool (c ∷ candidates) all h =
    let found =
      get_elem?-All (IsAt load m 0 pool) (c ∷ candidates) (index % suc (length candidates)) all
        (remainder index (suc (length candidates)) (omega arith)) in
    let at = IsAt-zero load m (found.0) pool (found.2) in
    (
      at.0,
      picked pool (c ∷ candidates) (index % suc (length candidates)) (found.0) (at.0) (found.1)
          (at.1),
      get_elem?-contains pool (found.0) (at.0) (at.1),
      at.2,
    )

select-minimum :
    (load : Load) (index m : ℕ) (agent : Str) (pool : List Str)
    → minimum (map (inflight load) (agent ∷ pool)) ≡ some m
    → select_agent_with_capacity (agent ∷ pool) index (λ i. load)
      ≡ at_index
          (agent ∷ pool)
          index
          (positions (λ i. load) (length (agent ∷ pool)) m 0 (agent ∷ pool))
unfolding select_agent_with_capacity
select-minimum load index m agent pool e =
    ap
      (λ o.
        at_index (agent ∷ pool) index
          (positions (λ i. load) (length (agent ∷ pool)) (unwrap_or o 0) 0 (agent ∷ pool)))
      (ap minimum (counts-constant load 0 (agent ∷ pool)) ∙ e)

-- With one view of the counts, a pool that has a member yields a member of it, and no member of the
-- pool has fewer slots in use.
pub select_least :
    (load : Load) (index : ℕ) (agent : Str) (pool : List Str)
    → (a : Str) × (select_agent_with_capacity (agent ∷ pool) index (λ i. load) ≡ ok (some a))
      × (contains (agent ∷ pool) a ≡ true)
      × ((b : Str) → contains (agent ∷ pool) b ≡ true → inflight load a ≤ inflight load b)
select_least load index agent pool =
    let min = least (inflight load agent) (map (inflight load) pool) in
    let m = min.0 in
    let got =
      at_index-IsAt load m index (agent ∷ pool)
        (positions (λ i. load) (length (agent ∷ pool)) m 0 (agent ∷ pool))
        (positions-IsAt load (length (agent ∷ pool)) m 0 (agent ∷ pool))
        (positions-found load (length (agent ∷ pool)) m 0 (agent ∷ pool) ((min.1).listed)) in
    (
      got.0,
      select-minimum load index m agent pool ((min.1).found) ∙ got.1,
      got.2,
      λ b h.
          subst (λ n. n ≤ inflight load b) (sym (got.3))
            (lower-contains load m (agent ∷ pool) b ((min.1).lower) h),
    )

-- When the count of the one member changes between its two reads, the selection divides by zero.
pub select_panics :
    (loads : ℕ → Load) (index : ℕ) (agent : Str)
    → inflight (loads 0) agent ≢ inflight (loads 1) agent
    → select_agent_with_capacity (agent ∷ []) index loads ≡ err remainder_by_zero
unfolding select_agent_with_capacity counts positions at_index
select_panics loads index agent h = ground (arith, h)
