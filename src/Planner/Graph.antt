-- ===== src/Planner/Graph.antt =====
-- The dependency graph of a plan, and lists of distinct names.
pub mod Relaxing
pub mod Stacking
pub mod Draining
pub mod Starting
pub mod Lookups
use agentic_software_factory.Prelude.{
  ℕ, zero, suc, ◌+◌, ◌≤◌, ◌<◌, ◌≡◌, ◌≢◌, refl, sym, subst, ◌∙◌, ap, inl, inr, arith, Bool, true,
  false, List, [], ◌∷◌, ◌||◌, if◌then◌else◌, length, map, Str, str_eq, str_eq→eq, str_eq_refl,
  str_eq_iff, contains, Bool-cases, any, filter,
}
use agentic_software_factory.Planner.{PlannedTask, name}
use agentic_software_factory.Planner.Known.{count_of}

-- The declared dependencies of the task of a name.
unfoldable pub deps_of : List PlannedTask → Str → List Str
deps_of [] n = []
deps_of (task ∷ tasks) n =
    let rest = deps_of tasks n in if str_eq (name task) n then task.dependencies else rest

pub count_of-length :
    (tasks : List PlannedTask) (n : Str) → count_of tasks n ≡ length (deps_of tasks n)
unfolding count_of deps_of
count_of-length [] n = refl
count_of-length (task ∷ tasks) n = ground (arith, count_of-length tasks n)

-- No name occurs twice.
abbrev pub Distinct : List Str → Type 0
Distinct [] = Unit
Distinct (x ∷ xs) = (contains xs x ≡ false) × Distinct xs

-- How many names of the second list the first has.
pub hits : List Str → List Str → ℕ
hits deps [] = 0
hits deps (p ∷ ps) = let rest = hits deps ps in if contains deps p then suc rest else rest

pub hits-cons :
    (deps : List Str) (p : Str) (ps : List Str)
    → hits deps (p ∷ ps) ≡ (if contains deps p then hits deps ps + 1 else hits deps ps)
unfolding hits
hits-cons deps p ps = ground arith

pub hits-nil : (deps : List Str) → hits deps [] ≡ 0
unfolding hits
hits-nil deps = refl

present : List Str → List Str → ℕ
present [] popped = 0
present (d ∷ deps) popped =
    let rest = present deps popped in if contains popped d then suc rest else rest

hits-empty : (ps : List Str) → hits [] ps ≡ 0
unfolding hits
hits-empty [] = refl
hits-empty (p ∷ ps) = ground (arith, hits-empty ps)

str_eq_sym : (a b : Str) → str_eq a b ≡ str_eq b a
str_eq_sym a b = ground (arith, str_eq_iff a b, str_eq_iff b a)

-- A name that the list lacks adds nothing, any other adds at most one.
hits-absent :
    (d : Str) (deps ps : List Str) → contains ps d ≡ false → hits (d ∷ deps) ps ≡ hits deps ps
unfolding hits
hits-absent d deps [] h = refl
hits-absent d deps (p ∷ ps) h = ground (arith, h, str_eq_sym d p, hits-absent d deps ps)

hits-more :
    (d : Str) (deps ps : List Str)
    → Distinct ps
    → hits (d ∷ deps) ps ≤ hits deps ps + (if contains ps d then 1 else 0)
unfolding hits
hits-more d deps [] u = omega arith
hits-more d deps (p ∷ ps) (a, u) = ground (
  arith,
  str_eq_sym d p,
  str_eq→eq d p,
  hits-absent d deps ps,
  hits-more d deps ps u,
  subst_absent,
)
  where
    subst_absent : str_eq d p ≡ true → contains ps d ≡ false
    subst_absent e = subst (λ x. contains ps x ≡ false) (sym (str_eq→eq d p e)) a

hits-present : (deps ps : List Str) → Distinct ps → hits deps ps ≤ present deps ps
unfolding present
hits-present [] ps u = omega (arith, hits-empty ps)
hits-present (d ∷ deps) ps u = ground (arith, hits-more d deps ps u, hits-present deps ps u)

present-length : (deps ps : List Str) → present deps ps ≤ length deps
unfolding present
present-length [] ps = omega arith
present-length (d ∷ deps) ps = ground (arith, present-length deps ps)

present-all :
    (deps ps : List Str) (d : Str)
    → length deps ≤ present deps ps
    → contains deps d ≡ true
    → contains ps d ≡ true
unfolding present
present-all [] ps d h c = absurd (ground (arith, c))
present-all (x ∷ deps) ps d h c = elim (Bool-cases (str_eq x d)) [
  | inl t ↦
      subst (λ y. contains ps y ≡ true) (str_eq→eq x d t)
        (ground (arith, h, present-length deps ps))
  | inr f ↦ present-all deps ps d (ground (arith, h, present-length deps ps)) (ground (arith, c, f))
]

-- Distinct names hit at most as many names as there are, and if as many, then all of them.
pub hits-bound : (deps ps : List Str) → Distinct ps → hits deps ps ≤ length deps
hits-bound deps ps u = omega (arith, hits-present deps ps u, present-length deps ps)

pub hits-all :
    (deps ps : List Str) (d : Str)
    → Distinct ps
    → length deps ≤ hits deps ps
    → contains deps d ≡ true
    → contains ps d ≡ true
hits-all deps ps d u h c = present-all deps ps d (omega (arith, h, hits-present deps ps u)) c

-- If the list has every name of the second, all of them hit.
pub hits-known :
    (deps ps : List Str)
    → ((n : Str) → contains ps n ≡ true → contains deps n ≡ true)
    → hits deps ps ≡ length ps
unfolding hits
hits-known deps [] k = refl
hits-known deps (p ∷ ps) k = ground (
  arith,
  k p (ground (arith, str_eq_refl p)),
  hits-known deps ps (λ n c. k n (ground (arith, c))),
)

hits-wider : (d : Str) (deps ps : List Str) → hits deps ps ≤ hits (d ∷ deps) ps
unfolding hits
hits-wider d deps [] = omega arith
hits-wider d deps (p ∷ ps) = ground (arith, hits-wider d deps ps)

hits-fresh :
    (d : Str) (deps ps : List Str)
    → contains ps d ≡ true
    → contains deps d ≡ false
    → hits deps ps + 1 ≤ hits (d ∷ deps) ps
unfolding hits
hits-fresh d deps [] c a = absurd (ground (arith, c))
hits-fresh d deps (p ∷ ps) c a = elim (Bool-cases (str_eq d p)) [
  | inl t ↦
      let b : contains deps p ≡ false = subst (λ x. contains deps x ≡ false) (str_eq→eq d p t) a in
      ground (arith, t, b, hits-wider d deps ps)
  | inr f ↦
      let f' = sym (str_eq_sym d p) ∙ f in
      ground (arith, f, f', hits-fresh d deps ps (ground (arith, c, f')) a)
]

-- Distinct names that all occur in the second list are hit as often as there are.
pub hits-covers :
    (deps ps : List Str)
    → Distinct deps
    → ((d : Str) → contains deps d ≡ true → contains ps d ≡ true)
    → length deps ≤ hits deps ps
hits-covers [] ps u k = omega arith
hits-covers (d ∷ deps) ps (a, u) k = omega (
  arith,
  hits-fresh d deps ps (k d (ground (arith, str_eq_refl d))) a,
  hits-covers deps ps u (λ x c. k x (ground (arith, c))),
)
