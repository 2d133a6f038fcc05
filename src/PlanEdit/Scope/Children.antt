-- ===== src/PlanEdit/Scope/Children.antt =====
-- The children of a task in the map `dependents` are tasks of the plan.
use agentic_software_factory.Prelude.{
  refl, ◌≡◌, inl, inr, ap, arith, true, some, List, [], ◌∷◌, any-append, Bool-cases, ℤ, same_int,
  same_int→eq, same_int_refl, has_int,
}
use agentic_software_factory.PlanEdit.{Task}
use agentic_software_factory.PlanEdit.Scope.{dependents, listings, find_task}

listings-only :
    (current id c : ℤ) (deps : List ℤ) → has_int (listings current id deps) c ≡ true → id ≡ c
listings-only current id c [] h = absurd (ground (arith, h))
listings-only current id c (dep ∷ deps) h = elim (Bool-cases (same_int id c)) [
  | inl e ↦ same_int→eq id c e
  | inr e ↦ listings-only current id c deps (ground (arith, h, e))
]

-- Every child is a task.
pub dependents-found :
    (tasks : List Task) (current c : ℤ)
    → has_int (dependents tasks current) c ≡ true
    → (t : Task) × (find_task tasks c ≡ some t)
dependents-found [] current c h = absurd (ground (arith, h))
dependents-found (u ∷ tasks) current c h = elim (Bool-cases (same_int u.id c)) [
  | inl e ↦ (u, rw e refl)
  | inr e ↦
      let (t, f) =
        dependents-found tasks current c (elim (Bool-cases (has_int (dependents tasks current) c)) [
          | inl i ↦ i
          | inr i ↦
              let here : has_int (listings current u.id u.dependencies) c ≡ true = ground (
                arith,
                h,
                i,
                any-append (λ m. same_int m c) (listings current u.id u.dependencies)
                    (dependents tasks current),
              ) in
              let same = listings-only current u.id c u.dependencies here in
              absurd (ground (arith, e, ap (λ y. same_int y c) same, same_int_refl c))
        ]) in
      (t, rw e f)
]
