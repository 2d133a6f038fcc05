-- ===== src/Tests/Runs.antt =====
-- Agents and samples (crates/factory-core/src/capacity.rs, crates/factory-types/src/stats.rs).
use agentic_software_factory.Prelude.{
  ℕ, zero, suc, ◌+◌, ◌-◌, get_elem?, ◌≤◌, ◌≡◌, ◌≢◌, refl, arith, true, some, [], ◌∷◌, Str, str,
  str_eq, contains, ok, err,
}
use Prim.Native.Nat.{◌/◌}
use agentic_software_factory.Capacity.{
  Load, new, get, update, inflight, acquire, adjust, saturating_add, try_acquire, release,
  remainder_by_zero, select_agent_with_capacity,
}
use agentic_software_factory.Capacity.Slots.{
  Slots, reserve, finish, Reach, next, IsExact, Reach-IsExact,
}
use agentic_software_factory.Capacity.Selection.{select_least, select_panics}
use agentic_software_factory.Stats.{median_u64, median_u64_lem}

-- Two slots for `ada`: both are taken, and the first guard is dropped.
abbrev two : Str → ℕ
two agent = 2

abbrev one_held : Slots
one_held = record { load = (str "ada", 1) ∷ []; guards = str "ada" ∷ [] }

abbrev two_held : Slots
two_held = record { load = (str "ada", 2) ∷ []; guards = str "ada" ∷ str "ada" ∷ [] }

program : Unit {0}
unfolding get update inflight acquire adjust saturating_add try_acquire release str str_eq
    median_u64
program = tt

first : try_acquire (str "ada") 2 new ≡ some (one_held.load)
unfolding program
first = refl

second : try_acquire (str "ada") 2 (one_held.load) ≡ some (two_held.load)
unfolding program
second = refl

reached : Reach two (record { load = release (str "ada") (two_held.load); guards = str "ada" ∷ [] })
reached =
    next
      (next (next Reach.start (reserve (str "ada") (one_held.load) first))
        (reserve (str "ada") (two_held.load) second))
      (finish (str "ada") [] (str "ada" ∷ []) refl)

Reach-IsExact_example :
    IsExact two (record { load = release (str "ada") (two_held.load); guards = str "ada" ∷ [] })
Reach-IsExact_example = Reach-IsExact two reached

select_least_example :
    (a : Str) × (select_agent_with_capacity (str "ada" ∷ str "bob" ∷ []) 3 (λ i. one_held.load)
      ≡ ok (some a))
    × (contains (str "ada" ∷ str "bob" ∷ []) a ≡ true)
    × ((b : Str)
        → contains (str "ada" ∷ str "bob" ∷ []) b ≡ true
        → inflight (one_held.load) a ≤ inflight (one_held.load) b)
select_least_example = select_least (one_held.load) 3 (str "ada") (str "bob" ∷ [])

-- The slot of `ada` is released after the first read.
abbrev between : ℕ → Load
between zero = one_held.load
between (suc i) = new

changed : inflight (between 0) (str "ada") ≢ inflight (between 1) (str "ada")
unfolding program
changed = λ e. omega (arith, e)

select_panics_example :
    select_agent_with_capacity (str "ada" ∷ []) 0 between ≡ err remainder_by_zero
select_panics_example = select_panics between 0 (str "ada") changed

median_u64_lem_example :
    (a : ℕ) × (b : ℕ) × (get_elem? (10 ∷ 11 ∷ []) ((2 - 1) / 2) ≡ some a)
    × (get_elem? (10 ∷ 11 ∷ []) (2 / 2) ≡ some b)
    × (median_u64 (10 ∷ 11 ∷ []) ≡ ok (some ((a + b + 1) / 2)))
    × (a ≤ b → (a ≤ (a + b + 1) / 2) × ((a + b + 1) / 2 ≤ b))
median_u64_lem_example = median_u64_lem (10 ∷ 11 ∷ []) (omega arith, (omega arith, tt)) refl
