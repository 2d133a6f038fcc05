-- ===== src/PlanEdit/Calls.antt =====
-- How the calls of crates/factory-types/src/plan_edit.rs end, and how one follows another.
use agentic_software_factory.Prelude.{Option, none, some, ◌≡◌, ap}

-- What a call comes to: it returns, an `expect` fails, or a loop outlives its fuel.
pub data Outcome {ℓ} (A : Type ℓ) : Type ℓ where
  returns : A → Outcome A
  panics : Outcome A
  out_of_fuel : Outcome A

abbrev pub and_then_outcome {ℓ κ} :
    {A : Type ℓ} {B : Type κ} → Outcome A → (A → Outcome B) → Outcome B
and_then_outcome (returns a) f = f a
and_then_outcome panics f = panics
and_then_outcome out_of_fuel f = out_of_fuel

abbrev pub fueled {ℓ κ} : {A : Type ℓ} {B : Type κ} → Option A → (A → Outcome B) → Outcome B
fueled none f = out_of_fuel
fueled (some a) f = f a

pub then-returns {ℓ κ} :
    {A : Type ℓ} {B : Type κ} {o : Outcome A} {a : A} (f : A → Outcome B)
    → o ≡ returns a
    → and_then_outcome o f ≡ f a
then-returns f e = ap (λ o. and_then_outcome o f) e
