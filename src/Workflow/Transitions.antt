-- ===== src/Workflow/Transitions.antt =====
-- The two tables of transitions agree, and what can be reached by them.
use agentic_software_factory.Prelude.{
  ◌≡◌, refl, ◌↔◌, Bool, true, false, ◌||◌, List, [], ◌∷◌, arith, any, all, ◌∙◌,
}
use agentic_software_factory.TaskState.{
  TaskState, pending, ready, blocked, completed, superseded, same,
}
use agentic_software_factory.Workflow.{
  can_transition, allowed_targets, next_state_for_dependent, stops, satisfies,
}

-- A transition is accepted exactly when it stays or its target is listed.
can_transition-allowed_targets :
    (from to : TaskState)
    → can_transition from to ≡ (same from to || any (same to) (allowed_targets from))
unfolding can_transition allowed_targets
can_transition-allowed_targets pending to = ground arith
can_transition-allowed_targets _ to = ground arith

-- Runs of accepted transitions.
pub data Reach (from : TaskState) : TaskState → Type 0 where
  here : Reach from from
  next : {a b : TaskState} → Reach from a → can_transition a b ≡ true → Reach from b

abbrev is_alive : TaskState → Bool
is_alive superseded = false
is_alive _ = true

alive_step : (a b : TaskState) → can_transition a b ≡ true → is_alive a ≡ is_alive b
unfolding can_transition
alive_step pending pending h = refl
alive_step _ _ h = ground arith

-- No run of transitions enters or leaves `superseded`.
pub Reach-superseded : {a b : TaskState} → Reach a b → is_alive a ≡ is_alive b
Reach-superseded here = refl
Reach-superseded (next {a = c} {b} r h) = Reach-superseded r ∙ alive_step c b h

none_stops : (states : List TaskState) → all satisfies states ≡ true → any stops states ≡ false
none_stops [] h = refl
none_stops (pending ∷ states) h = ground arith
none_stops (completed ∷ states) h = none_stops states h
none_stops (superseded ∷ states) h = none_stops states h
none_stops (_ ∷ states) h = ground arith

-- A dependent is blocked exactly when some dependency failed or is blocked, and ready exactly when all
-- are completed or superseded; pending is what is left.
next_state_for_dependent_lem :
    (states : List TaskState)
    → ((next_state_for_dependent states ≡ blocked) ↔ (any stops states ≡ true))
      × ((next_state_for_dependent states ≡ ready) ↔ (all satisfies states ≡ true))
      × ((next_state_for_dependent states ≡ pending)
          ↔ ((any stops states ≡ false) × (all satisfies states ≡ false)))
unfolding next_state_for_dependent
next_state_for_dependent_lem states = (
  (λ h. ground arith, λ h. ground arith),
  (λ h. ground arith, λ h. ground (arith, none_stops states h)),
  (λ h. ground arith, λ h. ground arith),
)
