-- ===== src/TaskState.antt =====
-- crates/factory-types/src/task.rs: the states of a task.
use agentic_software_factory.Prelude.{
  ◌≡◌, refl, ◌↔◌, Bool, true, Result, ok, err, arith, if◌then◌else◌, Str, str, str_eq, str_eq→eq,
  ◌++◌, ◌==◌, ℕ, subst, sym,
}

pub data TaskState : Type 0 where
  pending ready running awaiting_integration integrating blocked failed completed superseded :
      TaskState

-- `TaskState::as_str`
unfoldable pub as_str : TaskState → Str
as_str pending = str "pending"
as_str ready = str "ready"
as_str running = str "running"
as_str awaiting_integration = str "awaiting_integration"
as_str integrating = str "integrating"
as_str blocked = str "blocked"
as_str failed = str "failed"
as_str completed = str "completed"
as_str superseded = str "superseded"

-- `TaskState::from_str`
unfoldable pub from_str : Str → Result TaskState Str
from_str s =
    if str_eq s (str "pending")
    then ok pending
    else if str_eq s (str "ready")
    then ok ready
    else if str_eq s (str "running")
    then ok running
    else if str_eq s (str "awaiting_integration")
    then ok awaiting_integration
    else if str_eq s (str "integrating")
    then ok integrating
    else if str_eq s (str "blocked")
    then ok blocked
    else if str_eq s (str "failed")
    then ok failed
    else if str_eq s (str "completed")
    then ok completed
    else if str_eq s (str "superseded")
    then ok superseded
    else err (str "unknown task state '" ++ s ++ str "'")

-- The place in the declaration, and the derived equality.
abbrev pub rank : TaskState → ℕ
rank pending = 0
rank ready = 1
rank running = 2
rank awaiting_integration = 3
rank integrating = 4
rank blocked = 5
rank failed = 6
rank completed = 7
rank superseded = 8

abbrev pub same : TaskState → TaskState → Bool
same a b = rank a == rank b

pub same_iff : (a b : TaskState) → (same a b ≡ true) ↔ (a ≡ b)
same_iff a b = (λ h. ground arith, λ h. ground arith)

from_str-as_str : (s : TaskState) → from_str (as_str s) ≡ ok s
unfolding from_str as_str str str_eq
from_str-as_str pending = refl
from_str-as_str _ = refl

from_str_inv : (text : Str) (s : TaskState) → from_str text ≡ ok s → text ≡ as_str s
unfolding from_str as_str
from_str_inv text s h = ground (
  arith,
  str_eq→eq text (str "pending"),
  str_eq→eq text (str "ready"),
  str_eq→eq text (str "running"),
  str_eq→eq text (str "awaiting_integration"),
  str_eq→eq text (str "integrating"),
  str_eq→eq text (str "blocked"),
  str_eq→eq text (str "failed"),
  str_eq→eq text (str "completed"),
  str_eq→eq text (str "superseded"),
)

-- A text parses to a state exactly when it is the name of that state.
from_str_iff : (text : Str) (s : TaskState) → (from_str text ≡ ok s) ↔ (text ≡ as_str s)
from_str_iff text s =
    (from_str_inv text s, λ e. subst (λ t. from_str t ≡ ok s) (sym e) (from_str-as_str s))
