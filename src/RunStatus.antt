-- ===== src/RunStatus.antt =====
-- crates/factory-types/src/run.rs: the status of a run, which its tasks decide.
use agentic_software_factory.Prelude.{
  ◌≡◌, refl, ◌↔◌, Bool, true, false, not, ◌&&◌, List, [], ◌∷◌, ◌++◌, arith, if◌then◌else◌, Str, str,
  str_eq, str_eq→eq, Result, ok, err, any, all, is_empty, subst, sym,
}
use agentic_software_factory.TaskState.{
  TaskState, ready, running, awaiting_integration, integrating, blocked, failed, completed,
  superseded, same,
}

pub data RunStatus : Type 0 where
  planning planned active blocked_run completed_run failed_run cancelled : RunStatus

-- `RunStatus::as_str`
unfoldable pub run_as_str : RunStatus → Str
run_as_str planning = str "planning"
run_as_str planned = str "planned"
run_as_str active = str "active"
run_as_str blocked_run = str "blocked"
run_as_str completed_run = str "completed"
run_as_str failed_run = str "failed"
run_as_str cancelled = str "cancelled"

-- `RunStatus::from_str`
unfoldable pub run_from_str : Str → Result RunStatus Str
run_from_str s =
    if str_eq s (str "planning")
    then ok planning
    else if str_eq s (str "planned")
    then ok planned
    else if str_eq s (str "active")
    then ok active
    else if str_eq s (str "blocked")
    then ok blocked_run
    else if str_eq s (str "completed")
    then ok completed_run
    else if str_eq s (str "failed")
    then ok failed_run
    else if str_eq s (str "cancelled")
    then ok cancelled
    else err (str "unknown run status '" ++ s ++ str "'")

-- `matches!(t.state, Completed | Superseded)`
abbrev pub is_settled : TaskState → Bool
is_settled completed = true
is_settled superseded = true
is_settled _ = false

-- `matches!(t.state, Ready | Running | AwaitingIntegration | Integrating)`
abbrev pub can_move : TaskState → Bool
can_move ready = true
can_move running = true
can_move awaiting_integration = true
can_move integrating = true
can_move _ = false

-- `matches!(t.state, Running | AwaitingIntegration | Integrating | Completed | Blocked)`
abbrev pub has_started : TaskState → Bool
has_started running = true
has_started awaiting_integration = true
has_started integrating = true
has_started completed = true
has_started blocked = true
has_started _ = false

-- `RunStatus::from_tasks`, which reads nothing of a task but its state.
unfoldable pub from_tasks : List TaskState → RunStatus
from_tasks tasks =
    if is_empty tasks
    then planned
    else if any (same failed) tasks
    then failed_run
    else if all is_settled tasks
    then completed_run
    else if any (same blocked) tasks && not (any can_move tasks)
    then blocked_run
    else if any has_started tasks
    then active
    else planned

run_from_str-run_as_str : (s : RunStatus) → run_from_str (run_as_str s) ≡ ok s
unfolding run_from_str run_as_str str str_eq
run_from_str-run_as_str planning = refl
run_from_str-run_as_str _ = refl

run_from_str_inv : (text : Str) (s : RunStatus) → run_from_str text ≡ ok s → text ≡ run_as_str s
unfolding run_from_str run_as_str
run_from_str_inv text s h = ground (
  arith,
  str_eq→eq text (str "planning"),
  str_eq→eq text (str "planned"),
  str_eq→eq text (str "active"),
  str_eq→eq text (str "blocked"),
  str_eq→eq text (str "completed"),
  str_eq→eq text (str "failed"),
  str_eq→eq text (str "cancelled"),
)

-- A text parses to a run status exactly when it is the name of that status.
pub run_from_str_iff :
    (text : Str) (s : RunStatus) → (run_from_str text ≡ ok s) ↔ (text ≡ run_as_str s)
run_from_str_iff text s = (
  run_from_str_inv text s,
  λ e. subst (λ t. run_from_str t ≡ ok s) (sym e) (run_from_str-run_as_str s),
)

can_move-unsettled : (s : TaskState) → can_move s ≡ true → is_settled s ≡ false
can_move-unsettled completed h = absurd (ground (arith, h))
can_move-unsettled superseded h = absurd (ground (arith, h))
can_move-unsettled _ h = refl

moving-unsettled :
    (tasks : List TaskState) → any can_move tasks ≡ true → all is_settled tasks ≡ false
moving-unsettled [] h = absurd (ground (arith, h))
moving-unsettled (t ∷ tasks) h = ground (arith, h, can_move-unsettled t, moving-unsettled tasks)

moving-present : (tasks : List TaskState) → any can_move tasks ≡ true → is_empty tasks ≡ false
moving-present [] h = absurd (ground (arith, h))
moving-present (t ∷ tasks) h = refl

-- A run with a task that can still move, and with no failed one, is active if a task of it has
-- started, and planned if none has, whatever else is blocked or settled.
from_tasks-moving :
    (tasks : List TaskState)
    → any (same failed) tasks ≡ false
    → any can_move tasks ≡ true
    → from_tasks tasks ≡ (if any has_started tasks then active else planned)
unfolding from_tasks
from_tasks-moving tasks f m = ground (arith, f, m, moving-unsettled tasks m, moving-present tasks m)
