-- ===== src/Lib.antt =====
-- Verification of the core of Agentic Software Factory (crates/), a program that lets AI agents plan,
-- carry out and review the tasks of a software project in Git worktrees.
--
-- The program's parts. The planner agent returns a plan, which factory-core validates; each task of
-- it is a state machine; the runtime hands ready tasks to agents, whose load is bounded by slots; and
-- every access of an agent, to files, commands, the network, the environment, Git and tools, is
-- decided by a policy that is composed of what the role, the agent and the recipe declare.
--
-- The files.
-- - Policy/Path and Policy/Glob: crates/factory-policy/src/path.rs. Text is a list of code points.
--   Glob/Relation states the matching rules as inductive types.
-- - Policy/Model: the declared policies and presets of crates/factory-policy/src/policy.rs. A
--   `BTreeMap` is the list of its entries.
-- - Policy/Filesystem, Commands, Network, Environment, Git, Tools: the sections of the effective
--   policy, with `resolve`, `restrict` and the queries of each under their own names. Environment
--   includes the filters of crates/factory-policy/src/environment.rs.
-- - Policy/Secrets: the secret values and their redaction, of crates/factory-policy/src/environment.rs.
-- - Policy/Redactor: crates/factory-policy/src/redact.rs. `stream` feeds the chunks one after another
--   and ends the stream.
-- - Policy/Effective: the composition of the sections (`PoliciesConfig::effective_restricted` and the
--   others), `validate_executable` and the view.
-- - TaskState and Workflow: crates/factory-types/src/task.rs and crates/factory-core/src/workflow.rs.
-- - RunStatus and Stats: crates/factory-types/src/run.rs and stats.rs.
-- - Capacity: crates/factory-core/src/capacity.rs. The state is the map behind the lock; Capacity/Slots
--   has the steps that concurrent dispatches take, one after another.
-- - Roles: crates/factory-core/src/roles.rs and the operations of crates/factory-types/src/artifact.rs.
-- - Planner: `validate_plan` and the checks of roles and operations of
--   crates/factory-core/src/planner.rs, on the types of crates/factory-types/src/plan.rs. Planner/Known
--   is the loop of `validate_plan` with a total map of degrees, for the proofs.
-- - PlanEdit: crates/factory-types/src/plan_edit.rs, on the types of plans.rs and task.rs. Cycle and
--   States hold `detect_cycle` and `recompute_states`, Drafts and Steps the operations of a patch,
--   Patch `resolve_patch`, Scope `mutable_scope`, and Replan `resolve_replan`. The local variables that
--   the operations change are a record, `Working`, and the diagnostics that a check pushes are its
--   result. States/Known is `recompute_states` with look-ups that cannot fail, which the proofs compare
--   with the real one. The other children hold proofs.
-- - Tests: concrete inputs.
--
-- Conventions. `Option` and `Result` are the source's; a panic is an error of its own. A `u64` is a
-- native number with its bound written out. The platform (`cfg!(windows)` and `str::to_lowercase`,
-- whose tables belong to the standard library) is a parameter, and so is the order in which a hash map
-- gives its keys, of which only this is assumed: each key comes, and once. An `i64` or `i32` is an
-- integer; `n as i32` and `n + 1` wrap as in a release build. What a call of a plan edit comes to is an
-- `Outcome`: it returns, an `expect` fails, or a loop outlives its fuel (PlanEdit/Calls).
--
-- Fuel. The `while` loop of `validate_plan` runs on as much fuel as there are tasks. Each round pops
-- one task, and no task is pushed twice, so the fuel does not run out. The redactor's loop has as much
-- fuel as there are characters, of which each round takes one at least if no secret is empty. In a plan
-- edit, `recompute_states` and `mutable_scope` push each task once; the search of `detect_cycle` opens
-- each task once with its dependencies, and for a moment whenever it is popped again.
--
-- Not modelled: the database, processes, threads, Git, GitHub, HTTP and JSON, which are calls of other
-- programs and libraries; routing, recipes and the context index, whose logic stands apart.
pub mod Prelude
pub mod Policy
pub mod TaskState
pub mod Workflow
pub mod Capacity
pub mod RunStatus
pub mod Stats
pub mod Roles
pub mod PlanEdit
pub mod Planner
pub mod Tests
