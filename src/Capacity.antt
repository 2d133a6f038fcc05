-- ===== src/Capacity.antt =====
-- crates/factory-core/src/capacity.rs: the in-flight counts of the agents. The methods that take the
-- lock are atomic, so a state is the map behind the lock. Counts are `u64`.
pub mod Slots
pub mod Selection
use agentic_software_factory.Prelude.{
  ℕ, zero, suc, ◌+◌, ◌-◌, ◌%◌, ◌^◌, Bool, true, false, Option, none, some, List, [], ◌∷◌, ◌==◌, leb,
  ltb, if◌then◌else◌, is_empty, length, get_elem?, unwrap_or, map, Str, str_eq, Result, ok, err,
}

abbrev pub Load : Type 0
Load = List (Str × ℕ)

abbrev pub u64_max : ℕ
u64_max = 2 ^ 64 - 1

unfoldable pub get : Str → Load → Option ℕ
get agent [] = none
get agent ((name, count) ∷ load) =
    let rest = get agent load in if str_eq name agent then some count else rest

-- `entry(agent).or_insert(0)`, then the assignment through the reference.
unfoldable pub update : Str → (ℕ → ℕ) → Load → Load
update agent f [] = (agent, f 0) ∷ []
update agent f ((name, count) ∷ load) =
    let rest = update agent f load in
    if str_eq name agent then (name, f count) ∷ load else (name, count) ∷ rest

-- `AgentCapacity::new`
abbrev pub new : Load
new = []

unfoldable pub inflight : Load → Str → ℕ
unfolding get
inflight load agent = unwrap_or (get agent load) 0

unfoldable pub saturating_add : ℕ → ℕ → ℕ
saturating_add a b = if leb (a + b) u64_max then a + b else u64_max

unfoldable pub adjust : Str → ℕ → Load → Load
unfolding update saturating_add
adjust agent delta load =
    update agent (λ count. if delta == 0 then count - 1 else saturating_add count delta) load

-- `acquire`; the guard that it returns is held by the caller.
unfoldable pub acquire : Str → Load → Load
unfolding adjust
acquire agent load = adjust agent 1 load

unfoldable pub try_acquire : Str → ℕ → Load → Option Load
unfolding inflight update
try_acquire agent limit load =
    if limit == 0
    then none
    else if leb limit (inflight load agent)
    then none
    else some (update agent (λ count. count + 1) load)

-- `release`, which the drop of an active guard calls.
unfoldable pub release : Str → Load → Load
unfolding adjust
release agent load = adjust agent 0 load

-- `iter().min()`
abbrev pub minimum : List ℕ → Option ℕ
minimum [] = none
minimum (x ∷ xs) = elim (minimum xs) [ none ↦ some x | some m ↦ some (if leb x m then x else m) ]

-- The counts of the members, each under its own lock: `loads` are the loads that the locks find in
-- turn, and the first member meets the one at `read`.
unfoldable pub counts : (ℕ → Load) → ℕ → List Str → List ℕ
counts loads read [] = []
counts loads read (agent ∷ pool) = inflight (loads read) agent ∷ counts loads (read + 1) pool

-- The positions of the members whose count, each under its own lock, is the given one.
unfoldable pub positions : (ℕ → Load) → ℕ → ℕ → ℕ → List Str → List ℕ
positions loads read min_load start [] = []
positions loads read min_load start (agent ∷ pool) =
    let rest = positions loads (read + 1) min_load (start + 1) pool in
    if inflight (loads read) agent == min_load then start ∷ rest else rest

pub data Panic : Type 0 where
  remainder_by_zero : Panic
  index_out_of_bounds : Panic

abbrev pick : List Str → List ℕ → ℕ → Result (Option Str) Panic
pick pool candidates position = elim (get_elem? candidates position) [
  | none ↦ err index_out_of_bounds
  | some i ↦ elim (get_elem? pool i) [
    | none ↦ err index_out_of_bounds
    | some agent ↦ ok (some agent)
  ]
]

-- `pool[candidates[index % candidates.len()]]`
unfoldable pub at_index : List Str → ℕ → List ℕ → Result (Option Str) Panic
at_index pool index candidates =
    if is_empty candidates
    then err remainder_by_zero
    else pick pool candidates (index % length candidates)

-- Each count takes the lock for itself, and the lock is free in between: the minimum reads the loads
-- from 0 on, one for each member, and the search for the candidates reads those that follow.
unfoldable pub select_agent_with_capacity : List Str → ℕ → (ℕ → Load) → Result (Option Str) Panic
select_agent_with_capacity pool index loads =
    if is_empty pool
    then ok none
    else at_index pool index
        (positions loads (length pool) (unwrap_or (minimum (counts loads 0 pool)) 0) 0 pool)
