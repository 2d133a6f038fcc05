-- ===== src/Capacity/Slots.antt =====
-- The slots that are held, and the counts.
use agentic_software_factory.Prelude.{
  ℕ, suc, ◌+◌, ◌-◌, ◌≤◌, ◌<◌, ◌≡◌, refl, ◌∙◌, ap, subst, some, List, [], ◌∷◌, ◌++◌, arith, inl, inr,
  if◌then◌else◌, Bool-cases, Str, str_eq, str_eq→eq, str_eq_iff, str_eq_refl,
}
use agentic_software_factory.Capacity.{
  Load, u64_max, new, update, inflight, saturating_add, acquire, try_acquire, release,
}

inflight-update :
    (a b : Str) (f : ℕ → ℕ) (load : Load)
    → inflight (update a f load) b ≡ (if str_eq a b then f (inflight load a) else inflight load b)
unfolding inflight update
inflight-update a b f [] = ground arith
inflight-update a b f ((name, count) ∷ load) =
    ground (arith, inflight-update a b f load, str_eq_iff name a, str_eq_iff name b, str_eq_iff a b)

plus_one : (n : ℕ) → n < u64_max → saturating_add n 1 ≡ n + 1
unfolding saturating_add
plus_one n h = ground arith

inflight-acquire :
    (a b : Str) (load : Load)
    → inflight (acquire a load) b
      ≡ (if str_eq a b then saturating_add (inflight load a) 1 else inflight load b)
unfolding acquire
inflight-acquire a b load = inflight-update a b (λ count. saturating_add count 1) load

inflight-release :
    (a b : Str) (load : Load)
    → inflight (release a load) b ≡ (if str_eq a b then inflight load a - 1 else inflight load b)
unfolding release
inflight-release a b load = inflight-update a b (λ count. count - 1) load

reserved :
    (a : Str) (limit : ℕ) (load load' : Load)
    → try_acquire a limit load ≡ some load'
    → (inflight load a < limit) × (update a (λ count. count + 1) load ≡ load')
unfolding try_acquire
reserved a limit load load' h = (ground arith, ground arith)

-- A slot that is taken and returned leaves every count as it was, below the greatest `u64`.
pub release-acquire :
    (a b : Str) (load : Load)
    → inflight load a < u64_max
    → inflight (release a (acquire a load)) b ≡ inflight load b
release-acquire a b load h = ground (
  arith,
  inflight-release a b (acquire a load),
  inflight-acquire a b load,
  inflight-acquire a a load,
  str_eq_refl a,
  str_eq→eq a b,
  plus_one (inflight load a) h,
)

-- How many of the guards are the agent's.
pub held : Str → List Str → ℕ
held agent [] = 0
held agent (g ∷ guards) = let rest = held agent guards in if str_eq g agent then suc rest else rest

pub record Slots : Type 0 where
  pub load : Load
  pub guards : List Str

-- What the concurrent dispatches do, one atomic step after another: they reserve a slot within the
-- agent's limit, or drop a guard that they hold. `acquire`, which knows no limit, is not among the
-- steps.
pub data Step (limit : Str → ℕ) (s : Slots) : Slots → Type 0 where
  reserve :
      (agent : Str) (load : Load)
      → try_acquire agent (limit agent) s.load ≡ some load
      → Step limit s (record { load = load; guards = agent ∷ s.guards })
  finish :
      (agent : Str) (before after : List Str)
      → s.guards ≡ before ++ agent ∷ after
      → Step limit s (record { load = release agent s.load; guards = before ++ after })

pub data Reach (limit : Str → ℕ) : Slots → Type 0 where
  start : Reach limit (record { load = new; guards = [] })
  next : {s t : Slots} → Reach limit s → Step limit s t → Reach limit t

-- The count of each agent is the number of its guards, within its limit.
pub record IsExact (limit : Str → ℕ) (s : Slots) : Type 0 where
  pub exact : (agent : Str) → inflight s.load agent ≡ held agent s.guards
  pub within : (agent : Str) → held agent s.guards ≤ limit agent

held-append :
    (a : Str) (before after : List Str) → held a (before ++ after) ≡ held a before + held a after
unfolding held
held-append a [] after = omega arith
held-append a (g ∷ before) after = ground (arith, held-append a before after)

held-cons :
    (a g : Str) (guards : List Str)
    → held a (g ∷ guards) ≡ (if str_eq g a then held a guards + 1 else held a guards)
unfolding held
held-cons a g guards = ground arith

module _ (limit : Str → ℕ) where
  reserve-IsExact :
      (agent : Str) (s : Slots) (load : Load)
      → try_acquire agent (limit agent) s.load ≡ some load
      → IsExact limit s
      → IsExact limit (record { load = load; guards = agent ∷ s.guards })
  reserve-IsExact agent s load e x = record { exact = count; within = bound }
    where
      count : (a : Str) → inflight load a ≡ held a (agent ∷ s.guards)
      count a =
          subst (λ l. inflight l a ≡ held a (agent ∷ s.guards))
            ((reserved agent (limit agent) s.load load e).1)
            (ground (
              arith,
              inflight-update agent a (λ c. c + 1) s.load,
              held-cons a agent s.guards,
              x.exact a,
              x.exact agent,
              str_eq→eq agent a,
            ))

      below : held agent s.guards < limit agent
      below =
          subst (λ n. n < limit agent) (x.exact agent)
            ((reserved agent (limit agent) s.load load e).0)

      bound : (a : Str) → held a (agent ∷ s.guards) ≤ limit a
      bound a = elim (Bool-cases (str_eq agent a)) [
        | inl t ↦
            subst (λ b. held b (agent ∷ s.guards) ≤ limit b) (str_eq→eq agent a t)
              (ground (arith, held-cons agent agent s.guards, str_eq_refl agent, below))
        | inr f ↦ ground (arith, held-cons a agent s.guards, x.within a)
      ]

  finish-IsExact :
      (agent : Str) (s : Slots) (before after : List Str)
      → s.guards ≡ before ++ agent ∷ after
      → IsExact limit s
      → IsExact limit (record { load = release agent s.load; guards = before ++ after })
  finish-IsExact agent s before after e x = record { exact = count; within = bound }
    where
      split : (a : Str) → held a s.guards ≡ held a before + held a (agent ∷ after)
      split a = ap (held a) e ∙ held-append a before (agent ∷ after)

      count : (a : Str) → inflight (release agent s.load) a ≡ held a (before ++ after)
      count a = ground (
        arith,
        inflight-release agent a s.load,
        held-append a before after,
        split a,
        split agent,
        held-cons a agent after,
        held-cons agent agent after,
        str_eq_refl agent,
        x.exact a,
        x.exact agent,
        str_eq→eq agent a,
      )

      bound : (a : Str) → held a (before ++ after) ≤ limit a
      bound a =
          ground (arith, held-append a before after, split a, held-cons a agent after, x.within a)

  Step-IsExact : {s t : Slots} → Step limit s t → IsExact limit s → IsExact limit t
  Step-IsExact {s} (reserve agent load e) x = reserve-IsExact agent s load e x
  Step-IsExact {s} (finish agent before after e) x = finish-IsExact agent s before after e x

  IsExact-start : IsExact limit (record { load = new; guards = [] })
  unfolding inflight held
  IsExact-start = record { exact = λ a. refl; within = λ a. omega arith }

  -- However the reservations and the drops of guards interleave, the count of each agent is the
  -- number of guards held for it, and is at most the agent's limit.
  pub Reach-IsExact : {s : Slots} → Reach limit s → IsExact limit s
  Reach-IsExact start = IsExact-start
  Reach-IsExact (next r st) = Step-IsExact st (Reach-IsExact r)
