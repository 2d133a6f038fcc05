-- ===== src/Policy/Commands/Narrowing.antt =====
-- What a composed command policy allows.
use agentic_software_factory.Prelude.{
  ◌≡◌, refl, Bool, true, false, ◌&&◌, ◌||◌, not, Option, none, some, List, [], ◌∷◌, ◌++◌, arith,
  any-append, any-filter, is_empty, Str, subst, sym,
}
use agentic_software_factory.Policy.Platform.{Platform}
use agentic_software_factory.Policy.Model.{
  CommandsMode, unrestricted, restricted, denied, CommandsPolicy, PolicyScope,
}
use agentic_software_factory.Policy.Commands.{
  EffectiveCommands, is_restricted, is_unrestricted, commands_of, common, with_scope, closed,
  default_commands, resolve, restrict, restrict_by, is_dangerous_git_invocation, names, allowed,
  violations,
}

-- A restricted policy allows something.
abbrev IsClosed : EffectiveCommands → Type 0
IsClosed c = (is_restricted c.mode && is_empty c.allow) ≡ false

closed-IsClosed :
    (mode : CommandsMode) (allow deny : List Str)
    → IsClosed (closed (record { mode = mode; allow = allow; deny = deny }))
closed-IsClosed unrestricted allow deny = refl
closed-IsClosed restricted [] deny = refl
closed-IsClosed restricted (a ∷ allow) deny = refl
closed-IsClosed denied allow deny = refl

module _ (pl : Platform) (command : Str) where
  names-append :
      (xs ys : List Str)
      → names pl command (xs ++ ys) ≡ (names pl command xs || names pl command ys)
  names-append xs ys = any-append _ xs ys

  names-common :
      (xs ys : List Str) → names pl command (common xs ys) ≡ true → names pl command xs ≡ true
  unfolding common
  names-common xs ys = any-filter _ _ xs

  -- One more scope allows no command that a closed policy does not.
  with_scope_narrows :
      (mode : CommandsMode) (allow deny : List Str) (commands : CommandsPolicy)
      → (is_restricted mode && is_empty allow) ≡ false
      → allowed pl
          (closed (with_scope (record { mode = mode; allow = allow; deny = deny }) (some commands)))
          command
        ≡ true
      → allowed pl (record { mode = mode; allow = allow; deny = deny }) command ≡ true
  unfolding allowed
  with_scope_narrows unrestricted allow deny commands c h =
      ground (arith, names-append deny commands.deny)
  with_scope_narrows restricted allow deny commands c h =
      ground (arith, names-append deny commands.deny, names-common allow commands.allow)
  with_scope_narrows denied allow deny commands c h = ground arith

  restrict_by_narrows :
      (c : EffectiveCommands) (commands : Option CommandsPolicy)
      → IsClosed c
      → allowed pl (restrict_by c commands) command ≡ true
      → allowed pl c command ≡ true
  restrict_by_narrows c none k h = h
  restrict_by_narrows c (some commands) k h = with_scope_narrows c.mode c.allow c.deny commands k h

-- A recipe allows no command that the role and the agent do not.
pub commands_narrow :
    (pl : Platform) (role agent restriction : Option PolicyScope) (command : Str)
    → allowed pl (restrict (resolve role agent) restriction) command ≡ true
    → allowed pl (resolve role agent) command ≡ true
unfolding restrict resolve
commands_narrow pl role agent restriction command =
    let c = with_scope (with_scope default_commands (commands_of role)) (commands_of agent) in
    restrict_by_narrows pl command (resolve role agent) (commands_of restriction)
      (closed-IsClosed c.mode c.allow c.deny)

-- The declaration is restricted and lists no command.
abbrev pub lists_nothing : Option CommandsPolicy → Bool
lists_nothing none = false
lists_nothing (some c) = is_restricted c.mode && is_empty c.allow

after_role :
    (commands : Option CommandsPolicy)
    → lists_nothing commands ≡ false
    → IsClosed (with_scope default_commands commands)
after_role none h = refl
after_role (some c) h = ground arith

closed_self : (c : EffectiveCommands) → IsClosed c → closed c ≡ c
closed_self c h = ground arith

closed_narrows :
    (pl : Platform) (command : Str) (c : EffectiveCommands) (commands : Option CommandsPolicy)
    → IsClosed c
    → allowed pl (closed (with_scope c commands)) command ≡ true
    → allowed pl (closed c) command ≡ true
closed_narrows pl command c none k h = h
closed_narrows pl command c (some commands) k h =
    subst (λ d. allowed pl d command ≡ true) (sym (closed_self c k))
      (with_scope_narrows pl command c.mode c.allow c.deny commands k h)

-- An agent allows no command that the role does not, provided that the role is not restricted to an
-- empty list.
pub agent_narrows_commands :
    (pl : Platform) (role agent : Option PolicyScope) (command : Str)
    → lists_nothing (commands_of role) ≡ false
    → allowed pl (resolve role agent) command ≡ true
    → allowed pl (resolve role none) command ≡ true
unfolding resolve
agent_narrows_commands pl role agent command e =
    closed_narrows pl command (with_scope default_commands (commands_of role)) (commands_of agent)
      (after_role (commands_of role) e)

abbrev compose : Option CommandsPolicy → Option CommandsPolicy → EffectiveCommands
compose role agent = closed (with_scope (with_scope default_commands role) agent)

widened :
    (pl : Platform) (c a : CommandsPolicy) (command : Str)
    → lists_nothing (some c) ≡ true
    → (is_restricted a.mode && not (is_empty a.allow)) ≡ true
    → names pl command (c.deny ++ a.deny) ≡ false
    → is_dangerous_git_invocation pl command ≡ false
    → names pl command a.allow ≡ true
    → (allowed pl (compose (some c) none) command ≡ false)
      × (allowed pl (compose (some c) (some a)) command ≡ true)
unfolding allowed
widened pl c a command l r d g n = ground arith

-- A role that is restricted to an empty list allows nothing, but an agent that is restricted to a list
-- of its own is allowed the commands of that list, those that are denied or dangerous aside.
pub agent_widens :
    (pl : Platform) (role agent : PolicyScope) (c a : CommandsPolicy) (command : Str)
    → role.commands ≡ some c
    → agent.commands ≡ some a
    → lists_nothing (some c) ≡ true
    → (is_restricted a.mode && not (is_empty a.allow)) ≡ true
    → names pl command (c.deny ++ a.deny) ≡ false
    → is_dangerous_git_invocation pl command ≡ false
    → names pl command a.allow ≡ true
    → (allowed pl (resolve (some role) none) command ≡ false)
      × (allowed pl (resolve (some role) (some agent)) command ≡ true)
unfolding resolve
agent_widens pl role agent c a command er ea l r d g n =
    subst
      (λ o.
        (allowed pl (compose o none) command ≡ false)
        × (allowed pl (compose o agent.commands) command ≡ true))
      (sym er)
      (subst
        (λ o.
          (allowed pl (compose (some c) none) command ≡ false)
          × (allowed pl (compose (some c) o) command ≡ true))
        (sym ea) (widened pl c a command l r d g n))

module _ (pl : Platform) (command : Str) where
  still_denied :
      (c : EffectiveCommands) (commands : Option CommandsPolicy)
      → names pl command c.deny ≡ true
      → names pl command (with_scope c commands).deny ≡ true
  still_denied c none h = h
  still_denied c (some commands) h = ground (arith, names-append pl command c.deny commands.deny)

  closed_denied :
      (c : EffectiveCommands)
      → names pl command c.deny ≡ true
      → allowed pl (closed c) command ≡ false
  unfolding allowed
  closed_denied c h = rw h

  denied_by_recipe :
      (c : EffectiveCommands) (commands : Option CommandsPolicy)
      → names pl command c.deny ≡ true
      → allowed pl (restrict_by (closed c) commands) command ≡ false
  denied_by_recipe c none h = closed_denied c h
  denied_by_recipe c (some commands) h =
      closed_denied (with_scope (closed c) (some commands))
        (still_denied (closed c) (some commands) h)

-- A command that the role's deny list names is refused, whatever the agent and the recipe declare.
pub role_deny_wins :
    (pl : Platform) (role : PolicyScope) (agent restriction : Option PolicyScope)
    (c : CommandsPolicy) (command : Str)
    → role.commands ≡ some c
    → names pl command c.deny ≡ true
    → allowed pl (restrict (resolve (some role) agent) restriction) command ≡ false
unfolding resolve restrict
role_deny_wins pl role agent restriction c command e h =
    subst
      (λ o.
        allowed pl
          (restrict_by (closed (with_scope (with_scope default_commands o) (commands_of agent)))
            (commands_of restriction))
          command
        ≡ false)
      (sym e)
      (denied_by_recipe pl command
        (with_scope (with_scope default_commands (some c)) (commands_of agent))
        (commands_of restriction)
        (still_denied pl command (with_scope default_commands (some c)) (commands_of agent) h))

-- A policy that is restricted or denied refuses every dangerous Git invocation, and one that is
-- unrestricted refuses only what it denies by name.
pub allowed_by_mode :
    (pl : Platform) (c : EffectiveCommands) (command : Str)
    → (is_unrestricted c.mode ≡ false
        → is_dangerous_git_invocation pl command ≡ true
        → allowed pl c command ≡ false)
      × (is_unrestricted c.mode ≡ true → allowed pl c command ≡ not (names pl command c.deny))
unfolding allowed
allowed_by_mode pl c command = (λ m d. ground arith, λ m. ground arith)

-- In the unrestricted mode no reported command is a violation, also none that is denied by name.
violations_unrestricted :
    (pl : Platform) (c : EffectiveCommands) (command : Str) (commands : List Str)
    → is_unrestricted c.mode ≡ true
    → names pl command c.deny ≡ true
    → (allowed pl c command ≡ false) × (violations pl c (command ∷ commands) ≡ [])
unfolding allowed violations
violations_unrestricted pl c command commands m d = ground arith
