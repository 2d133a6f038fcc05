-- ===== src/Policy/Environment.antt =====
-- crates/factory-policy/src/environment.rs and the environment rules of policy.rs.
pub mod Forwarding
use agentic_software_factory.Prelude.{
  ◌≡◌, Bool, true, false, ◌&&◌, ◌||◌, not, Option, none, some, and_then, List, [], ◌∷◌, ◌++◌,
  if◌then◌else◌, is_empty, any, filter, map, contains, Str, str, str_eq,
}
use agentic_software_factory.Policy.Platform.{Platform}
use agentic_software_factory.Policy.Model.{EnvironmentPolicy, PolicyScope}
use agentic_software_factory.Policy.Commands.{common}

pub record EffectiveEnvironment : Type 0 where
  pub filtered : Bool
  pub allowed : List Str
  pub denied : List Str

abbrev pub Variables : Type 0
Variables = List (Str × Str)

-- `BTreeMap::insert`, at the place where the key stands.
unfoldable pub insert : Str → Str → Variables → Variables
insert key value [] = (key, value) ∷ []
insert key value ((k, v) ∷ m) =
    let rest = insert key value m in if str_eq k key then (key, value) ∷ m else (k, v) ∷ rest

abbrev environment_of : Option PolicyScope → Option EnvironmentPolicy
environment_of scope = and_then scope (λ s. s.environment)

abbrev narrow_allowed : List Str → List Str → List Str
narrow_allowed allowed declared =
    if is_empty declared
    then allowed
    else if is_empty allowed
    then declared
    else common allowed declared

-- What the loop over the scopes carries.
record Round : Type 0 where
  any_restriction : Bool
  allowed : List Str
  denied : List Str

abbrev round : Round → Option EnvironmentPolicy → Round
round r none = r
round r (some environment) = record {
  any_restriction = true;
  allowed = narrow_allowed r.allowed environment.allow;
  denied = r.denied ++ environment.deny;
}

-- `EffectiveEnvironment::resolve`
pub resolve : Option PolicyScope → Option PolicyScope → EffectiveEnvironment
resolve role agent =
    let start : Round = record { any_restriction = false; allowed = []; denied = [] } in
    let r = round (round start (environment_of role)) (environment_of agent) in
    record {
      filtered = r.any_restriction && not (is_empty r.allowed);
      allowed = r.allowed;
      denied = r.denied;
    }

abbrev restrict_by : EffectiveEnvironment → Option EnvironmentPolicy → EffectiveEnvironment
restrict_by e none = e
restrict_by e (some environment) =
    let allowed = narrow_allowed e.allowed environment.allow in
    record {
      filtered = if is_empty environment.allow then e.filtered else not (is_empty allowed);
      allowed = allowed;
      denied = e.denied ++ environment.deny;
    }

-- `EffectiveEnvironment::restrict`
unfoldable pub restrict : EffectiveEnvironment → Option PolicyScope → EffectiveEnvironment
restrict e restriction = restrict_by e (environment_of restriction)

-- `EffectiveEnvironment::mode`
pub mode : EffectiveEnvironment → Str
mode e = if e.filtered then str "filtered" else str "full"

module _ (pl : Platform) where
  -- `casefold`
  unfoldable pub casefold : Str → Str
  casefold value = pl.to_lowercase value

  abbrev pub names : List Str → Str → Bool
  names keys key = contains (map casefold keys) (casefold key)

  -- The two tests of the loop: is the variable kept?
  pub kept : List Str → List Str → Str → Bool
  kept allowed denied key =
      if names denied key then false else is_empty (map casefold allowed) || names allowed key

  filter_from : Variables → List Str → List Str → Variables → Variables
  filter_from result allowed denied [] = result
  filter_from result allowed denied ((key, value) ∷ inherited) =
      filter_from (if kept allowed denied key then insert key value result else result) allowed
        denied inherited

  pub filter_environment : Variables → List Str → List Str → Variables
  filter_environment inherited allowed denied = filter_from [] allowed denied inherited

  pub filter_configured_env : Variables → List Str → Variables
  filter_configured_env configured denied =
      filter (λ (v : Str × Str). not (names denied v.0)) configured

  -- `EffectiveEnvironment::environment`
  pub environment : EffectiveEnvironment → Variables → Variables
  unfolding filter_environment
  environment e inherited = filter_environment inherited e.allowed e.denied

  -- `EffectiveEnvironment::filter_configured`
  pub filter_configured : EffectiveEnvironment → Variables → Variables
  unfolding filter_configured_env
  filter_configured e configured =
      if is_empty e.denied then configured else filter_configured_env configured e.denied
