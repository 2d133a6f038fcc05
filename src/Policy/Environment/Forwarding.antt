-- ===== src/Policy/Environment/Forwarding.antt =====
-- Which variables of the inherited environment reach the process.
use agentic_software_factory.Prelude.{
  ◌≡◌, refl, Bool, true, false, ◌||◌, not, Option, none, some, List, [], ◌∷◌, ◌++◌, arith, any, map,
  any-append, any-filter, is_empty, Str, ◌⊎◌, ◌∙◌, ap₂, sym, str_eq, str_eq_iff, if◌then◌else◌, inl,
}
use agentic_software_factory.Policy.Platform.{Platform}
use agentic_software_factory.Policy.Model.{EnvironmentPolicy, PolicyScope, lookup}
use agentic_software_factory.Policy.Commands.{common}
use agentic_software_factory.Policy.Environment.{
  EffectiveEnvironment, Variables, insert, environment_of, resolve, restrict, restrict_by, names,
  kept, casefold, filter_from, environment,
}

lookup-insert :
    (j k v : Str) (m : Variables)
    → lookup j (insert k v m) ≡ (if str_eq k j then some v else lookup j m)
unfolding lookup insert
lookup-insert j k v [] = refl
lookup-insert j k v ((i, w) ∷ m) =
    ground (arith, lookup-insert j k v m, str_eq_iff i k, str_eq_iff i j, str_eq_iff k j)

-- The value that a key has last in a list of settings.
pub last_value : Str → Variables → Option Str
last_value key [] = none
last_value key ((k, v) ∷ m) =
    let later = last_value key m in
    elim later [ some w ↦ some w | none ↦ if str_eq k key then some v else none ]

abbrev or_found : Option Str → Option Str → Option Str
or_found (some w) o = some w
or_found none o = o

lookup-filter_from :
    (pl : Platform) (key : Str) (result : Variables) (allowed denied : List Str)
    (inherited : Variables)
    → lookup key (filter_from pl result allowed denied inherited) ≡ (
        if kept pl allowed denied key
        then or_found (last_value key inherited) (lookup key result)
        else lookup key result)
unfolding filter_from last_value
lookup-filter_from pl key result allowed denied [] = ground arith
lookup-filter_from pl key result allowed denied ((k, v) ∷ m) = ground (
  arith,
  lookup-filter_from pl key (if kept pl allowed denied k then insert k v result else result) allowed
      denied m,
  lookup-insert key k v result,
  str_eq_iff k key,
)

-- The environment that a process gets holds a variable exactly when its key passes the two tests, with
-- the value that the inherited environment gives it last.
pub lookup-environment :
    (pl : Platform) (e : EffectiveEnvironment) (inherited : Variables) (key : Str)
    → lookup key (environment pl e inherited)
      ≡ (if kept pl e.allowed e.denied key then last_value key inherited else none)
unfolding environment lookup
lookup-environment pl e inherited key =
    ground (arith, lookup-filter_from pl key [] e.allowed e.denied inherited)

any-map :
    (p : Str → Bool) (f : Str → Str) (xs : List Str) → any p (map f xs) ≡ any (λ x. p (f x)) xs
any-map p f [] = refl
any-map p f (x ∷ xs) = rw (any-map p f xs)

names-common :
    (pl : Platform) (key : Str) (xs ys : List Str)
    → names pl (common xs ys) key ≡ true
    → names pl xs key ≡ true
unfolding common
names-common pl key xs ys h = rw any-map (any-filter _ _ xs (rw any-map at h))

is_empty-map : (f : Str → Str) (xs : List Str) → is_empty (map f xs) ≡ is_empty xs
is_empty-map f [] = refl
is_empty-map f (x ∷ xs) = refl

names-append :
    (pl : Platform) (key : Str) (xs ys : List Str)
    → names pl (xs ++ ys) key ≡ (names pl xs key || names pl ys key)
names-append pl key xs ys =
    any-map _ _ (xs ++ ys)
    ∙ any-append _ xs ys
    ∙ ap₂ (λ a b. a || b) (sym (any-map _ _ xs)) (sym (any-map _ _ ys))

-- One more layer keeps no variable that was not kept, as long as some variable name is left.
restrict_by_narrows :
    (pl : Platform) (e : EffectiveEnvironment) (environment : Option EnvironmentPolicy) (key : Str)
    → (is_empty (restrict_by e environment).allowed ≡ false) ⊎ (is_empty e.allowed ≡ true)
    → kept pl (restrict_by e environment).allowed (restrict_by e environment).denied key ≡ true
    → kept pl e.allowed e.denied key ≡ true
unfolding kept
restrict_by_narrows pl e none key some_left h = h
restrict_by_narrows pl e (some environment) key some_left h = ground (
  arith,
  names-append pl key e.denied environment.deny,
  names-common pl key e.allowed environment.allow,
  is_empty-map (casefold pl) e.allowed,
  is_empty-map (casefold pl) (common e.allowed environment.allow),
)

-- Where the composed allow list names some variable, a recipe forwards none that the role and the agent
-- do not.
pub kept-restrict :
    (pl : Platform) (role agent restriction : Option PolicyScope) (key : Str)
    → is_empty (restrict (resolve role agent) restriction).allowed ≡ false
    → kept pl
        (restrict (resolve role agent) restriction).allowed
        (restrict (resolve role agent) restriction).denied
        key
      ≡ true
    → kept pl (resolve role agent).allowed (resolve role agent).denied key ≡ true
unfolding restrict
kept-restrict pl role agent restriction key some_left =
    restrict_by_narrows pl (resolve role agent) (environment_of restriction) key (inl some_left)

-- Two allow lists with no entry in common leave the inheritance unfiltered: every variable that neither
-- scope denies reaches the process.
pub disjoint_allow_lists :
    (pl : Platform) (role agent : PolicyScope) (r a : EnvironmentPolicy) (key : Str)
    → role.environment ≡ some r
    → agent.environment ≡ some a
    → is_empty r.allow ≡ false
    → is_empty a.allow ≡ false
    → common r.allow a.allow ≡ []
    → ((resolve (some role) (some agent)).filtered ≡ false)
      × (kept pl
            (resolve (some role) (some agent)).allowed
            (resolve (some role) (some agent)).denied
            key
          ≡ not (names pl (r.deny ++ a.deny) key))
unfolding resolve kept
disjoint_allow_lists pl role agent r a key er ea rn an d = ground arith
