-- ===== src/Policy/Secrets.antt =====
-- crates/factory-policy/src/environment.rs: the secret values, and their redaction.
pub mod Collected
use agentic_software_factory.Prelude.{
  ℕ, zero, suc, ◌+◌, ◌-◌, Bool, true, false, not, ◌&&◌, List, [], ◌∷◌, ◌++◌, leb, ltb,
  if◌then◌else◌, is_empty, length, Str, str, str_eq, contains, starts_with, flat_map,
}
use agentic_software_factory.Policy.Platform.{Platform}
use agentic_software_factory.Policy.Environment.{Variables, names}

-- `Secrets`: the values in the order of their registration.
abbrev pub Secrets : Type 0
Secrets = List Str

-- `Secrets::new`
abbrev pub no_secrets : Secrets
no_secrets = []

-- The bytes that a code point takes in UTF-8.
unfoldable pub utf8_width : ℕ → ℕ
utf8_width c = if ltb c 128 then 1 else if ltb c 2048 then 2 else if ltb c 65536 then 3 else 4

-- `value.len()`, which counts bytes.
unfoldable pub byte_length : Str → ℕ
unfolding utf8_width
byte_length [] = 0
byte_length (c ∷ s) = utf8_width c + byte_length s

-- `Secrets::add`
unfoldable pub add : Str → ℕ → Secrets → Secrets
unfolding byte_length
add value min_chars values =
    if leb min_chars (byte_length value) && not (contains values value)
    then values ++ value ∷ []
    else values

-- `str::replace`: the occurrences are found from the left and do not overlap. The number counts the
-- characters of an occurrence that are still to be dropped.
replace_from : ℕ → Str → Str → Str → Str
replace_from skip p r [] = []
replace_from (suc skip) p r (c ∷ s) = replace_from skip p r s
replace_from zero p r (c ∷ s) =
    let rest = λ (k : ℕ). replace_from k p r s in
    if starts_with p (c ∷ s) then r ++ rest (length p - 1) else c ∷ rest 0

-- An empty pattern occurs before each character, and at the end.
unfoldable pub replace : Str → Str → Str → Str
unfolding replace_from
replace [] r s = r ++ flat_map (λ c. c ∷ r) s
replace (a ∷ p) r s = replace_from 0 (a ∷ p) r s

insert_longest : Str → List Str → List Str
insert_longest value [] = value ∷ []
insert_longest value (w ∷ ws) =
    let rest = insert_longest value ws in
    if leb (byte_length w) (byte_length value) then value ∷ w ∷ ws else w ∷ rest

-- `sort_by_key(|value| Reverse(value.len()))`, which is stable.
pub longest_first : List Str → List Str
unfolding insert_longest
longest_first [] = []
longest_first (value ∷ values) = insert_longest value (longest_first values)

abbrev redact_each : List Str → Str → Str
redact_each [] text = text
redact_each (secret ∷ ordered) text = redact_each ordered (replace secret (str "[REDACTED]") text)

-- `Secrets::redact`
unfoldable pub redact : Secrets → Str → Str
unfolding longest_first
redact values text = if is_empty values then text else redact_each (longest_first values) text

abbrev pub min_secret_chars : ℕ
min_secret_chars = 4

-- The loop of `secrets_from_denied`.
unfoldable pub collect : Platform → Secrets → List Str → Variables → Secrets
unfolding add
collect pl values denied [] = values
collect pl values denied ((key, value) ∷ inherited) =
    collect pl (if names pl denied key then add value min_secret_chars values else values) denied
      inherited

unfoldable pub secrets_from_denied : Platform → Variables → List Str → Secrets
unfolding collect
secrets_from_denied pl inherited denied = collect pl no_secrets denied inherited

abbrev add_all : Secrets → List Str → Secrets
add_all values [] = values
add_all values (secret ∷ secrets) = add_all (add secret min_secret_chars values) secrets

unfoldable pub redact_secrets : Str → List Str → Str
unfolding redact
redact_secrets text secrets = redact (add_all no_secrets secrets) text
