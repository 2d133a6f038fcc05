-- ===== src/Policy/Redactor.antt =====
-- crates/factory-policy/src/redact.rs: redaction of a stream that arrives in chunks. A place in a text
-- is counted in code points where the source counts bytes; the bound on what is held counts bytes.
pub mod Redacts
pub mod Hold
pub mod Stream
pub mod Hides
use agentic_software_factory.Prelude.{
  ℕ, zero, suc, ◌+◌, ◌-◌, ◌*◌, Bool, true, false, not, ◌&&◌, ◌||◌, Option, none, some, List, [],
  ◌∷◌, ◌++◌, map, leb, ltb, if◌then◌else◌, is_empty, length, Str, str, str_eq, starts_with,
  flat_map,
}
use agentic_software_factory.Policy.Secrets.{Secrets, byte_length, longest_first}

-- `REDACTION_MARKER`
unfoldable pub marker : Str
marker = str "[REDACTED]"

abbrev pub max_hold_bytes : ℕ
max_hold_bytes = 1024 * 1024

pub record StreamingRedactor : Type 0 where
  pub secrets : List Str
  pub pending : Str

-- `Vec::dedup`
unfoldable pub dedup : List Str → List Str
dedup [] = []
dedup (v ∷ []) = v ∷ []
dedup (v ∷ w ∷ ws) = let rest = dedup (w ∷ ws) in if str_eq v w then rest else v ∷ rest

-- `StreamingRedactor::new`
unfoldable pub new : Secrets → StreamingRedactor
unfolding dedup
new values = record { secrets = dedup (longest_first values); pending = [] }

-- `secrets.iter().find(..)`
unfoldable pub find_match : List Str → Str → Option Str
find_match [] rest = none
find_match (s ∷ secrets) rest =
    let later = find_match secrets rest in if starts_with s rest then some s else later

abbrev pub take : ℕ → Str → Str
take zero s = []
take (suc n) [] = []
take (suc n) (c ∷ s) = c ∷ take n s

abbrev pub drop : ℕ → Str → Str
drop zero s = s
drop (suc n) [] = []
drop (suc n) (c ∷ s) = drop n s

abbrev prefixed : Str → Option Str → Option Str
prefixed p none = none
prefixed p (some r) = some (p ++ r)

-- The `while` loop, on fuel: an empty secret would match forever.
unfoldable pub redact_loop : ℕ → List Str → Str → Option Str
unfolding find_match marker
redact_loop fuel secrets [] = some []
redact_loop zero secrets (c ∷ rest) = none
redact_loop (suc fuel) secrets (c ∷ rest) = elim (find_match secrets (c ∷ rest)) [
  | none ↦ prefixed (c ∷ []) (redact_loop fuel secrets rest)
  | some s ↦ prefixed marker (redact_loop fuel secrets (drop (length s) (c ∷ rest)))
]

unfoldable pub redact_complete_matches : List Str → Str → Option Str
unfolding redact_loop
redact_complete_matches secrets pending =
    if is_empty secrets || is_empty pending
    then some pending
    else redact_loop (length pending) secrets pending

-- The prefixes that end at a character start other than the first.
abbrev pub proper_prefixes : Str → List Str
proper_prefixes [] = []
proper_prefixes (c ∷ []) = []
proper_prefixes (c ∷ d ∷ s) = (c ∷ []) ∷ map (λ p. c ∷ p) (proper_prefixes (d ∷ s))

abbrev pub candidates : List Str → List Str
candidates secrets = flat_map (λ s. if ltb (byte_length s) 2 then [] else proper_prefixes s) secrets

unfoldable pub ends_with : Str → Str → Bool
ends_with [] p = str_eq [] p
ends_with (c ∷ q) p = str_eq (c ∷ q) p || ends_with q p

abbrev pub maximum : ℕ → ℕ → ℕ
maximum a b = if leb a b then b else a

-- The two nested loops run over all the candidates.
unfoldable pub hold_over : List Str → Str → ℕ
unfolding ends_with
hold_over [] pending = 0
hold_over (p ∷ ps) pending =
    let hold = hold_over ps pending in
    if ltb (byte_length pending) (byte_length p) || ltb max_hold_bytes (byte_length p)
    then hold
    else if ends_with pending p
    then maximum (length p) hold
    else hold

unfoldable pub required_hold : List Str → Str → ℕ
unfolding hold_over
required_hold secrets pending = hold_over (candidates secrets) pending

-- `push_chunk`; the text that is returned comes first.
abbrev split_at : List Str → Option Str → Option (Str × StreamingRedactor)
split_at secrets none = none
split_at secrets (some pending) =
    let cut = length pending - required_hold secrets pending in
    some (take cut pending, record { secrets = secrets; pending = drop cut pending })

unfoldable pub push_chunk : StreamingRedactor → Str → Option (Str × StreamingRedactor)
unfolding redact_complete_matches required_hold
push_chunk r chunk =
    if is_empty chunk
    then some ([], r)
    else if is_empty r.secrets
    then some (chunk, r)
    else split_at r.secrets (redact_complete_matches r.secrets (r.pending ++ chunk))

unfoldable pub finish : StreamingRedactor → Option Str
unfolding redact_complete_matches
finish r = redact_complete_matches r.secrets r.pending

-- A whole stream: what the chunks return one after another, and what is left at the end.
unfoldable pub stream : StreamingRedactor → List Str → Option Str
unfolding push_chunk finish
stream r [] = finish r
stream r (chunk ∷ chunks) = elim (push_chunk r chunk) [
  | none ↦ none
  | some (out, next) ↦ prefixed out (stream next chunks)
]
