-- ===== src/Tests/Logs.antt =====
-- Secret values in logs (crates/factory-policy/src/environment.rs).
use agentic_software_factory.Prelude.{
  ◌≡◌, refl, false, ◌&&◌, [], ◌∷◌, leb, str, contains, contains_str, starts_with, strip_prefix,
}
use native.Mathlib.Omega.{arith}
use agentic_software_factory.Prelude.{
  ◌≤◌, sym, subst, ◌∙◌, true, any, is_empty, some, Str, str_eq, str_eq→eq, ◌==◌,
}
use agentic_software_factory.Policy.Redactor.{
  stream, push_chunk, finish, redact_complete_matches, redact_loop, find_match, marker,
  required_hold, max_hold_bytes,
}
use agentic_software_factory.Policy.Redactor.Redacts.{Redacts}
use agentic_software_factory.Policy.Redactor.Stream.{IsPlain, concat, stream-Redacts}
use agentic_software_factory.Policy.Redactor.Hides.{IsUnlike, stream-hides}
use agentic_software_factory.Prelude.{contains_str}
use agentic_software_factory.Policy.Platform.{unix}
use agentic_software_factory.Policy.Secrets.{byte_length, replace, secrets_from_denied}
use agentic_software_factory.Policy.Secrets.Collected.{is_denied_value, secrets_from_denied_lem}

secrets_from_denied_lem_example :
    contains
      (secrets_from_denied unix ((str "TOKEN", str "hunter2") ∷ []) (str "token" ∷ []))
      (str "hunter2")
    ≡ (leb 4 (byte_length (str "hunter2"))
        && is_denied_value unix
            (str "token" ∷ [])
            ((str "TOKEN", str "hunter2") ∷ [])
            (str "hunter2"))
secrets_from_denied_lem_example =
    secrets_from_denied_lem unix ((str "TOKEN", str "hunter2") ∷ []) (str "token" ∷ [])
      (str "hunter2")

replaced : replace (str "hunter2") (str "[REDACTED]") (str "a hunter2 b") ≡ str "a [REDACTED] b"
unfolding replace str starts_with strip_prefix
replaced = refl

abbrev hunter : Str
hunter = str "hunter2"

only : (s : Str) → contains (hunter ∷ []) s ≡ true → hunter ≡ s
only s h = str_eq→eq hunter s (ground (arith, h))

hunter-IsPlain : IsPlain (hunter ∷ [])
unfolding byte_length str
hunter-IsPlain = record {
  nonempty = λ m k. subst (λ s. is_empty s ≡ false) (only m k) refl;
  apart = λ s m k l h. sym (only m l) ∙ only s k;
  no_bracket = λ s k. subst (λ s. any (λ a. a == b']') s ≡ false) (only s k) refl;
  bounded = λ s k. subst (λ s. byte_length s ≤ max_hold_bytes) (only s k) (omega arith);
}

stream-Redacts_example :
    (out : Str) × (stream
        (record { secrets = hunter ∷ []; pending = [] })
        (str "key hun" ∷ str "ter2!" ∷ [])
      ≡ some out)
    × Redacts (hunter ∷ []) (concat (str "key hun" ∷ str "ter2!" ∷ [])) out
stream-Redacts_example =
    stream-Redacts (hunter ∷ []) (str "key hun" ∷ str "ter2!" ∷ []) hunter-IsPlain

streamed :
    stream (record { secrets = hunter ∷ []; pending = [] }) (str "key hun" ∷ str "ter2!" ∷ [])
    ≡ some (str "key [REDACTED]!")
unfolding stream push_chunk finish redact_complete_matches redact_loop find_match marker
    required_hold str str_eq starts_with strip_prefix byte_length
streamed = refl

-- A secret that begins another hides where the longer one goes on.
leaked :
    stream
      (record { secrets = str "password123" ∷ str "pass" ∷ []; pending = [] })
      (str "pass" ∷ str "word123" ∷ [])
    ≡ some (str "[REDACTED]word123")
unfolding stream push_chunk finish redact_complete_matches redact_loop find_match marker
    required_hold str str_eq starts_with strip_prefix byte_length
leaked = refl

hunter-IsUnlike : IsUnlike hunter
unfolding contains_str starts_with strip_prefix str
hunter-IsUnlike = record { full = refl; no_open = refl; no_close = refl; no_word = refl }

stream-hides_example :
    (out : Str) × (stream
        (record { secrets = hunter ∷ []; pending = [] })
        (str "key hun" ∷ str "ter2!" ∷ [])
      ≡ some out)
    × ((s : Str) → contains (hunter ∷ []) s ≡ true → contains_str s out ≡ false)
stream-hides_example =
    stream-hides (hunter ∷ []) (str "key hun" ∷ str "ter2!" ∷ []) hunter-IsPlain
      (λ s k. subst IsUnlike (only s k) hunter-IsUnlike)
