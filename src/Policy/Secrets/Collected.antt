-- ===== src/Policy/Secrets/Collected.antt =====
-- Which values count as secret, and what redaction leaves alone.
use agentic_software_factory.Prelude.{
  ℕ, ◌≡◌, refl, ◌∙◌, ap, arith, Bool, true, false, not, ◌&&◌, ◌||◌, List, [], ◌∷◌, ◌++◌, leb,
  if◌then◌else◌, any, any-append, Str, str, str_eq, str_eq_iff, str_eq→eq, contains, zero,
  contains_str, starts_with, strip_prefix, All, Bool-cases, subst, inl, inr,
}
use agentic_software_factory.Policy.Platform.{Platform}
use agentic_software_factory.Policy.Environment.{Variables, names}
use agentic_software_factory.Policy.Secrets.{
  Secrets, byte_length, add, replace, replace_from, longest_first, insert_longest, redact_each,
  redact, collect, secrets_from_denied,
}

contains-append :
    (xs ys : List Str) (v : Str) → contains (xs ++ ys) v ≡ (contains xs v || contains ys v)
contains-append xs ys v = any-append (λ t. str_eq t v) xs ys

contains-add :
    (value v : Str) (values : Secrets)
    → contains (add value 4 values) v
      ≡ (contains values v || (leb 4 (byte_length v) && str_eq value v))
unfolding add
contains-add value v values = elim (Bool-cases (str_eq value v)) [
  | inl t ↦
      subst
        (λ w.
          contains
            (if leb 4 (byte_length value) && not (contains values value)
              then values ++ value ∷ []
              else values)
            w
          ≡ (contains values w || (leb 4 (byte_length w) && str_eq value w)))
        (str_eq→eq value v t)
        (ground (arith, contains-append values (value ∷ []) value, str_eq_iff value value))
  | inr f ↦ ground (arith, contains-append values (value ∷ []) v, f)
]

-- The value belongs to some denied variable.
abbrev pub is_denied_value : Platform → List Str → Variables → Str → Bool
is_denied_value pl denied inherited v =
    any (λ (kv : Str × Str). names pl denied kv.0 && str_eq kv.1 v) inherited

contains-collect :
    (pl : Platform) (values : Secrets) (denied : List Str) (inherited : Variables) (v : Str)
    → contains (collect pl values denied inherited) v
      ≡ (contains values v || (leb 4 (byte_length v) && is_denied_value pl denied inherited v))
unfolding collect
contains-collect pl values denied [] v = ground arith
contains-collect pl values denied ((key, value) ∷ inherited) v = ground (
  arith,
  contains-collect pl values denied inherited v,
  contains-collect pl (add value 4 values) denied inherited v,
  contains-add value v values,
)

-- The secrets are exactly the values of four bytes or more that some denied variable has.
pub secrets_from_denied_lem :
    (pl : Platform) (inherited : Variables) (denied : List Str) (v : Str)
    → contains (secrets_from_denied pl inherited denied) v
      ≡ (leb 4 (byte_length v) && is_denied_value pl denied inherited v)
unfolding secrets_from_denied
secrets_from_denied_lem pl inherited denied v = contains-collect pl [] denied inherited v

replace_from-absent :
    (a : ℕ) (p r s : Str) → contains_str (a ∷ p) s ≡ false → replace_from zero (a ∷ p) r s ≡ s
unfolding replace_from contains_str
replace_from-absent a p r [] h = refl
replace_from-absent a p r (c ∷ s) h = ground (arith, h, replace_from-absent a p r s)

everywhere : (s : Str) → ¬ (contains_str [] s ≡ false)
unfolding contains_str starts_with strip_prefix
everywhere [] e = ground (arith, e)
everywhere (c ∷ s) e = ground (arith, e)

replace-absent : (p r s : Str) → contains_str p s ≡ false → replace p r s ≡ s
unfolding replace
replace-absent [] r s h = absurd (everywhere s h)
replace-absent (a ∷ p) r s h = replace_from-absent a p r s h

-- No value of the list occurs in the text.
abbrev pub NoneIn : Str → List Str → Type 0
NoneIn text values = All (λ s. contains_str s text ≡ false) values

NoneIn-if :
    (text : Str) (b : Bool) (value w : Str) (ws rest : List Str)
    → contains_str value text ≡ false
    → NoneIn text (w ∷ ws)
    → NoneIn text rest
    → NoneIn text (if b then value ∷ w ∷ ws else w ∷ rest)
NoneIn-if text true value w ws rest h a k = (h, a)
NoneIn-if text false value w ws rest h a k = (a.0, k)

NoneIn-insert_longest :
    (text value : Str) (ws : List Str)
    → contains_str value text ≡ false
    → NoneIn text ws
    → NoneIn text (insert_longest value ws)
unfolding insert_longest
NoneIn-insert_longest text value [] h a = (h, tt)
NoneIn-insert_longest text value (w ∷ ws) h a =
    NoneIn-if text (leb (byte_length w) (byte_length value)) value w ws (insert_longest value ws) h
      a (NoneIn-insert_longest text value ws h (a.1))

NoneIn-longest_first :
    (text : Str) (values : List Str) → NoneIn text values → NoneIn text (longest_first values)
unfolding longest_first
NoneIn-longest_first text [] a = tt
NoneIn-longest_first text (value ∷ values) (h, a) =
    NoneIn-insert_longest text value (longest_first values) h (NoneIn-longest_first text values a)

redact_each-absent :
    (text : Str) (ordered : List Str) → NoneIn text ordered → redact_each ordered text ≡ text
redact_each-absent text [] a = refl
redact_each-absent text (secret ∷ ordered) (h, a) =
    ap (redact_each ordered) (replace-absent secret (str "[REDACTED]") text h)
    ∙ redact_each-absent text ordered a

-- A text in which no secret occurs is left as it is.
redact-absent :
    (values : Secrets) (text : Str)
    → All (λ s. contains_str s text ≡ false) values
    → redact values text ≡ text
unfolding redact
redact-absent [] text a = refl
redact-absent (value ∷ values) text a =
    redact_each-absent text (longest_first (value ∷ values))
      (NoneIn-longest_first text (value ∷ values) a)
