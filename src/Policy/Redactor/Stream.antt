-- ===== src/Policy/Redactor/Stream.antt =====
-- A stream is redacted as the whole text is, wherever the chunks end.
use agentic_software_factory.Prelude.{
  ℕ, ◌-◌, ◌≤◌, ◌≡◌, ◌≢◌, refl, ap, sym, subst, ◌∙◌, inl, inr, arith, true, false, Option, none,
  some, List, [], ◌∷◌, ◌++◌, ◌==◌, length, length-append, any, any-append, Str, str, starts_with,
  contains, contains_str, Bool-cases, starts_with-rest, starts_with-longer, starts_with-split,
  contains_str-middle,
}
use mathlib.Core.List.{append_assoc, append-nil}
use agentic_software_factory.Policy.Secrets.{byte_length}
use agentic_software_factory.Policy.Redactor.{
  marker, StreamingRedactor, max_hold_bytes, find_match, drop, redact_complete_matches,
  required_hold, push_chunk, finish, stream, prefixed, split_at,
}
use agentic_software_factory.Policy.Redactor.Redacts.{
  Redacts, end, keep, cut, find_match-found, find_match-same, NonEmpty, redact_loop-Redacts,
}
use agentic_software_factory.Policy.Redactor.Hold.{
  holdable, safe_of, tail_of, take-safe_of, drop-tail_of, holdable-prefix, prefix-holdable,
}

-- No secret is empty, holds another, or holds the character that ends the marker; and each is within
-- the bound on what is held.
pub record IsPlain (secrets : List Str) : Type 0 where
  pub nonempty : NonEmpty secrets
  pub apart :
      (s m : Str)
      → contains secrets s ≡ true
      → contains secrets m ≡ true
      → contains_str m s ≡ true
      → m ≡ s
  pub no_bracket : (s : Str) → contains secrets s ≡ true → any (λ a. a == b']') s ≡ false
  pub bounded : (s : Str) → contains secrets s ≡ true → byte_length s ≤ max_hold_bytes

module _ (secrets : List Str) (plain : IsPlain secrets) where
  -- A text without the marker's end was not changed.
  unchanged : {t q : Str} → Redacts secrets t q → any (λ a. a == b']') q ≡ false → t ≡ q
  unfolding marker str
  unchanged end h = refl
  unchanged (keep {c} e r) h = ap (λ s. c ∷ s) (unchanged r (ground (arith, h)))
  unchanged (cut e r) h = absurd (ground (arith, h))

  -- Inside a secret, short of its end, nothing matches.
  no_match :
      (s v t : Str) (x : ℕ) (u m : Str)
      → contains secrets s ≡ true
      → s ≡ v ++ (t ++ x ∷ u)
      → find_match secrets t ≢ some m
  no_match s v t x u m k e found =
      let (own, begins) = find_match-found secrets t m found in
      let (r, split) = starts_with-rest m t begins in
      let whole : s ≡ v ++ (m ++ (r ++ x ∷ u)) =
        e ∙ ap (λ w. v ++ (w ++ x ∷ u)) split ∙ ap (λ w. v ++ w) (append_assoc m r (x ∷ u)) in
      let within =
        subst (λ w. contains_str m w ≡ true) (sym whole) (contains_str-middle v m (r ++ x ∷ u)) in
      let same = plain.apart s m k own within in
      omega (
        arith,
        ap length (same ∙ whole),
        length-append v (m ++ (r ++ x ∷ u)),
        length-append m (r ++ x ∷ u),
        length-append r (x ∷ u),
      )

  inside :
      {t q : Str} (s v : Str) (x : ℕ) (u : Str)
      → contains secrets s ≡ true
      → s ≡ v ++ (t ++ x ∷ u)
      → Redacts secrets t q
      → t ≡ q
  inside s v x u k e end = refl
  inside s v x u k e (keep {c} {s = t} g r) =
      ap (λ w. c ∷ w)
        (inside s (v ++ c ∷ []) x u k (e ∙ sym (append_assoc v (c ∷ []) (t ++ x ∷ u))) r)
  inside s v x u k e (cut {c} {m} {s = t} g r) =
      absurd (no_match s v ((c ∷ m) ++ t) x u (c ∷ m) k e g)

  -- What can be held has no end of a marker.
  held_bracket : (b : Str) → holdable secrets b ≡ true → any (λ a. a == b']') b ≡ false
  held_bracket b h =
      let (s, k, (x, u, e)) = holdable-prefix secrets b h in
      let whole = subst (λ w. any (λ a. a == b']') w ≡ false) e (plain.no_bracket s k) in
      ground (arith, whole, any-append (λ a. a == b']') b (x ∷ u))

  bracketless : (v w : Str) → holdable secrets (v ++ b']' ∷ w) ≡ false
  bracketless v w = elim (Bool-cases (holdable secrets (v ++ b']' ∷ w))) [
    | inl t ↦
        absurd
          (ground (arith, held_bracket (v ++ b']' ∷ w) t, any-append (λ a. a == b']') v (b']' ∷ w)))
    | inr f ↦ f
  ]

  safe_of-bracket : (v r : Str) → safe_of secrets (v ++ b']' ∷ r) ≡ v ++ b']' ∷ safe_of secrets r
  unfolding safe_of
  safe_of-bracket [] r = rw (bracketless [] r) refl
  safe_of-bracket (c ∷ v) r = rw (bracketless (c ∷ v) r) (ap (λ w. c ∷ w) (safe_of-bracket v r))

  tail_of-bracket : (v r : Str) → tail_of secrets (v ++ b']' ∷ r) ≡ tail_of secrets r
  unfolding tail_of
  tail_of-bracket [] r = rw (bracketless [] r) refl
  tail_of-bracket (c ∷ v) r = rw (bracketless (c ∷ v) r) (tail_of-bracket v r)

  safe_of-marker : (r : Str) → safe_of secrets (marker ++ r) ≡ marker ++ safe_of secrets r
  unfolding marker str
  safe_of-marker r = safe_of-bracket (str "[REDACTED") r

  tail_of-marker : (r : Str) → tail_of secrets (marker ++ r) ≡ tail_of secrets r
  unfolding marker str
  tail_of-marker r = tail_of-bracket (str "[REDACTED") r

  -- The same secrets stand at the start of a text and of its continuation, if no secret is longer.
  same_match :
      (t f : Str)
      → ((m : Str) (x : ℕ) (u : Str) → contains secrets m ≡ true → m ≢ t ++ x ∷ u)
      → find_match secrets (t ++ f) ≡ find_match secrets t
  same_match t f none_longer = find_match-same secrets (t ++ f) t (λ m k. one m k)
    where
      one : (m : Str) → contains secrets m ≡ true → starts_with m (t ++ f) ≡ starts_with m t
      one m k = elim (Bool-cases (starts_with m (t ++ f))) [
        | inl b ↦ elim (starts_with-split m t f b) [
          | inl short ↦ b ∙ sym short
          | inr (x, u, e) ↦ absurd (none_longer m x u k e)
        ]
        | inr b ↦ ground (arith, b, starts_with-longer m t f)
      ]

  -- What is returned is settled, and what is held is redacted with what follows.
  cut_off_keep :
      (c : ℕ) (s q f r : Str)
      → find_match secrets (c ∷ s) ≡ none
      → Redacts secrets s q
      → (Redacts secrets (tail_of secrets q ++ f) r
          → Redacts secrets (s ++ f) (safe_of secrets q ++ r))
      → Redacts secrets (tail_of secrets (c ∷ q) ++ f) r
      → Redacts secrets ((c ∷ s) ++ f) (safe_of secrets (c ∷ q) ++ r)
  unfolding safe_of tail_of
  cut_off_keep c s q f r g p rest h = elim (Bool-cases (holdable secrets (c ∷ q))) [
    | inl t ↦
        let same = unchanged (keep g p) (held_bracket (c ∷ q) t) in
        rw t (subst (λ w. Redacts secrets (w ++ f) r) (sym same) (rw t at h))
    | inr n ↦ rw n (keep (same_match (c ∷ s) f (none_longer n) ∙ g) (rest (rw n at h)))
  ]
    where
      none_longer :
          holdable secrets (c ∷ q) ≡ false
          → (m : Str) (x : ℕ) (u : Str) → contains secrets m ≡ true
          → m ≢ (c ∷ s) ++ x ∷ u
      none_longer n m x u k e =
          let same = inside m [] x u k e (keep g p) in
          let own = subst (λ w. contains secrets w ≡ true) e k in
          let held = prefix-holdable secrets c s x u own (plain.bounded ((c ∷ s) ++ x ∷ u) own) in
          absurd (ground (arith, n, subst (λ w. holdable secrets w ≡ true) same held))

  cut_off :
      {t q : Str} (f r : Str)
      → Redacts secrets t q
      → Redacts secrets (tail_of secrets q ++ f) r
      → Redacts secrets (t ++ f) (safe_of secrets q ++ r)
  unfolding safe_of tail_of
  cut_off f r end h = h
  cut_off f r (keep {c} {s} {q} g p) h = cut_off_keep c s q f r g p (cut_off f r p) h
  cut_off f r (cut {c} {m} {s} {q} g p) h =
      let t = (c ∷ m) ++ s in
      let h' = subst (λ w. Redacts secrets (w ++ f) r) (tail_of-marker q) h in
      let found = same_match t f (λ m' x u k e. no_match m' [] t x u (c ∷ m) k e g) ∙ g in
      let assoc = append_assoc (c ∷ m) s f in
      let there = subst (λ w. find_match secrets w ≡ some (c ∷ m)) assoc found in
      let done = cut {m = m} there (cut_off f r p h') in
      subst (λ w. Redacts secrets (t ++ f) (w ++ r)) (sym (safe_of-marker q))
        (subst (Redacts secrets (t ++ f)) (sym (append_assoc marker (safe_of secrets q) r))
          (subst (λ w. Redacts secrets w (marker ++ (safe_of secrets q ++ r))) (sym assoc) done))

-- The whole text of a stream.
abbrev pub concat : List Str → Str
concat [] = []
concat (chunk ∷ chunks) = chunk ++ concat chunks

Redacts-nothing : (t : Str) → Redacts [] t t
unfolding find_match
Redacts-nothing [] = end
Redacts-nothing (c ∷ t) = keep refl (Redacts-nothing t)

-- One pass over a text ends, and redacts it.
complete-Redacts :
    (secrets : List Str) (t : Str)
    → NonEmpty secrets
    → (q : Str) × (redact_complete_matches secrets t ≡ some q) × Redacts secrets t q
unfolding redact_complete_matches
complete-Redacts [] t n = (t, refl, Redacts-nothing t)
complete-Redacts (s ∷ secrets) [] n = ([], refl, end)
complete-Redacts (s ∷ secrets) (c ∷ t) n =
    redact_loop-Redacts (s ∷ secrets) (length (c ∷ t)) (c ∷ t) n (omega arith)

stream_step :
    (r next : StreamingRedactor) (chunk out text : Str) (chunks : List Str)
    → push_chunk r chunk ≡ some (out, next)
    → stream next chunks ≡ some text
    → stream r (chunk ∷ chunks) ≡ some (out ++ text)
unfolding stream
stream_step r next chunk out text chunks e f =
    ap
      (λ o. elim o as (λ o. Option Str) [
        | none ↦ none
        | some pair ↦ prefixed (pair.0) (stream (pair.1) chunks)
      ])
      e
    ∙ ap (prefixed out) f

module _ (m : Str) (rest : List Str) (plain : IsPlain (m ∷ rest)) where
  abbrev held : Str → StreamingRedactor
  held p = record { secrets = m ∷ rest; pending = p }

  -- A stream from what is held on, redacted as one text.
  abbrev Streams : Str → List Str → Type 0
  Streams p chunks =
      (out : Str) × (stream (held p) chunks ≡ some out)
      × Redacts (m ∷ rest) (p ++ concat chunks) out

  push_held :
      (p : Str) (c : ℕ) (s q : Str)
      → redact_complete_matches (m ∷ rest) (p ++ c ∷ s) ≡ some q
      → push_chunk (held p) (c ∷ s) ≡ some (safe_of (m ∷ rest) q, held (tail_of (m ∷ rest) q))
  unfolding push_chunk
  push_held p c s q e =
      let cut = length q - required_hold (m ∷ rest) q in
      ap (split_at (m ∷ rest)) e
      ∙ ap (λ w. some (w, held (drop cut q))) (take-safe_of (m ∷ rest) q)
      ∙ ap (λ w. some (safe_of (m ∷ rest) q, held w)) (drop-tail_of (m ∷ rest) q)

  push-Streams :
      (p : Str) (c : ℕ) (s : Str) (chunks : List Str)
      → ((w : Str) → Streams w chunks)
      → Streams p ((c ∷ s) ∷ chunks)
  push-Streams p c s chunks later =
      let (q, e, r) = complete-Redacts (m ∷ rest) (p ++ c ∷ s) plain.nonempty in
      let (out, f, z) = later (tail_of (m ∷ rest) q) in
      (
        safe_of (m ∷ rest) q ++ out,
        stream_step (held p) (held (tail_of (m ∷ rest) q)) (c ∷ s) (safe_of (m ∷ rest) q) out chunks
            (push_held p c s q e) f,
        subst (λ w. Redacts (m ∷ rest) w (safe_of (m ∷ rest) q ++ out))
            (append_assoc p (c ∷ s) (concat chunks))
            (cut_off (m ∷ rest) plain (concat chunks) out r z),
      )

  some-Streams : (p : Str) (chunks : List Str) → Streams p chunks
  unfolding stream finish push_chunk
  some-Streams p [] =
      let (q, e, r) = complete-Redacts (m ∷ rest) p plain.nonempty in
      (q, e, subst (λ w. Redacts (m ∷ rest) w q) (sym (append-nil p)) r)
  some-Streams p ([] ∷ chunks) =
      let (out, e, r) = some-Streams p chunks in
      (out, stream_step (held p) (held p) [] [] out chunks refl e, r)
  some-Streams p ((c ∷ s) ∷ chunks) = push-Streams p c s chunks (λ w. some-Streams w chunks)

Redacts-prefix : (t : Str) {a b : Str} → Redacts [] a b → Redacts [] (t ++ a) (t ++ b)
unfolding find_match
Redacts-prefix [] r = r
Redacts-prefix (c ∷ t) r = keep refl (Redacts-prefix t r)

none-Streams :
    (chunks : List Str)
    → (out : Str) × (stream (record { secrets = []; pending = [] }) chunks ≡ some out)
      × Redacts [] (concat chunks) out
unfolding stream finish push_chunk redact_complete_matches
none-Streams [] = ([], refl, end)
none-Streams ([] ∷ chunks) =
    let (out, e, r) = none-Streams chunks in
    (
      out,
      stream_step (record { secrets = []; pending = [] }) (record { secrets = []; pending = [] }) []
          [] out chunks refl e,
      r,
    )
none-Streams ((c ∷ s) ∷ chunks) =
    let (out, e, r) = none-Streams chunks in
    (
      (c ∷ s) ++ out,
      stream_step (record { secrets = []; pending = [] }) (record { secrets = []; pending = [] })
          (c ∷ s) (c ∷ s) out chunks refl e,
      Redacts-prefix (c ∷ s) r,
    )

-- If no secret is empty, holds another or holds `]`, and each is within the bound on what is held,
-- then a stream ends, and what it returns in all is the redaction of its whole text: at each place
-- the first secret that stands there is replaced by the marker, else the character is kept. Where the
-- chunks end makes no difference.
pub stream-Redacts :
    (secrets : List Str) (chunks : List Str)
    → IsPlain secrets
    → (out : Str) × (stream (record { secrets = secrets; pending = [] }) chunks ≡ some out)
      × Redacts secrets (concat chunks) out
stream-Redacts [] chunks plain = none-Streams chunks
stream-Redacts (m ∷ rest) chunks plain = some-Streams m rest plain [] chunks
