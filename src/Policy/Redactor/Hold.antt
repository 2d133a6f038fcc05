-- ===== src/Policy/Redactor/Hold.antt =====
-- What a redactor holds back: the longest suffix of the text that is a proper prefix of a secret.
use agentic_software_factory.Prelude.{
  ℕ, zero, suc, ◌+◌, ◌-◌, ◌≤◌, ◌<◌, ◌≡◌, refl, ap, sym, subst, ◌∙◌, inl, inr, arith, Bool, true,
  false, List, [], ◌∷◌, ◌++◌, length, any, any-append, Str, str_eq, contains, Bool-cases, ◌||◌,
  ◌&&◌, leb, ltb, map, if◌then◌else◌, str_eq_refl, str_eq→eq,
}
use agentic_software_factory.Policy.Secrets.{byte_length, utf8_width}
use agentic_software_factory.Policy.Redactor.{
  max_hold_bytes, proper_prefixes, candidates, ends_with, maximum, hold_over, required_hold, take,
  drop,
}

-- The text is a candidate, within the bound.
abbrev pub listed : List Str → Str → Bool
listed ps b = any (λ p. str_eq b p && leb (byte_length p) max_hold_bytes) ps

byte_length-suffix : (q p : Str) → ends_with q p ≡ true → byte_length p ≤ byte_length q
unfolding ends_with byte_length
byte_length-suffix [] p h = subst (λ x. byte_length x ≤ 0) (str_eq→eq [] p h) (omega arith)
byte_length-suffix (c ∷ q) p h = elim (Bool-cases (str_eq (c ∷ q) p)) [
  | inl t ↦
      subst (λ x. byte_length x ≤ utf8_width c + byte_length q) (str_eq→eq (c ∷ q) p t)
        (omega arith)
  | inr f ↦ omega (arith, byte_length-suffix q p (ground (arith, h, f)))
]

length-suffix : (q p : Str) → ends_with q p ≡ true → length p ≤ length q
unfolding ends_with
length-suffix [] p h = subst (λ x. length x ≤ 0) (str_eq→eq [] p h) (omega arith)
length-suffix (c ∷ q) p h = elim (Bool-cases (str_eq (c ∷ q) p)) [
  | inl t ↦ subst (λ x. length x ≤ suc (length q)) (str_eq→eq (c ∷ q) p t) (omega arith)
  | inr f ↦ omega (arith, length-suffix q p (ground (arith, h, f)))
]

-- The first test of the loop adds nothing to the third.
hold_over-cons :
    (p : Str) (ps : List Str) (q : Str)
    → hold_over (p ∷ ps) q ≡ (
        if ends_with q p && leb (byte_length p) max_hold_bytes
        then maximum (length p) (hold_over ps q)
        else hold_over ps q)
unfolding hold_over
hold_over-cons p ps q = ground (arith, byte_length-suffix q p)

hold_over-bound : (ps : List Str) (q : Str) → hold_over ps q ≤ length q
unfolding hold_over
hold_over-bound [] q = omega arith
hold_over-bound (p ∷ ps) q = ground (arith, length-suffix q p, hold_over-bound ps q)

length-str_eq : (a b : Str) → str_eq a b ≡ true → length b ≡ length a
length-str_eq a b h = ap length (sym (str_eq→eq a b h))

hold_over-listed :
    (ps : List Str) (c : ℕ) (q : Str)
    → hold_over ps (c ∷ q) ≡ (if listed ps (c ∷ q) then suc (length q) else hold_over ps q)
unfolding ends_with hold_over
hold_over-listed [] c q = refl
hold_over-listed (p ∷ ps) c q = ground (
  arith,
  hold_over-cons p ps (c ∷ q),
  hold_over-cons p ps q,
  hold_over-bound ps (c ∷ q),
  hold_over-bound ps q,
  length-str_eq (c ∷ q) p,
  length-suffix q p,
  hold_over-listed ps c q,
)

take-nil : (n : ℕ) → take n [] ≡ []
take-nil zero = refl
take-nil (suc n) = refl

drop-nil : (n : ℕ) → drop n [] ≡ []
drop-nil zero = refl
drop-nil (suc n) = refl

module _ (secrets : List Str) where
  -- What is returned and what is held, by recursion on the text.
  abbrev pub holdable : Str → Bool
  holdable b = listed (candidates secrets) b

  unfoldable pub safe_of : Str → Str
  safe_of [] = []
  safe_of (c ∷ q) = let rest = safe_of q in if holdable (c ∷ q) then [] else c ∷ rest

  unfoldable pub tail_of : Str → Str
  tail_of [] = []
  tail_of (c ∷ q) = let rest = tail_of q in if holdable (c ∷ q) then c ∷ q else rest

  hold-cons :
      (c : ℕ) (q : Str)
      → required_hold secrets (c ∷ q)
        ≡ (if holdable (c ∷ q) then suc (length q) else required_hold secrets q)
  unfolding required_hold
  hold-cons c q = hold_over-listed (candidates secrets) c q

  hold-bound : (q : Str) → required_hold secrets q ≤ length q
  unfolding required_hold
  hold-bound q = hold_over-bound (candidates secrets) q

  cut-cons :
      (c : ℕ) (q : Str)
      → length (c ∷ q) - required_hold secrets (c ∷ q)
        ≡ (if holdable (c ∷ q) then 0 else suc (length q - required_hold secrets q))
  cut-cons c q = ground (arith, hold-cons c q, hold-bound q)

  take-if :
      (b : Bool) (n c : ℕ) (q r : Str)
      → take n q ≡ r
      → take (if b then 0 else suc n) (c ∷ q) ≡ (if b then [] else c ∷ r)
  take-if true n c q r e = refl
  take-if false n c q r e = ap (λ s. c ∷ s) e

  drop-if :
      (b : Bool) (n c : ℕ) (q r : Str)
      → drop n q ≡ r
      → drop (if b then 0 else suc n) (c ∷ q) ≡ (if b then c ∷ q else r)
  drop-if true n c q r e = refl
  drop-if false n c q r e = e

  -- The cut at the required hold separates the two.
  pub take-safe_of : (q : Str) → take (length q - required_hold secrets q) q ≡ safe_of q
  unfolding safe_of
  take-safe_of [] = take-nil (0 - required_hold secrets [])
  take-safe_of (c ∷ q) =
      ap (λ n. take n (c ∷ q)) (cut-cons c q)
      ∙ take-if (holdable (c ∷ q)) (length q - required_hold secrets q) c q (safe_of q)
          (take-safe_of q)

  pub drop-tail_of : (q : Str) → drop (length q - required_hold secrets q) q ≡ tail_of q
  unfolding tail_of
  drop-tail_of [] = drop-nil (0 - required_hold secrets [])
  drop-tail_of (c ∷ q) =
      ap (λ n. drop n (c ∷ q)) (cut-cons c q)
      ∙ drop-if (holdable (c ∷ q)) (length q - required_hold secrets q) c q (tail_of q)
          (drop-tail_of q)

-- The text is one of the list.
abbrev isin : List Str → Str → Bool
isin ps b = any (λ p. str_eq b p) ps

listed-isin : (ps : List Str) (b : Str) → listed ps b ≡ true → isin ps b ≡ true
listed-isin [] b h = h
listed-isin (p ∷ ps) b h = ground (arith, h, listed-isin ps b)

isin-listed :
    (ps : List Str) (b : Str)
    → byte_length b ≤ max_hold_bytes
    → isin ps b ≡ true
    → listed ps b ≡ true
isin-listed [] b m h = h
isin-listed (p ∷ ps) b m h = elim (Bool-cases (str_eq b p)) [
  | inl t ↦ ground (arith, t, m, ap byte_length (str_eq→eq b p t))
  | inr f ↦ ground (arith, isin-listed ps b m (ground (arith, h, f)))
]

isin-map :
    (c : ℕ) (ps : List Str) (b : Str)
    → isin (map (λ p. c ∷ p) ps) b ≡ true
    → (d : Str) × (b ≡ c ∷ d) × (isin ps d ≡ true)
isin-map c [] b h = absurd (ground (arith, h))
isin-map c (p ∷ ps) b h = elim (Bool-cases (str_eq b (c ∷ p))) [
  | inl t ↦ (p, str_eq→eq b (c ∷ p) t, ground (arith, str_eq_refl p))
  | inr f ↦ let (d, e, k) = isin-map c ps b (ground (arith, h, f)) in (d, e, ground (arith, k))
]

map-isin :
    (c : ℕ) (ps : List Str) (d : Str) → isin ps d ≡ true → isin (map (λ p. c ∷ p) ps) (c ∷ d) ≡ true
unfolding str_eq
map-isin c [] d h = h
map-isin c (p ∷ ps) d h = ground (arith, h, map-isin c ps d)

isin-proper_prefixes :
    (s b : Str) → isin (proper_prefixes s) b ≡ true → (x : ℕ) × (u : Str) × (s ≡ b ++ x ∷ u)
isin-proper_prefixes [] b h = absurd (ground (arith, h))
isin-proper_prefixes (c ∷ []) b h = absurd (ground (arith, h))
isin-proper_prefixes (c ∷ d ∷ s) b h = elim (Bool-cases (str_eq b (c ∷ []))) [
  | inl t ↦ (d, s, ap (λ w. w ++ d ∷ s) (sym (str_eq→eq b (c ∷ []) t)))
  | inr f ↦
      let (e, same, k) = isin-map c (proper_prefixes (d ∷ s)) b (ground (arith, h, f)) in
      let (x, u, rest) = isin-proper_prefixes (d ∷ s) e k in
      (x, u, ap (λ w. c ∷ w) rest ∙ ap (λ w. w ++ x ∷ u) (sym same))
]

proper_prefixes-isin :
    (c : ℕ) (b : Str) (x : ℕ) (u : Str) → isin (proper_prefixes ((c ∷ b) ++ x ∷ u)) (c ∷ b) ≡ true
unfolding str_eq
proper_prefixes-isin c [] x u = ground (arith, str_eq_refl (c ∷ []))
proper_prefixes-isin c (d ∷ b) x u =
    ground (
      arith,
      map-isin c (proper_prefixes ((d ∷ b) ++ x ∷ u)) (d ∷ b) (proper_prefixes-isin d b x u),
    )

isin-append : (ps qs : List Str) (b : Str) → isin (ps ++ qs) b ≡ (isin ps b || isin qs b)
isin-append ps qs b = any-append (λ p. str_eq b p) ps qs

abbrev of_secret : Str → List Str
of_secret s = if ltb (byte_length s) 2 then [] else proper_prefixes s

isin-of_secret : (s b : Str) → isin (of_secret s) b ≡ true → isin (proper_prefixes s) b ≡ true
isin-of_secret s b h = ground (arith, h)

-- A candidate is a proper prefix of a secret.
isin-candidates :
    (secrets : List Str) (b : Str)
    → isin (candidates secrets) b ≡ true
    → (s : Str) × (contains secrets s ≡ true) × ((x : ℕ) × (u : Str) × (s ≡ b ++ x ∷ u))
isin-candidates [] b h = absurd (ground (arith, h))
isin-candidates (s ∷ secrets) b h = elim (Bool-cases (isin (of_secret s) b)) [
  | inl t ↦ (s, ground (arith, str_eq_refl s), isin-proper_prefixes s b (isin-of_secret s b t))
  | inr f ↦
      let (m, k, e) =
        isin-candidates secrets b
          (ground (arith, h, f, isin-append (of_secret s) (candidates secrets) b)) in
      (m, ground (arith, k), e)
]

pub holdable-prefix :
    (secrets : List Str) (b : Str)
    → holdable secrets b ≡ true
    → (s : Str) × (contains secrets s ≡ true) × ((x : ℕ) × (u : Str) × (s ≡ b ++ x ∷ u))
holdable-prefix secrets b h = isin-candidates secrets b (listed-isin (candidates secrets) b h)

utf8_width-positive : (c : ℕ) → 0 < utf8_width c
unfolding utf8_width
utf8_width-positive c = ground arith

byte_length-append : (s t : Str) → byte_length (s ++ t) ≡ byte_length s + byte_length t
unfolding byte_length
byte_length-append [] t = omega arith
byte_length-append (c ∷ s) t = omega (arith, byte_length-append s t)

byte_length-cons : (c : ℕ) (s : Str) → 0 < byte_length (c ∷ s)
unfolding byte_length
byte_length-cons c s = omega (arith, utf8_width-positive c)

candidates-isin :
    (secrets : List Str) (s b : Str)
    → contains secrets s ≡ true
    → isin (of_secret s) b ≡ true
    → isin (candidates secrets) b ≡ true
candidates-isin [] s b k h = absurd (ground (arith, k))
candidates-isin (m ∷ secrets) s b k h = elim (Bool-cases (str_eq m s)) [
  | inl t ↦ ground (
    arith,
    isin-append (of_secret m) (candidates secrets) b,
    subst (λ x. isin (of_secret x) b ≡ true) (sym (str_eq→eq m s t)) h,
  )
  | inr f ↦ ground (
    arith,
    isin-append (of_secret m) (candidates secrets) b,
    candidates-isin secrets s b (ground (arith, k, f)) h,
  )
]

-- Each proper prefix of a secret can be held, if the secret is within the bound.
pub prefix-holdable :
    (secrets : List Str) (c : ℕ) (b : Str) (x : ℕ) (u : Str)
    → contains secrets ((c ∷ b) ++ x ∷ u) ≡ true
    → byte_length ((c ∷ b) ++ x ∷ u) ≤ max_hold_bytes
    → holdable secrets (c ∷ b) ≡ true
prefix-holdable secrets c b x u k m =
    isin-listed (candidates secrets) (c ∷ b) (omega (arith, m, parts))
      (candidates-isin secrets ((c ∷ b) ++ x ∷ u) (c ∷ b) k here)
  where
    parts : byte_length ((c ∷ b) ++ x ∷ u) ≡ byte_length (c ∷ b) + byte_length (x ∷ u)
    parts = byte_length-append (c ∷ b) (x ∷ u)

    here : isin (of_secret ((c ∷ b) ++ x ∷ u)) (c ∷ b) ≡ true
    here =
        ground
          (arith, parts, byte_length-cons c b, byte_length-cons x u, proper_prefixes-isin c b x u)
