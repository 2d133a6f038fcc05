-- ===== src/Prelude/Int.antt =====
-- Rust's `i64` and `i32` as integers in their range, their decimal text, and reading one.
use Prim.Native.Nat.{ℕ, zero, suc, ◌+◌, ◌-◌, ◌*◌, ◌/◌, ◌%◌, ◌^◌}
use mathlib.Core.Path.{◌≡◌, refl, ap}
use mathlib.Core.Bool.{Bool, true, false, ◌&&◌}
use mathlib.Core.Option.{Option, none, some}
use mathlib.Core.List.{List, [], ◌∷◌}
use native.Mathlib.Omega.{arith}
use agentic_software_factory.Prelude.Tests.{ltb, leb, ◌==◌, if◌then◌else◌}
use agentic_software_factory.Prelude.Lists.{any}
use agentic_software_factory.Prelude.Text.{Str}

-- `negsuc n` is `-(n + 1)`.
pub data ℤ : Type 0 where
  pos : ℕ → ℤ
  negsuc : ℕ → ℤ

abbrev pub same_int : ℤ → ℤ → Bool
same_int (pos m) (pos n) = m == n
same_int (negsuc m) (negsuc n) = m == n
same_int _ _ = false

pub same_int→eq : (m n : ℤ) → same_int m n ≡ true → m ≡ n
same_int→eq (pos m) (pos n) h = ap pos (ground (arith, h))
same_int→eq (negsuc m) (negsuc n) h = ap negsuc (ground (arith, h))
same_int→eq (pos m) (negsuc n) h = cc
same_int→eq (negsuc m) (pos n) h = cc

pub same_int_refl : (n : ℤ) → same_int n n ≡ true
same_int_refl (pos n) = ground arith
same_int_refl (negsuc n) = ground arith

pub same_int_sym : (m n : ℤ) → same_int m n ≡ same_int n m
same_int_sym (pos m) (pos n) = ground arith
same_int_sym (negsuc m) (negsuc n) = ground arith
same_int_sym (pos m) (negsuc n) = refl
same_int_sym (negsuc m) (pos n) = refl

abbrev pub has_int : List ℤ → ℤ → Bool
has_int l n = any (λ m. same_int m n) l

-- `n + 1` on an `i64`, which wraps in a release build.
abbrev pub next_i64 : ℤ → ℤ
next_i64 (pos n) = if n == 2 ^ 63 - 1 then negsuc (2 ^ 63 - 1) else pos (n + 1)
next_i64 (negsuc zero) = pos 0
next_i64 (negsuc (suc n)) = negsuc n

-- `n as i32`
abbrev pub as_i32 : ℕ → ℤ
as_i32 n = let low = n % 2 ^ 32 in if ltb low (2 ^ 31) then pos low else negsuc (2 ^ 32 - 1 - low)

-- `m > n`
abbrev pub greater : ℤ → ℤ → Bool
greater (pos m) (pos n) = ltb n m
greater (pos m) (negsuc n) = true
greater (negsuc m) (pos n) = false
greater (negsuc m) (negsuc n) = ltb m n

-- The decimal digits of a number, put before a text; there are at most as many as the fuel.
unfoldable pub digits : ℕ → ℕ → Str → Str
digits zero n after = after
digits (suc fuel) n after =
    let text = (b'0' + n % 10) ∷ after in
    let more = digits fuel (n / 10) text in if ltb n 10 then text else more

-- `n.to_string()`
unfoldable pub show_int : ℤ → Str
unfolding digits
show_int (pos n) = digits (suc n) n []
show_int (negsuc n) = b'-' ∷ digits (suc (suc n)) (suc n) []

unfoldable is_digit : ℕ → Bool
is_digit c = leb b'0' c && leb c b'9'

-- The value of a text of digits, if it has no other character.
unfoldable pub digits_value : ℕ → Str → Option ℕ
unfolding is_digit
digits_value value [] = some value
digits_value value (c ∷ s) =
    let rest = digits_value (value * 10 + (c - b'0')) s in if is_digit c then rest else none

unfoldable in_range : ℕ → (ℕ → ℤ) → Option ℕ → Option ℤ
in_range limit sign none = none
in_range limit sign (some value) = if leb value limit then some (sign value) else none

unfoldable negated : ℕ → ℤ
negated zero = pos 0
negated (suc n) = negsuc n

unfoldable unsigned : Str → Option ℕ
unfolding digits_value
unsigned [] = none
unsigned (c ∷ s) = digits_value 0 (c ∷ s)

-- `s.parse::<i64>().ok()`
unfoldable pub parse_i64 : Str → Option ℤ
unfolding unsigned in_range negated
parse_i64 [] = none
parse_i64 (c ∷ s) =
    if c == b'-'
    then in_range (2 ^ 63) negated (unsigned s)
    else if c == b'+'
    then in_range (2 ^ 63 - 1) pos (unsigned s)
    else in_range (2 ^ 63 - 1) pos (unsigned (c ∷ s))
