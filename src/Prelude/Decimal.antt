-- ===== src/Prelude/Decimal.antt =====
-- Decimal numbers: what `format!("{n}")` prints and what `parse::<u32>()`, `parse::<u64>()` read.
use Prim.Native.Nat.{ℕ, zero, suc, ◌+◌, ◌-◌, ◌*◌, ◌/◌, ◌%◌, ◌<◌}
use mathlib.Core.Path.{◌≡◌, refl, sym, ap, ◌∙◌}
use mathlib.Core.Logic.{◌≢◌, inl, inr}
use mathlib.Core.Bool.{Bool, false, ◌&&◌}
use mathlib.Core.List.{[], ◌∷◌, ◌++◌}
use mathlib.Core.Option.{Option, none, some}
use native.Mathlib.Omega.{arith}
use vmfleet.Prelude.Tests.{◌==◌, ltb, leb, if◌then◌else◌, Bool-cases}
use vmfleet.Prelude.Text.{Text, Lacks, Lacks-append}

-- The digits of `n`, most significant first, on fuel above `n`.
digits_fuel : ℕ → ℕ → Text
digits_fuel zero n = []
digits_fuel (suc f) n =
    let more = digits_fuel f (n / 10) ++ (b'0' + n % 10) ∷ [] in
    if ltb n 10 then (b'0' + n) ∷ [] else more

-- `n` in decimal, without leading zeros.
unfoldable pub decimal : ℕ → Text
unfolding digits_fuel
decimal n = digits_fuel (suc n) n

unfoldable pub is_digit : ℕ → Bool
is_digit c = leb b'0' c && leb c b'9'

-- The value of the digits read after a number `acc`.
unfoldable pub parse_digits : ℕ → Text → Option ℕ
unfolding is_digit
parse_digits acc [] = some acc
parse_digits acc (c ∷ s) =
    let rest = parse_digits (acc * 10 + (c - b'0')) s in if is_digit c then rest else none

abbrev below : ℕ → Option ℕ → Option ℕ
below bound none = none
below bound (some n) = if ltb n bound then some n else none

-- The digits after an optional plus; at least one is needed.
unfoldable pub parse_unsigned : ℕ → Text → Option ℕ
unfolding parse_digits
parse_unsigned bound [] = none
parse_unsigned bound (c ∷ []) = below bound (parse_digits 0 (c ∷ []))
parse_unsigned bound (c ∷ d ∷ s) =
    below bound (parse_digits 0 (if c == b'+' then d ∷ s else c ∷ d ∷ s))

abbrev pub u32_mod : ℕ
u32_mod = 4294967296

abbrev pub u64_mod : ℕ
u64_mod = 18446744073709551616

-- The parsers find a number too large for the type as an overflow of some step: the value read so
-- far only grows, so that is a value out of range at the end.
unfoldable pub parse_u32 : Text → Option ℕ
unfolding parse_unsigned
parse_u32 = parse_unsigned u32_mod

unfoldable pub parse_u64 : Text → Option ℕ
unfolding parse_unsigned
parse_u64 = parse_unsigned u64_mod

parse_digits-concat :
    (acc : ℕ) (s : Text) (v d : ℕ)
    → parse_digits acc s ≡ some v
    → d < 10
    → parse_digits acc (s ++ (b'0' + d) ∷ []) ≡ some (v * 10 + d)
unfolding parse_digits
parse_digits-concat acc [] v d h lt = ground arith
parse_digits-concat acc (c ∷ s) v d h lt =
    ground (arith, parse_digits-concat (acc * 10 + (c - b'0')) s v d)

parse_digits-digits_fuel : (f n : ℕ) → n < f → parse_digits 0 (digits_fuel f n) ≡ some n
unfolding digits_fuel
parse_digits-digits_fuel zero n h = elim h [ ]
parse_digits-digits_fuel (suc f) n h = elim (Bool-cases (ltb n 10)) [
  | inl small ↦ rw small (unfold parse_digits in ground arith)
  | inr large ↦
      let value : parse_digits 0 (digits_fuel f (n / 10)) ≡ some (n / 10) =
        parse_digits-digits_fuel f (n / 10) (ground arith) in
      rw large (
        parse_digits-concat 0 (digits_fuel f (n / 10)) (n / 10) (n % 10) value (omega arith)
        ∙ ap some (omega arith))
]

-- What is printed holds no code point but digits.
digits_fuel-Lacks : (f n c : ℕ) → is_digit c ≡ false → Lacks c (digits_fuel f n)
unfolding digits_fuel is_digit
digits_fuel-Lacks zero n c h = tt
digits_fuel-Lacks (suc f) n c h = elim (Bool-cases (ltb n 10)) [
  | inl small ↦ rw small (ground arith, tt)
  | inr large ↦ rw large (
      Lacks-append c (digits_fuel f (n / 10)) _ (digits_fuel-Lacks f (n / 10) c h)
        (ground arith, tt))
]

pub decimal-Lacks : (n c : ℕ) → is_digit c ≡ false → Lacks c (decimal n)
unfolding decimal
decimal-Lacks n c h = digits_fuel-Lacks (suc n) n c h

parse_digits-decimal : (n : ℕ) → parse_digits 0 (decimal n) ≡ some n
unfolding decimal
parse_digits-decimal n = parse_digits-digits_fuel (suc n) n (omega arith)

nil_append : (s : Text) (c : ℕ) → s ++ c ∷ [] ≢ []
nil_append [] c h = cc
nil_append (d ∷ s) c h = cc

decimal-ne-nil : (n : ℕ) → decimal n ≢ []
unfolding decimal
decimal-ne-nil n = ground (arith, nil_append (digits_fuel n (n / 10)) (b'0' + n % 10))

parse_unsigned_of_digits :
    (bound : ℕ) (s : Text) (n : ℕ)
    → parse_digits 0 s ≡ some n
    → s ≢ []
    → Lacks b'+' s
    → n < bound
    → parse_unsigned bound s ≡ some n
unfolding parse_unsigned
parse_unsigned_of_digits bound [] n h ne plus lt = absurd (ne refl)
parse_unsigned_of_digits bound (c ∷ []) n h ne plus lt = rw h (ground arith)
parse_unsigned_of_digits bound (c ∷ d ∷ s) n h ne plus lt = ground arith

-- A number that fits is read back from what is printed.
pub parse_u32-decimal : (n : ℕ) → n < u32_mod → parse_u32 (decimal n) ≡ some n
unfolding parse_u32
parse_u32-decimal n h =
    parse_unsigned_of_digits u32_mod (decimal n) n (parse_digits-decimal n) (decimal-ne-nil n)
      (decimal-Lacks n b'+' (unfold is_digit in refl)) h

pub parse_u64-decimal : (n : ℕ) → n < u64_mod → parse_u64 (decimal n) ≡ some n
unfolding parse_u64
parse_u64-decimal n h =
    parse_unsigned_of_digits u64_mod (decimal n) n (parse_digits-decimal n) (decimal-ne-nil n)
      (decimal-Lacks n b'+' (unfold is_digit in refl)) h

parse_unsigned-lt : (bound : ℕ) (s : Text) (n : ℕ) → parse_unsigned bound s ≡ some n → n < bound
unfolding parse_unsigned
parse_unsigned-lt bound [] n h = cc
parse_unsigned-lt bound (c ∷ []) n h = ground arith
parse_unsigned-lt bound (c ∷ d ∷ s) n h = ground arith

pub parse_u32-lt : (s : Text) (n : ℕ) → parse_u32 s ≡ some n → n < u32_mod
unfolding parse_u32
parse_u32-lt s n h = parse_unsigned-lt u32_mod s n h

-- Different numbers are printed differently.
pub decimal_inj : (a b : ℕ) → decimal a ≡ decimal b → a ≡ b
decimal_inj a b e =
    let same : some a ≡ some b =
      sym (parse_digits-decimal a) ∙ (ap (parse_digits 0) e ∙ parse_digits-decimal b) in
    ground arith

decimal_test : decimal 103 ≡ b'1' ∷ b'0' ∷ b'3' ∷ []
unfolding decimal
decimal_test = refl
