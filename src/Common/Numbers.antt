-- ===== src/Common/Numbers.antt =====
-- Signed numbers and strconv.Atoi.
use Prim.Native.Nat.{ℕ, zero, suc, ◌+◌, ◌-◌, ◌*◌, ◌^◌}
use mathlib.Core.Bool.{Bool, ◌&&◌}
use mathlib.Core.Option.{Option, none, some}
use mathlib.Core.List.{[], ◌∷◌}
use verta.Common.Tests.{leb, ◌==◌, if◌then◌else◌}
use verta.Common.Bytes.{Text}

-- `negsuc n` is -(n + 1).
pub data ℤ : Type 0 where
  pos : ℕ → ℤ
  negsuc : ℕ → ℤ

-- a - b, as an integer.
abbrev pub sub_ℕ : ℕ → ℕ → ℤ
sub_ℕ a b = if leb b a then pos (a - b) else negsuc (b - a - 1)

abbrev pub negated : ℕ → ℤ
negated zero = pos 0
negated (suc n) = negsuc n

unfoldable pub is_digit : ℕ → Bool
is_digit c = leb b'0' c && leb c b'9'

-- A decimal number, at least one digit, read onto an accumulator.
unfoldable pub digits_onto : ℕ → Text → Option ℕ
unfolding is_digit
digits_onto n [] = some n
digits_onto n (c ∷ s) =
    let rest = digits_onto (n * 10 + (c - b'0')) s in if is_digit c then rest else none

unfoldable pub decimal : Text → Option ℕ
unfolding digits_onto
decimal [] = none
decimal (c ∷ s) = digits_onto 0 (c ∷ s)

-- Numbers that fit in an int64, `none` for the others.
unfoldable pub within : ℕ → Option ℕ → Option ℕ
within bound none = none
within bound (some n) = if leb n bound then some n else none

-- strconv.Atoi on a 64-bit machine; strconv.ParseInt with base 10 agrees on these inputs.
unfoldable pub atoi : Text → Option ℤ
unfolding decimal within
atoi [] = none
atoi (c ∷ s) =
    if c == b'-'
    then (elim (within (2 ^ 63) (decimal s)) [ none ↦ none | some n ↦ some (negated n) ])
    else (elim (within (2 ^ 63 - 1) (decimal (if c == b'+' then s else c ∷ s))) [
      | none ↦ none
      | some n ↦ some (pos n)
    ])
