-- ===== src/Maildir/UidText/Decimals.antt =====
-- Numbers that internal/maildir/mailbox.go writes in decimal and reads back.
use verta.Common.{
  ℕ, zero, suc, ◌+◌, ◌-◌, ◌*◌, ◌/◌, ◌%◌, ◌<◌, ◌≤◌, ◌≡◌, refl, ap, ◌∙◌, Text, Bool, true, false,
  if◌then◌else◌, ltb, [], ◌∷◌, ◌++◌, Option, none, some, decimal, digits_onto, is_digit, within,
  has_byte, has_byte-append, arith, Bool-cases, inl, inr, lt→ltb, any, is_space, any, is_space,
}
use verta.Maildir.UidText.{show, show_digits, parse_u32, max_u32}

-- One more digit.
abbrev pub with_digit : ℕ → Option ℕ → Option ℕ
with_digit c none = none
with_digit c (some m) = if is_digit c then some (m * 10 + (c - b'0')) else none

digits_onto-append :
    (a : ℕ) (s : Text) (c : ℕ) → digits_onto a (s ++ c ∷ []) ≡ with_digit c (digits_onto a s)
unfolding digits_onto
digits_onto-append a [] c = refl
digits_onto-append a (d ∷ s) c = elim (Bool-cases (is_digit d)) [
  | inl digit ↦ rw digit (digits_onto-append (a * 10 + (d - b'0')) s c)
  | inr other ↦ rw other refl
]

one_digit : (n : ℕ) → ltb n 10 ≡ true → digits_onto 0 ((b'0' + n) ∷ []) ≡ some n
unfolding digits_onto is_digit
one_digit n h = ground (arith, h)

big_le : (n : ℕ) → ltb n 10 ≡ false → 10 ≤ n
big_le n h = ground (arith, h)

last_digit : (n : ℕ) → with_digit (b'0' + n % 10) (some (n / 10)) ≡ some n
unfolding is_digit
last_digit n = ground arith

digits_onto-show : (fuel n : ℕ) → n < fuel → digits_onto 0 (show_digits fuel n) ≡ some n
unfolding show_digits
digits_onto-show zero n h = ground (arith, h)
digits_onto-show (suc fuel) n h = elim (Bool-cases (ltb n 10)) [
  | inl small ↦ rw (show_digits, small) (one_digit n small)
  | inr big ↦
      rw (show_digits, big)
        (digits_onto-append 0 (show_digits fuel (n / 10)) (b'0' + n % 10)
          ∙ ap (with_digit (b'0' + n % 10))
              (digits_onto-show fuel (n / 10) (omega (arith, h, big_le n big)))
          ∙ last_digit n)
]

pub show_cons : (n : ℕ) → (c : ℕ) × (s : Text) × (show n ≡ c ∷ s)
unfolding show show_digits
show_cons n = elim (Bool-cases (ltb n 10)) [
  | inl small ↦ (b'0' + n, [], rw (show_digits, small) refl)
  | inr big ↦ starts (show_digits n (n / 10)) (b'0' + n % 10) (rw (show_digits, big) refl)
]
  where
    starts :
        (s : Text) (c : ℕ)
        → show_digits (suc n) n ≡ s ++ c ∷ []
        → (d : ℕ) × (u : Text) × (show_digits (suc n) n ≡ d ∷ u)
    starts [] c e = (c, [], e)
    starts (d ∷ s) c e = (d, s ++ c ∷ [], e)

decimal_digits : (s : Text) (c : ℕ) (u : Text) → s ≡ c ∷ u → decimal s ≡ digits_onto 0 s
unfolding decimal
decimal_digits [] c u e = cc
decimal_digits (d ∷ s) c u e = refl

pub decimal-show : (n : ℕ) → decimal (show n) ≡ some n
unfolding show
decimal-show n =
    decimal_digits (show n) (show_cons n).0 (show_cons n).1 (show_cons n).2
    ∙ digits_onto-show (suc n) n (omega arith)

within_bound : (n : ℕ) → n ≤ max_u32 → within max_u32 (some n) ≡ some n
unfolding within
within_bound n h = ground (arith, h)

-- A number that fits is read back.
pub parse_u32-show : (n : ℕ) → n ≤ max_u32 → parse_u32 (show n) ≡ some n
unfolding parse_u32 show decimal within
parse_u32-show n h = ap (within max_u32) (decimal-show n) ∙ within_bound n h

digit_differs :
    (b d : ℕ) → ltb d 10 ≡ true → is_digit b ≡ false → has_byte b ((b'0' + d) ∷ []) ≡ false
unfolding is_digit
digit_differs b d h k = ground (arith, h, k)

show_digits-has_byte : (b fuel n : ℕ) → is_digit b ≡ false → has_byte b (show_digits fuel n) ≡ false
unfolding show_digits is_digit
show_digits-has_byte b zero n h = refl
show_digits-has_byte b (suc fuel) n h = elim (Bool-cases (ltb n 10)) [
  | inl small ↦ rw (show_digits, small) (digit_differs b n small h)
  | inr big ↦
      rw (show_digits, big)
        (has_byte-append b (show_digits fuel (n / 10)) ((b'0' + n % 10) ∷ [])
          (show_digits-has_byte b fuel (n / 10) h)
          (digit_differs b (n % 10) (lt→ltb (n % 10) 10 (omega arith)) h))
]

pub show-has_byte : (b n : ℕ) → is_digit b ≡ false → has_byte b (show n) ≡ false
unfolding show
show-has_byte b n h = show_digits-has_byte b (suc n) n h

any-append :
    (p : ℕ → Bool) (s t : Text) → any p s ≡ false → any p t ≡ false → any p (s ++ t) ≡ false
any-append p [] t h k = k
any-append p (c ∷ s) t h k = ground (arith, any-append p s t, h, k)

digit-is_space : (d : ℕ) → ltb d 10 ≡ true → any is_space ((b'0' + d) ∷ []) ≡ false
unfolding is_space
digit-is_space d h = ground (arith, h)

show_digits-is_space : (fuel n : ℕ) → any is_space (show_digits fuel n) ≡ false
unfolding show_digits
show_digits-is_space zero n = refl
show_digits-is_space (suc fuel) n = elim (Bool-cases (ltb n 10)) [
  | inl small ↦ rw (show_digits, small) (digit-is_space n small)
  | inr big ↦
      rw (show_digits, big)
        (any-append is_space (show_digits fuel (n / 10)) ((b'0' + n % 10) ∷ [])
          (show_digits-is_space fuel (n / 10))
          (digit-is_space (n % 10) (lt→ltb (n % 10) 10 (omega arith))))
]

pub show-is_space : (n : ℕ) → any is_space (show n) ≡ false
unfolding show
show-is_space n = show_digits-is_space (suc n) n
