-- ===== src/Imap/Parsing/Sets.antt =====
-- The sequence sets of internal/imap/parse.go against what RFC 3501 says of them.
use verta.Common.{
  ℕ, Text, codes, Bool, false, ◌&&◌, ◌||◌, ◌≡◌, ap, ◌∙◌, sym, if◌then◌else◌, ltb, leb, ◌==◌, List,
  [], ◌∷◌, Option, none, some, cut, split_on, text_eq, decimal, within, arith, Option-cases, inl,
  inr,
}
use verta.Imap.Parsing.{
  parse_seq_num, parse_range, parse_ranges, parse_seq_set, resolved, range_contains, set_contains,
}

-- The number is one of those from one end to the other, whichever of them is larger.
abbrev pub between : ℕ → ℕ → ℕ → Bool
between n a b = (leb a n && leb n b) || (leb b n && leb n a)

-- What a decimal number denotes; 2^32 - 1 stands for the highest number of the mailbox.
abbrev pub number_denotes : ℕ → Option ℕ → ℕ
number_denotes max none = 0
number_denotes max (some a) = if a == 4294967295 then max else a

-- What one end denotes in a mailbox whose highest number is max; an asterisk is that number.
abbrev pub denotes : ℕ → Text → ℕ
denotes max s = if text_eq s (42 ∷ []) then max else number_denotes max (decimal s)

parse_seq_num-denotes :
    (max : ℕ) (s : Text) (a : ℕ) → parse_seq_num s ≡ some a → resolved max a ≡ denotes max s
unfolding parse_seq_num resolved within
parse_seq_num-denotes max s a h = ground (arith, h)

-- What a part of a set denotes: one number, or the numbers between two ends.
abbrev pub part_denotes : ℕ → ℕ → Text → Bool
part_denotes n max part = elim (cut (codes ":") part) [
  | none ↦ n == denotes max part
  | some (lo, hi) ↦ between n (denotes max lo) (denotes max hi)
]

abbrev pub any_denotes : ℕ → ℕ → List Text → Bool
any_denotes n max [] = false
any_denotes n max (part ∷ parts) = part_denotes n max part || any_denotes n max parts

range_contains-between :
    (n max a b : ℕ)
    → range_contains n max (if ltb b a then (b, a) else (a, b))
      ≡ between n (resolved max a) (resolved max b)
unfolding range_contains resolved
range_contains-between n max a b = ground arith

range_contains-one : (n max a : ℕ) → range_contains n max (a, a) ≡ (n == resolved max a)
unfolding range_contains
range_contains-one n max a = ground arith

some_same : {A : Type 0} {x y : A} → some x ≡ some y → x ≡ y
some_same h = cc

parse_range-denotes :
    (n max : ℕ) (part : Text) (r : ℕ × ℕ)
    → parse_range part ≡ some r
    → range_contains n max r ≡ part_denotes n max part
unfolding parse_range
parse_range-denotes n max part r h = elim (Option-cases (cut (codes ":") part)) [
  | inl one ↦ elim (Option-cases (parse_seq_num part)) [
    | inl invalid ↦ ground (arith, rw (parse_range, one, invalid) at h)
    | inr (a, number) ↦
        rw (part_denotes, one, ← parse_seq_num-denotes max part a number)
          (ap (range_contains n max) (sym (some_same (rw (parse_range, one, number) at h)))
            ∙ range_contains-one n max a)
  ]
  | inr ((lo, hi), two) ↦ elim (Option-cases (parse_seq_num lo)) [
    | inl invalid ↦ ground (arith, rw (parse_range, two, invalid) at h)
    | inr (a, low) ↦ elim (Option-cases (parse_seq_num hi)) [
      | inl invalid ↦ ground (arith, rw (parse_range, two, low, invalid) at h)
      | inr (b, high) ↦
          rw
            (
              part_denotes,
              two,
              ← parse_seq_num-denotes max lo a low,
              ← parse_seq_num-denotes max hi b high,
            )
            (ap (range_contains n max) (sym (some_same (rw (parse_range, two, low, high) at h)))
              ∙ range_contains-between n max a b)
    ]
  ]
]

parse_ranges-denotes :
    (n max : ℕ) (parts : List Text) (rs : List (ℕ × ℕ))
    → parse_ranges parts ≡ some rs
    → set_contains n max rs ≡ any_denotes n max parts
unfolding parse_ranges set_contains
parse_ranges-denotes n max [] rs h = ap (set_contains n max) (sym (some_same h))
parse_ranges-denotes n max (part ∷ parts) rs h = elim (Option-cases (parse_range part)) [
  | inl invalid ↦ ground (arith, rw (parse_ranges, invalid) at h)
  | inr (r, first) ↦ elim (Option-cases (parse_ranges parts)) [
    | inl invalid ↦ ground (arith, rw (parse_ranges, first, invalid) at h)
    | inr (later, others) ↦
        ap (set_contains n max) (sym (some_same (rw (parse_ranges, first, others) at h)))
        ∙ ap (λ b. b || set_contains n max later) (parse_range-denotes n max part r first)
        ∙ ap (λ b. part_denotes n max part || b) (parse_ranges-denotes n max parts later others)
  ]
]

-- A sequence set that was parsed contains a number exactly if one of its parts, as they stand
-- between the commas, denotes it: the part is that number, or the number lies between the part's
-- two ends in either order, where an asterisk and 4294967295 stand for the highest number of the
-- mailbox.
pub parse_seq_set-denotes :
    (n max : ℕ) (s : Text) (rs : List (ℕ × ℕ))
    → parse_seq_set s ≡ some rs
    → set_contains n max rs ≡ any_denotes n max (split_on b',' s)
unfolding parse_seq_set
parse_seq_set-denotes n max [] rs h = cc
parse_seq_set-denotes n max (c ∷ s) rs h = parse_ranges-denotes n max (split_on b',' (c ∷ s)) rs h
