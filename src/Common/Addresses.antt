-- ===== src/Common/Addresses.antt =====
-- Addresses taken apart: strings.LastIndex and SplitN at one byte, and what they do to a text that was put together.
use Prim.Native.Nat.{ℕ, zero, suc}
use mathlib.Core.Logic.{◌≢◌, inl, inr}
use mathlib.Core.Path.{◌∙◌, sym, ap, ◌≡◌, refl}
use mathlib.Core.Option.{Option, none, some}
use mathlib.Core.Bool.{true, not, Bool, false, ◌||◌, ◌&&◌}
use mathlib.Core.List.{
  reverse-cons, reverse-append, reverse-reverse, reverse, List, [], ◌∷◌, ◌++◌, map-append,
}
use native.Mathlib.Omega.{arith}
use verta.Common.Tests.{Option-cases, Bool-cases, leb, ◌==◌, if◌then◌else◌}
use verta.Common.Lists.{any}
use verta.Common.Bytes.{
  is_space, trim_space, trim_left, Text, cut, has_prefix, lower_byte, to_lower,
}

abbrev pub has_byte : ℕ → Text → Bool
has_byte b = any (λ c. c == b)

-- The text before and after the last occurrence of a byte.
unfoldable pub split_last : ℕ → Text → Option (Text × Text)
split_last b [] = none
split_last b (c ∷ s) = elim (split_last b s) [
  | some (before, after) ↦ some (c ∷ before, after)
  | none ↦ if c == b then some ([], s) else none
]

-- strings.SplitN at one byte, for at least one part.
unfoldable pub split_n : ℕ → ℕ → Text → List Text
split_n zero b s = []
split_n (suc zero) b s = s ∷ []
split_n (suc (suc n)) b s = elim (cut (b ∷ []) s) [
  | none ↦ s ∷ []
  | some (before, after) ↦ before ∷ split_n (suc n) b after
]

pub split_last-none : (b : ℕ) (s : Text) → has_byte b s ≡ false → split_last b s ≡ none
unfolding split_last
split_last-none b [] h = refl
split_last-none b (c ∷ s) h = ground (arith, split_last-none b s)

pub split_last-append :
    (b : ℕ) (before after : Text)
    → has_byte b after ≡ false
    → split_last b (before ++ b ∷ after) ≡ some (before, after)
unfolding split_last
split_last-append b [] after h = ground (arith, split_last-none b after h)
split_last-append b (c ∷ before) after h = rw (split_last-append b before after h)

pub cut-byte :
    (b : ℕ) (before after : Text)
    → has_byte b before ≡ false
    → cut (b ∷ []) (before ++ b ∷ after) ≡ some (before, after)
unfolding cut has_prefix
cut-byte b [] after h = ground arith
cut-byte b (c ∷ before) after h = ground (arith, cut-byte b before after)

pub split_n-append :
    (n b : ℕ) (before after : Text)
    → has_byte b before ≡ false
    → split_n (suc (suc n)) b (before ++ b ∷ after) ≡ before ∷ split_n (suc n) b after
unfolding split_n
split_n-append n b before after h = rw (cut-byte b before after h, split_n)

-- Lower case moves no byte that is not a letter.
pub has_byte-to_lower :
    (b : ℕ) (s : Text)
    → (leb b'a' b && leb b b'z' || leb b'A' b && leb b b'Z') ≡ false
    → has_byte b (to_lower s) ≡ has_byte b s
unfolding to_lower lower_byte
has_byte-to_lower b [] h = refl
has_byte-to_lower b (c ∷ s) h = ground (arith, has_byte-to_lower b s h)

pub to_lower-append : (s t : Text) → to_lower (s ++ t) ≡ to_lower s ++ to_lower t
unfolding to_lower
to_lower-append s t = map-append lower_byte s t

split_last_missing : (b : ℕ) (s : Text) → split_last b s ≡ none → has_byte b s ≡ false
unfolding split_last
split_last_missing b [] h = refl
split_last_missing b (c ∷ s) h = elim (Option-cases (split_last b s)) [
  | inl missing ↦ ground (arith, h, missing, split_last_missing b s missing)
  | inr ((u, v), e) ↦ ground (arith, h, e)
]

-- What is cut at a byte was put together with it.
pub split_last_parts :
    (b : ℕ) (s before after : Text)
    → split_last b s ≡ some (before, after)
    → (s ≡ before ++ b ∷ after) × (has_byte b after ≡ false)
unfolding split_last
split_last_parts b [] before after h = cc
split_last_parts b (c ∷ s) before after h = elim (Option-cases (split_last b s)) [
  | inl missing ↦ ground (arith, h, missing, split_last_missing b s missing)
  | inr ((u, v), e) ↦ ground (arith, h, e, split_last_parts b s u v e)
]

-- A text that begins with a byte other than white space.
abbrev pub starts_solid : Text → Bool
starts_solid [] = false
starts_solid (c ∷ s) = not (is_space c)

pub starts_solid-append : (s t : Text) → starts_solid s ≡ true → starts_solid (s ++ t) ≡ true
starts_solid-append [] t h = ground (arith, h)
starts_solid-append (c ∷ s) t h = h

pub starts_solid-prefix :
    (s t : Text) → s ≢ [] → starts_solid (s ++ t) ≡ true → starts_solid s ≡ true
starts_solid-prefix [] t ne h = absurd (ne refl)
starts_solid-prefix (c ∷ s) t ne h = h

trim_left_self : (s : Text) → starts_solid s ≡ true → trim_left s ≡ s
unfolding trim_left
trim_left_self [] h = refl
trim_left_self (c ∷ s) h = ground (arith, h)

trim_left-starts_solid : (s : Text) → trim_left s ≢ [] → starts_solid (trim_left s) ≡ true
unfolding trim_left
trim_left-starts_solid [] h = absurd (h refl)
trim_left-starts_solid (c ∷ s) h = elim (Bool-cases (is_space c)) [
  | inl space ↦ rw (trim_left, space) (trim_left-starts_solid s (rw (trim_left, space) at h))
  | inr solid ↦ rw (trim_left, solid) (ap not solid)
]

trim_left_suffix : (s : Text) → (p : Text) × (s ≡ p ++ trim_left s)
unfolding trim_left
trim_left_suffix [] = ([], refl)
trim_left_suffix (c ∷ s) = elim (Bool-cases (is_space c)) [
  | inl space ↦
      (c ∷ (trim_left_suffix s).0, rw (trim_left, space) (ap (λ l. c ∷ l) (trim_left_suffix s).1))
  | inr solid ↦ ([], rw (trim_left, solid) refl)
]

pub trim_space_self :
    (s : Text) → starts_solid s ≡ true → starts_solid (reverse s) ≡ true → trim_space s ≡ s
unfolding trim_space
trim_space_self s h k =
    ap (λ l. reverse (trim_left (reverse l))) (trim_left_self s h)
    ∙ ap reverse (trim_left_self (reverse s) k)
    ∙ reverse-reverse s

pub trim_space-solid :
    (s : Text)
    → trim_space s ≢ []
    → (starts_solid (trim_space s) ≡ true) × (starts_solid (reverse (trim_space s)) ≡ true)
unfolding trim_space
trim_space-solid s h =
    let u = trim_left s in
    let v = trim_left (reverse u) in
    let v_full : v ≢ [] = λ e. h (ap reverse e) in
    let parts : u ≡ reverse v ++ reverse (trim_left_suffix (reverse u)).0 =
      sym (reverse-reverse u)
      ∙ ap reverse (trim_left_suffix (reverse u)).1
      ∙ reverse-append (trim_left_suffix (reverse u)).0 v in
    let u_full : u ≢ [] = λ e. v_full (ap (λ l. trim_left (reverse l)) e) in
    (
      starts_solid-prefix (reverse v) (reverse (trim_left_suffix (reverse u)).0) h
          (ap starts_solid (sym parts) ∙ trim_left-starts_solid s u_full),
      ap starts_solid (reverse-reverse v) ∙ trim_left-starts_solid (reverse u) v_full,
    )

reverse_parts : (b : ℕ) (s w : Text) → reverse (s ++ b ∷ w) ≡ reverse w ++ b ∷ [] ++ reverse s
reverse_parts b s w = reverse-append s (b ∷ w) ∙ ap (λ l. l ++ reverse s) (reverse-cons b w)

-- How a text that was put together ends.
pub starts_solid-reverse :
    (b : ℕ) (s w : Text) → w ≢ [] → starts_solid (reverse (s ++ b ∷ w)) ≡ starts_solid (reverse w)
starts_solid-reverse b s w ne =
    ap starts_solid (reverse_parts b s w)
    ∙ first (reverse w) (λ e. ne (sym (reverse-reverse w) ∙ ap reverse e))
  where
    first : (u : Text) → u ≢ [] → starts_solid (u ++ b ∷ [] ++ reverse s) ≡ starts_solid u
    first [] full = absurd (full refl)
    first (c ∷ u) full = refl

pub has_byte-append :
    (b : ℕ) (s t : Text) → has_byte b s ≡ false → has_byte b t ≡ false → has_byte b (s ++ t) ≡ false
has_byte-append b [] t h k = k
has_byte-append b (c ∷ s) t h k = ground (arith, has_byte-append b s t)
