-- ===== src/Common/Maps.antt =====
-- Go maps with string keys as association lists. The order of the list is the order of iteration.
use Prim.Native.Nat.{◌+◌, ◌≤◌}
use mathlib.Core.Path.{◌≡◌, refl, subst}
use mathlib.Core.Logic.{inl, inr}
use mathlib.Core.Option.{Option, none, some}
use mathlib.Core.Bool.{Bool}
use mathlib.Core.List.{List, [], ◌∷◌}
use native.Mathlib.Omega.{arith}
use verta.Common.Tests.{if◌then◌else◌, Bool-cases}
use verta.Common.Lists.{length}
use verta.Common.Bytes.{Text, text_eq, text_eq_iff}

abbrev pub Dict {ℓ} : Type ℓ → Type ℓ
Dict V = List (Text × V)

module _ {ℓ} {V : Type ℓ} where
  unfoldable pub lookup : Text → Dict V → Option V
  lookup k [] = none
  lookup k ((j, v) ∷ m) = if text_eq j k then some v else lookup k m

  -- m[k] = v
  unfoldable pub insert : Text → V → Dict V → Dict V
  insert k v [] = (k, v) ∷ []
  insert k v ((j, w) ∷ m) = if text_eq j k then (j, v) ∷ m else (j, w) ∷ insert k v m

  -- delete(m, k)
  unfoldable pub delete : Text → Dict V → Dict V
  delete k [] = []
  delete k ((j, v) ∷ m) = let rest = delete k m in if text_eq j k then rest else (j, v) ∷ rest

  pub lookup-insert :
      (k j : Text) (v : V) (m : Dict V)
      → lookup j (insert k v m) ≡ (if text_eq k j then some v else lookup j m)
  unfolding lookup insert
  lookup-insert k j v [] = refl
  lookup-insert k j v ((i, w) ∷ m) =
      ground (arith, text_eq_iff k j, text_eq_iff i k, text_eq_iff i j, lookup-insert k j v m)

  pub lookup-delete :
      (k j : Text) (m : Dict V) → lookup j (delete k m) ≡ (if text_eq k j then none else lookup j m)
  unfolding lookup delete
  lookup-delete k j [] = ground arith
  lookup-delete k j ((i, w) ∷ m) =
      ground (arith, text_eq_iff k j, text_eq_iff i k, text_eq_iff i j, lookup-delete k j m)

  pub length-insert : (k : Text) (v : V) (m : Dict V) → length (insert k v m) ≤ length m + 1
  unfolding insert
  length-insert k v [] = omega arith
  length-insert k v ((i, w) ∷ m) = ground (arith, length-insert k v m)

-- No key stands twice, as in a Go map.
abbrev pub Distinct {ℓ} : {V : Type ℓ} → Dict V → Type ℓ
Distinct [] = Unit
Distinct ((k, v) ∷ m) = (lookup k m ≡ none) × Distinct m

-- A value that passes the test, or nothing.
abbrev pub keep_if {ℓ} : {V : Type ℓ} → (V → Bool) → Option V → Option V
keep_if p none = none
keep_if p (some v) = if p v then some v else none

module _ {ℓ} {V : Type ℓ} where
  -- `for k, v := range m { if !p(v) { delete(m, k) } }`
  unfoldable pub filter_values : (V → Bool) → Dict V → Dict V
  filter_values p [] = []
  filter_values p ((k, v) ∷ m) = let rest = filter_values p m in if p v then (k, v) ∷ rest else rest

  pub lookup-filter_values :
      (p : V → Bool) (k : Text) (m : Dict V)
      → Distinct m
      → lookup k (filter_values p m) ≡ keep_if p (lookup k m)
  unfolding lookup filter_values
  lookup-filter_values p k [] d = refl
  lookup-filter_values p k ((i, v) ∷ m) d =
      ground (arith, text_eq_iff i k, lookup-filter_values p k m d.1)

  pub filter_values-Distinct :
      (p : V → Bool) (m : Dict V) → Distinct m → Distinct (filter_values p m)
  unfolding filter_values
  filter_values-Distinct p [] d = tt
  filter_values-Distinct p ((i, v) ∷ m) d =
      ground (arith, lookup-filter_values p i m d.1, filter_values-Distinct p m d.1)

  pub insert-Distinct : (k : Text) (v : V) (m : Dict V) → Distinct m → Distinct (insert k v m)
  unfolding insert lookup
  insert-Distinct k v [] d = (refl, tt)
  insert-Distinct k v ((i, w) ∷ m) d =
      ground
        (arith, text_eq_iff i k, text_eq_iff k i, lookup-insert k i v m, insert-Distinct k v m d.1)

  pub delete-Distinct : (k : Text) (m : Dict V) → Distinct m → Distinct (delete k m)
  unfolding delete lookup
  delete-Distinct k [] d = tt
  delete-Distinct k ((i, w) ∷ m) d =
      ground (arith, text_eq_iff i k, text_eq_iff k i, lookup-delete k i m, delete-Distinct k m d.1)

  pub length-filter_values : (p : V → Bool) (m : Dict V) → length (filter_values p m) ≤ length m
  unfolding filter_values
  length-filter_values p [] = omega arith
  length-filter_values p ((i, v) ∷ m) = ground (arith, length-filter_values p m)

-- Every value of the map satisfies the predicate.
abbrev pub AllValues {ℓ κ} : {V : Type ℓ} → (V → Type κ) → Dict V → Type κ
AllValues P [] = Unit
AllValues P ((k, v) ∷ m) = P v × AllValues P m

module _ {ℓ κ} {V : Type ℓ} (P : V → Type κ) where
  pub AllValues-lookup : (k : Text) (m : Dict V) {v : V} → AllValues P m → lookup k m ≡ some v → P v
  unfolding lookup
  AllValues-lookup k [] h e = cc
  AllValues-lookup k ((i, w) ∷ m) {v} h e = elim (Bool-cases (text_eq i k)) [
    | inl hit ↦ let same : w ≡ v = ground (arith, hit) in subst P same h.0
    | inr miss ↦ AllValues-lookup k m h.1 (rw miss at e)
  ]

  pub AllValues-insert :
      (k : Text) (v : V) (m : Dict V) → P v → AllValues P m → AllValues P (insert k v m)
  unfolding insert
  AllValues-insert k v [] p h = (p, tt)
  AllValues-insert k v ((i, w) ∷ m) p h = elim (Bool-cases (text_eq i k)) [
    | inl hit ↦ rw hit (p, h.1)
    | inr miss ↦ rw miss (h.0, AllValues-insert k v m p h.1)
  ]

  pub AllValues-filter_values :
      (q : V → Bool) (m : Dict V) → AllValues P m → AllValues P (filter_values q m)
  unfolding filter_values
  AllValues-filter_values q [] h = tt
  AllValues-filter_values q ((i, w) ∷ m) h = elim (Bool-cases (q w)) [
    | inl hit ↦ rw hit (h.0, AllValues-filter_values q m h.1)
    | inr miss ↦ rw miss (AllValues-filter_values q m h.1)
  ]

pub AllValues-map {ℓ κ μ} :
    {V : Type ℓ} (P : V → Type κ) (Q : V → Type μ) (m : Dict V)
    → ((v : V) → P v → Q v)
    → AllValues P m
    → AllValues Q m
AllValues-map P Q [] f h = tt
AllValues-map P Q ((i, w) ∷ m) f h = (f w h.0, AllValues-map P Q m f h.1)
