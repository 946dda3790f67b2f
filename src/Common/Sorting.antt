-- ===== src/Common/Sorting.antt =====
-- Insertion sort by a numeric key, for the source's sort.Slice and its hand-written sort.
use mathlib.Core.List.{List, [], ◌∷◌, ◌++◌, Perm, perm_middle}
use mathlib.Core.List.Perm
use mathlib.Core.Logic.{inl, inr}
use mathlib.Core.Path.{◌≡◌, refl}
use Prim.Native.Nat.{◌+◌, ℕ, ◌≤◌}
use native.Mathlib.Omega.{arith}
use mathlib.Core.Bool.{Bool, ◌||◌}
use verta.Common.Lists.{All, any, length}
use verta.Common.Tests.{ltb, if◌then◌else◌, Bool-cases}

-- Insertion sort by a key; equal keys keep their order.
module _ {ℓ} {A : Type ℓ} (key : A → ℕ) where
  unfoldable pub insert_by : A → List A → List A
  insert_by x [] = x ∷ []
  insert_by x (y ∷ ys) =
      let rest = insert_by x ys in if ltb (key x) (key y) then x ∷ y ∷ ys else y ∷ rest

  unfoldable pub sort_by : List A → List A → List A
  unfolding insert_by
  sort_by sorted [] = sorted
  sort_by sorted (x ∷ xs) = sort_by (insert_by x sorted) xs

  -- Ascending keys.
  abbrev pub Sorted : List A → Type 0
  Sorted [] = Unit
  Sorted (x ∷ xs) = All (λ y. key x ≤ key y) xs × Sorted xs

  All-insert_by :
      (n : ℕ) (x : A) (ys : List A)
      → n ≤ key x
      → All (λ y. n ≤ key y) ys
      → All (λ y. n ≤ key y) (insert_by x ys)
  unfolding insert_by
  All-insert_by n x [] h k = (h, tt)
  All-insert_by n x (y ∷ ys) h k = ground (arith, All-insert_by n x ys h k.1)

  All-trans : (m n : ℕ) (ys : List A) → m ≤ n → All (λ y. n ≤ key y) ys → All (λ y. m ≤ key y) ys
  All-trans m n [] h k = tt
  All-trans m n (y ∷ ys) h k = (omega arith, All-trans m n ys h k.1)

  pub insert_by-Sorted : (x : A) (ys : List A) → Sorted ys → Sorted (insert_by x ys)
  unfolding insert_by
  insert_by-Sorted x [] s = (tt, tt)
  insert_by-Sorted x (y ∷ ys) s =
      ground
        (arith, insert_by-Sorted x ys s.1, All-insert_by (key y) x ys, All-trans (key x) (key y) ys)

  pub sort_by-Sorted : (sorted xs : List A) → Sorted sorted → Sorted (sort_by sorted xs)
  unfolding sort_by
  sort_by-Sorted sorted [] s = s
  sort_by-Sorted sorted (x ∷ xs) s =
      sort_by-Sorted (insert_by x sorted) xs (insert_by-Sorted x sorted s)

  pub insert_by-perm : (x : A) (ys : List A) → Perm (insert_by x ys) (x ∷ ys)
  unfolding insert_by
  insert_by-perm x [] = Perm.refl (x ∷ [])
  insert_by-perm x (y ∷ ys) = elim (Bool-cases (ltb (key x) (key y))) [
    | inl first ↦ rw first (Perm.refl (x ∷ y ∷ ys))
    | inr later ↦ rw later (Perm.trans (Perm.cons y (insert_by-perm x ys)) (Perm.swap x y ys))
  ]

  pub sort_by-perm : (sorted xs : List A) → Perm (sort_by sorted xs) (xs ++ sorted)
  unfolding sort_by
  sort_by-perm sorted [] = Perm.refl sorted
  sort_by-perm sorted (x ∷ xs) =
      Perm.trans (sort_by-perm (insert_by x sorted) xs)
        (Perm.trans (Perm.append (Perm.refl xs) (insert_by-perm x sorted)) (perm_middle xs sorted))

-- What holds of every element holds of every sorted one.
module _ {ℓ κ} {A : Type ℓ} (key : A → ℕ) (P : A → Type κ) where
  All-insert_by_any : (x : A) (ys : List A) → P x → All P ys → All P (insert_by key x ys)
  unfolding insert_by
  All-insert_by_any x [] p h = (p, tt)
  All-insert_by_any x (y ∷ ys) p h = elim (Bool-cases (ltb (key x) (key y))) [
    | inl first ↦ rw first (p, h)
    | inr later ↦ rw later (h.0, All-insert_by_any x ys p h.1)
  ]

  pub All-sort_by : (sorted xs : List A) → All P sorted → All P xs → All P (sort_by key sorted xs)
  unfolding sort_by
  All-sort_by sorted [] h k = h
  All-sort_by sorted (x ∷ xs) h k =
      All-sort_by (insert_by key x sorted) xs (All-insert_by_any x sorted k.0 h) k.1

module _ {ℓ} {A : Type ℓ} (key : A → ℕ) where
  length-insert_by : (x : A) (ys : List A) → length (insert_by key x ys) ≡ length ys + 1
  unfolding insert_by
  length-insert_by x [] = omega arith
  length-insert_by x (y ∷ ys) = ground (arith, length-insert_by x ys)

  pub length-sort_by :
      (sorted xs : List A) → length (sort_by key sorted xs) ≡ length sorted + length xs
  unfolding sort_by
  length-sort_by sorted [] = omega arith
  length-sort_by sorted (x ∷ xs) =
      omega (arith, length-sort_by (insert_by key x sorted) xs, length-insert_by x sorted)

module _ {ℓ} {A : Type ℓ} (key : A → ℕ) (p : A → Bool) where
  any-insert_by : (x : A) (ys : List A) → any p (insert_by key x ys) ≡ (p x || any p ys)
  unfolding insert_by
  any-insert_by x [] = refl
  any-insert_by x (y ∷ ys) = ground (arith, any-insert_by x ys)

  pub any-sort_by :
      (sorted xs : List A) → any p (sort_by key sorted xs) ≡ (any p xs || any p sorted)
  unfolding sort_by
  any-sort_by sorted [] = refl
  any-sort_by sorted (x ∷ xs) =
      ground (arith, any-sort_by (insert_by key x sorted) xs, any-insert_by x sorted)
