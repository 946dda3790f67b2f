-- ===== src/Maildir/Flags/Canonical.antt =====
-- Flag sets are canonical: strictly ascending letters of the six flags. What `add` and `remove` do
-- to membership.
use verta.Common.{
  ℕ, ◌<◌, ◌≡◌, refl, ◌∙◌, Text, true, false, ◌&&◌, ◌||◌, not, ◌==◌, [], ◌∷◌, ◌++◌, All, arith,
  Bool-cases, inl, inr,
}
use verta.Maildir.Flags.{FlagSet, is_flag, has, place, sort_flags, collect}

abbrev pub Canonical : FlagSet → Type 0
Canonical [] = Unit
Canonical (v ∷ f) = (is_flag v ≡ true) × All (λ w. v < w) f × Canonical f

-- Flags, none of them twice, in any order.
abbrev pub Proper : FlagSet → Type 0
Proper [] = Unit
Proper (v ∷ f) = (is_flag v ≡ true) × (has f v ≡ false) × Proper f

has-place : (x : ℕ) (f : FlagSet) (y : ℕ) → has (place x f) y ≡ (x == y || has f y)
unfolding has place
has-place x [] y = refl
has-place x (v ∷ f) y = ground (arith, has-place x f y)

pub has-sort_flags : (f : FlagSet) (y : ℕ) → has (sort_flags f) y ≡ has f y
unfolding has sort_flags
has-sort_flags [] y = refl
has-sort_flags (v ∷ f) y = ground (arith, has-place v (sort_flags f) y, has-sort_flags f y)

pub has-append : (f g : FlagSet) (y : ℕ) → has (f ++ g) y ≡ (has f y || has g y)
unfolding has
has-append [] g y = refl
has-append (v ∷ f) g y = ground (arith, has-append f g y)

above-place : (u x : ℕ) (f : FlagSet) → u < x → All (λ w. u < w) f → All (λ w. u < w) (place x f)
unfolding place
above-place u x [] h k = (h, tt)
above-place u x (v ∷ f) h k = ground (arith, above-place u x f h k.1)

above_trans : (u v : ℕ) (f : FlagSet) → u < v → All (λ w. v < w) f → All (λ w. u < w) f
above_trans u v [] h k = tt
above_trans u v (w ∷ f) h k = (omega arith, above_trans u v f h k.1)

place-Canonical :
    (x : ℕ) (f : FlagSet) → is_flag x ≡ true → has f x ≡ false → Canonical f → Canonical (place x f)
unfolding place has
place-Canonical x [] h n c = (h, tt, tt)
place-Canonical x (v ∷ f) h n c =
    ground (arith, place-Canonical x f h, above-place v x f, above_trans x v f)

pub sort_flags-Canonical : (f : FlagSet) → Proper f → Canonical (sort_flags f)
unfolding sort_flags
sort_flags-Canonical [] p = tt
sort_flags-Canonical (v ∷ f) p =
    place-Canonical v (sort_flags f) p.0 (has-sort_flags f v ∙ p.1) (sort_flags-Canonical f p.2)

pub append-Proper :
    (f : FlagSet) (r : ℕ) → Proper f → is_flag r ≡ true → has f r ≡ false → Proper (f ++ r ∷ [])
unfolding has
append-Proper [] r p h n = (h, refl, tt)
append-Proper (v ∷ f) r p h n = ground (arith, append-Proper f r p.2, has-append f (r ∷ []) v)

pub collect-Proper : (f : FlagSet) (rs : Text) → Proper f → Proper (collect f rs)
unfolding collect
collect-Proper f [] p = p
collect-Proper f (r ∷ rs) p = elim (Bool-cases (is_flag r && not (has f r))) [
  | inl new ↦
      rw new (collect-Proper (f ++ r ∷ []) rs (append-Proper f r p (ground arith) (ground arith)))
  | inr old ↦ rw old (collect-Proper f rs p)
]

-- Sorting a canonical set changes nothing.
pub sort_flags_self : (f : FlagSet) → Canonical f → sort_flags f ≡ f
unfolding sort_flags
sort_flags_self [] c = refl
sort_flags_self (v ∷ f) c = rw (sort_flags_self f c.2) (place_least v f c.1)
  where
    place_least : (v : ℕ) (f : FlagSet) → All (λ w. v < w) f → place v f ≡ v ∷ f
    place_least v [] k = refl
    place_least v (w ∷ f) k = ground arith
