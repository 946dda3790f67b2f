-- ===== src/Maildir/Flags/FileNames.antt =====
-- The file name carries base name and flags, and nothing is lost on the way there and back.
use mathlib.Core.List.{append-nil, append_assoc}
use verta.Common.{
  sym, ℕ, ◌<◌, ◌≡◌, refl, ◌∙◌, Text, true, false, ◌&&◌, ◌||◌, not, ◌==◌, if◌then◌else◌, [], ◌∷◌,
  ◌++◌, All, arith, Bool-cases, inl, inr, cut, has_prefix, Option, none, some, drop,
}
use verta.Maildir.Flags.{
  FlagSet, is_flag, has, sort_flags, collect, add, remove, parse_flags, base_name, file_name,
  info_sep,
}
use verta.Maildir.Flags.Canonical.{
  Canonical, Proper, has-append, sort_flags-Canonical, sort_flags_self, collect-Proper,
  append-Proper, has-sort_flags,
}

has_above : (v : ℕ) (f : FlagSet) → All (λ w. v < w) f → has f v ≡ false
unfolding has
has_above v [] k = refl
has_above v (w ∷ f) k = ground (arith, has_above v f k.1)

Canonical-Proper : (f : FlagSet) → Canonical f → Proper f
Canonical-Proper [] c = tt
Canonical-Proper (v ∷ f) c = (c.0, has_above v f c.1, Canonical-Proper f c.2)

old_member : (f : FlagSet) (x y : ℕ) → has f x ≡ true → has f y ≡ (x == y || has f y)
old_member f x y e = elim (Bool-cases (x == y)) [
  | inl same ↦ ground (arith, same)
  | inr other ↦ rw other
]

-- `add` inserts into the set.
pub has-add : (f : FlagSet) (x y : ℕ) → has (add f x) y ≡ (x == y || has f y)
unfolding add
has-add f x y = elim (Bool-cases (has f x)) [
  | inl old ↦ rw old (old_member f x y old)
  | inr new ↦ rw new (ground (arith, has-sort_flags (f ++ x ∷ []) y, has-append f (x ∷ []) y))
]

-- `add` keeps a set canonical.
add-Canonical : (f : FlagSet) (x : ℕ) → is_flag x ≡ true → Canonical f → Canonical (add f x)
unfolding add
add-Canonical f x h c = elim (Bool-cases (has f x)) [
  | inl old ↦ rw old c
  | inr new ↦
      rw new (sort_flags-Canonical (f ++ x ∷ []) (append-Proper f x (Canonical-Proper f c) h new))
]

remove_above : (u x : ℕ) (f : FlagSet) → All (λ w. u < w) f → All (λ w. u < w) (remove f x)
unfolding remove
remove_above u x [] k = tt
remove_above u x (v ∷ f) k = ground (arith, remove_above u x f k.1)

remove-Canonical : (f : FlagSet) (x : ℕ) → Canonical f → Canonical (remove f x)
unfolding remove
remove-Canonical [] x c = tt
remove-Canonical (v ∷ f) x c = ground (arith, remove-Canonical f x c.2, remove_above v x f c.1)

pub has-remove : (f : FlagSet) (x y : ℕ) → has (remove f x) y ≡ (not (x == y) && has f y)
unfolding remove has
has-remove [] x y = ground arith
has-remove (v ∷ f) x y = ground (arith, has-remove f x y)

-- On a canonical flag set, adding and removing a flag give a canonical set, in which only that
-- flag has changed.
pub add_remove_lem :
    (f : FlagSet) (x y : ℕ)
    → is_flag x ≡ true
    → Canonical f
    → Canonical (add f x)
      × Canonical (remove f x)
      × (has (add f x) y ≡ (x == y || has f y))
      × (has (remove f x) y ≡ (not (x == y) && has f y))
add_remove_lem f x y h c =
    (add-Canonical f x h c, remove-Canonical f x c, has-add f x y, has-remove f x y)

parse_flags-Canonical : (name : Text) → Canonical (parse_flags name)
unfolding parse_flags
parse_flags-Canonical name = after_cut (cut info_sep name)
  where
    after_cut :
        (o : Option (Text × Text))
        → Canonical (elim o [ none ↦ [] | some (base, info) ↦ sort_flags (collect [] info) ])
    after_cut none = tt
    after_cut (some (base, info)) =
        sort_flags-Canonical (collect [] info) (collect-Proper [] info tt)

abbrev cons_before : ℕ → Option (Text × Text) → Option (Text × Text)
cons_before c none = none
cons_before c (some (before, after)) = some (c ∷ before, after)

cut_cons :
    (c : ℕ) (s : Text)
    → cut info_sep (c ∷ s) ≡ (
        if has_prefix info_sep (c ∷ s)
        then some ([], drop 3 (c ∷ s))
        else cons_before c (cut info_sep s))
unfolding cut
cut_cons c s = ground arith

cut_tail :
    (c : ℕ) (s t base rest : Text)
    → has_prefix info_sep (c ∷ s) ≡ has_prefix info_sep (c ∷ t)
    → cut info_sep (c ∷ s) ≡ none
    → (cut info_sep s ≡ none → cut info_sep t ≡ some (base, rest))
    → cut info_sep (c ∷ t) ≡ some (c ∷ base, rest)
cut_tail c s t base rest same h ih = ground (arith, cut_cons c s, cut_cons c t)

-- The separator has no border, so it first occurs where it was put.
cut-info_sep :
    (base rest : Text)
    → cut info_sep base ≡ none
    → cut info_sep (base ++ (info_sep ++ rest)) ≡ some (base, rest)
unfolding has_prefix
cut-info_sep [] rest h = unfold cut in refl
cut-info_sep (c ∷ []) rest h = unfold cut in ground arith
cut-info_sep (c ∷ d ∷ []) rest h = unfold cut in ground arith
cut-info_sep (c ∷ d ∷ e ∷ s) rest h =
    cut_tail c (d ∷ e ∷ s) (d ∷ e ∷ s ++ (info_sep ++ rest)) (d ∷ e ∷ s) rest refl h
      (cut-info_sep (d ∷ e ∷ s) rest)

collect_new :
    (acc : FlagSet) (v : ℕ) (f : FlagSet)
    → is_flag v ≡ true
    → has acc v ≡ false
    → collect acc (v ∷ f) ≡ collect (acc ++ v ∷ []) f
unfolding collect
collect_new acc v f h n = rw (h, n)

still_new :
    (acc : FlagSet) (v : ℕ) (f : FlagSet)
    → All (λ w. has acc w ≡ false) f
    → has f v ≡ false
    → All (λ w. has (acc ++ v ∷ []) w ≡ false) f
unfolding has
still_new acc v [] h n = tt
still_new acc v (w ∷ f) h n =
    (ground (arith, has-append acc (v ∷ []) w), still_new acc v f h.1 (ground arith))

collect-Canonical :
    (acc f : FlagSet) → All (λ v. has acc v ≡ false) f → Proper f → collect acc f ≡ acc ++ f
collect-Canonical acc [] h p = unfold collect in sym (append-nil acc)
collect-Canonical acc (v ∷ f) h p =
    collect_new acc v f p.0 h.0
    ∙ (collect-Canonical (acc ++ v ∷ []) f (still_new acc v f h.1 p.1) p.2
        ∙ append_assoc acc (v ∷ []) f)

nothing_had : (f : FlagSet) → All (λ v. has [] v ≡ false) f
unfolding has
nothing_had [] = tt
nothing_had (v ∷ f) = (refl, nothing_had f)

-- A canonical flag set written behind a base name without the separator is read back, and so is
-- the base name.
pub parse_flags-file_name :
    (base : Text) (f : FlagSet)
    → cut info_sep base ≡ none
    → Canonical f
    → (parse_flags (file_name base f) ≡ f) × (base_name (file_name base f) ≡ base)
unfolding file_name parse_flags base_name
parse_flags-file_name base f h c = (
  rw (cut-info_sep base f h, parse_flags)
      (rw (collect-Canonical [] f (nothing_had f) (Canonical-Proper f c)) (sort_flags_self f c)),
  rw (cut-info_sep base f h, base_name),
)
