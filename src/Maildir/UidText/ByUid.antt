-- ===== src/Maildir/UidText/ByUid.antt =====
-- A UID list of internal/maildir/mailbox.go that is sorted by UID.
use verta.Common.{
  text_eq_refl, ℕ, ◌≡◌, ◌≢◌, refl, sym, ap, ◌∙◌, Text, Dict, Distinct, lookup, text_eq, text_eq_iff,
  [], ◌∷◌, none, some, arith, Bool-cases, Option-cases, inl, inr, sort_by, insert_by,
}
use verta.Maildir.UidText.Entries.{found_in}

-- Sorting by UID changes no entry of a map.
lookup-insert_by :
    (e : Text × ℕ) (entries : Dict ℕ) (k : Text)
    → lookup e.0 entries ≡ none
    → lookup k (insert_by (λ x. x.1) e entries) ≡ lookup k (e ∷ entries)
unfolding lookup insert_by
lookup-insert_by e [] k h = refl
lookup-insert_by (base, uid) ((j, u) ∷ entries) k h = ground (
  arith,
  lookup-insert_by (base, uid) entries k,
  h,
  text_eq_iff j base,
  text_eq_iff j k,
  text_eq_iff base k,
)

insert_by-Distinct :
    (e : Text × ℕ) (entries : Dict ℕ)
    → lookup e.0 entries ≡ none
    → Distinct entries
    → Distinct (insert_by (λ x. x.1) e entries)
unfolding insert_by lookup
insert_by-Distinct e [] h d = (refl, tt)
insert_by-Distinct (base, uid) ((j, u) ∷ entries) h d = ground (
  arith,
  h,
  d,
  text_eq_iff j base,
  text_eq_iff base j,
  lookup-insert_by (base, uid) entries j,
  insert_by-Distinct (base, uid) entries,
)

-- A key stands in one of the maps at most.
abbrev pub Disjoint : Dict ℕ → Dict ℕ → Type 0
Disjoint entries sorted = (k : Text) → (lookup k entries ≢ none) → lookup k sorted ≡ none

lookup_own :
    (base : Text) (uid : ℕ) (entries : Dict ℕ) → lookup base ((base, uid) ∷ entries) ≡ some uid
unfolding lookup
lookup_own base uid entries = rw (text_eq_refl base) refl

found_in-first :
    (entries sorted next : Dict ℕ) (base k : Text) (uid : ℕ)
    → lookup base entries ≡ none
    → lookup k next ≡ lookup k ((base, uid) ∷ sorted)
    → found_in k entries next ≡ found_in k ((base, uid) ∷ entries) sorted
unfolding lookup
found_in-first entries sorted next base k uid d h = elim (Bool-cases (text_eq base k)) [
  | inl same ↦
      let missing : lookup k entries ≡ none =
        ap (λ j. lookup j entries) (sym ((text_eq_iff base k).0 same)) ∙ d in
      rw (found_in, missing, h, lookup, same) refl
  | inr other ↦ elim (Option-cases (lookup k entries)) [
    | inl missing ↦ rw (found_in, lookup, other, missing, h, other) refl
    | inr (u, hit) ↦ rw (found_in, lookup, other, hit) refl
  ]
]

pub found_in_empty : (k : Text) (entries : Dict ℕ) → found_in k entries [] ≡ lookup k entries
unfolding lookup
found_in_empty k entries = elim (Option-cases (lookup k entries)) [
  | inl missing ↦ rw (found_in, missing) refl
  | inr (u, hit) ↦ rw (found_in, hit) refl
]

some_not_none : {u : ℕ} → some u ≢ none
some_not_none = λ e. cc

Disjoint-next :
    (entries sorted : Dict ℕ) (base : Text) (uid : ℕ)
    → Distinct ((base, uid) ∷ entries)
    → Disjoint ((base, uid) ∷ entries) sorted
    → lookup base sorted ≡ none
    → Disjoint entries (insert_by (λ x. x.1) (base, uid) sorted)
unfolding lookup
Disjoint-next entries sorted base uid d apart fresh j hit =
    lookup-insert_by (base, uid) sorted j fresh ∙ elim (Bool-cases (text_eq base j)) [
      | inl same ↦
          absurd (hit (ap (λ i. lookup i entries) (sym ((text_eq_iff base j).0 same)) ∙ d.0))
      | inr other ↦ rw (lookup, other) (apart j (λ e. hit (rw (lookup, other) at e)))
    ]

pub lookup-sort_by :
    (sorted entries : Dict ℕ) (k : Text)
    → Distinct sorted
    → Distinct entries
    → Disjoint entries sorted
    → (lookup k (sort_by (λ x. x.1) sorted entries) ≡ found_in k entries sorted)
      × Distinct (sort_by (λ x. x.1) sorted entries)
unfolding sort_by
lookup-sort_by sorted [] k s d apart = (unfold lookup in refl, s)
lookup-sort_by sorted ((base, uid) ∷ entries) k s d apart =
    let fresh = apart base (λ e. some_not_none (sym (lookup_own base uid entries) ∙ e)) in
    let next = insert_by (λ x. x.1) (base, uid) sorted in
    let later =
      lookup-sort_by next entries k (insert_by-Distinct (base, uid) sorted fresh s) d.1
        (Disjoint-next entries sorted base uid d apart fresh) in
    (
      later.0
          ∙ found_in-first entries sorted next base k uid d.0
              (lookup-insert_by (base, uid) sorted k fresh),
      later.1,
    )
