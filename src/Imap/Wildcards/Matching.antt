-- ===== src/Imap/Wildcards/Matching.antt =====
-- What the patterns of LIST and LSUB stand for.
use mathlib.Core.List.{append-nil}
use verta.Common.{
  ℕ, Text, text_eq, text_eq_iff, to_lower, has_byte, Bool, true, false, [], ◌∷◌, ◌++◌, ◌≡◌, ◌≢◌,
  ◌⊎◌, inl, inr, refl, arith, Bool-cases, ◌↔◌, ap, sym, ◌∙◌, subst, Text,
}
use verta.Imap.Wildcards.{
  Kind, star, percent, plain, kind_of, match_byte, some_suffix, suffix_in_level, byte_then,
  wildcard, match_pattern,
}

-- Some bytes, and then what After says.
abbrev pub AnyBytes : (Text → Type 0) → Text → Type 0
AnyBytes After s = (t : Text) × (u : Text) × (s ≡ t ++ u) × After u

abbrev pub AnyButDots : (Text → Type 0) → Text → Type 0
AnyButDots After s = (t : Text) × (u : Text) × (s ≡ t ++ u) × (has_byte b'.' t ≡ false) × After u

abbrev pub OneByte : ℕ → (Text → Type 0) → Text → Type 0
OneByte c After s = (u : Text) × (s ≡ c ∷ u) × After u

-- An asterisk (42) stands for any bytes, a percent sign (37) for any bytes but dots, and every other byte
-- for itself.
abbrev pub Stands : ℕ → (Text → Type 0) → Text → Type 0
Stands c After s =
    ((c ≡ 42) × AnyBytes After s)
    ⊎ ((c ≡ 37) × AnyButDots After s)
    ⊎ ((c ≢ 42) × (c ≢ 37) × OneByte c After s)

abbrev pub Matches : Text → Text → Type 0
Matches [] s = s ≡ []
Matches (c ∷ pat) s = Stands c (Matches pat) s

-- What a case of the switch matches.
abbrev ByKind : Kind → ℕ → (Text → Type 0) → Text → Type 0
ByKind star c After s = AnyBytes After s
ByKind percent c After s = AnyButDots After s
ByKind plain c After s = OneByte c After s

kind_of-cases :
    (c : ℕ)
    → ((c ≡ 42) × (kind_of c ≡ star))
      ⊎ ((c ≡ 37) × (kind_of c ≡ percent))
      ⊎ ((c ≢ 42) × (c ≢ 37) × (kind_of c ≡ plain))
unfolding kind_of
kind_of-cases c = ground arith

kind_of-Stands :
    (c : ℕ) (After : Text → Type 0) (s : Text) → ByKind (kind_of c) c After s ↔ Stands c After s
kind_of-Stands c After s = elim (kind_of-cases c) [
  | inl (e, k) ↦ rw k (
    λ m. inl (e, m),
    λ m. elim m [
      | inl (_, h) ↦ h
      | inr (inl (f, h)) ↦ absurd (omega (arith, e, f))
      | inr (inr (n, _, h)) ↦ absurd (n e)
    ],
  )
  | inr (inl (e, k)) ↦ rw k (
    λ m. inr (inl (e, m)),
    λ m. elim m [
      | inl (f, h) ↦ absurd (omega (arith, e, f))
      | inr (inl (_, h)) ↦ h
      | inr (inr (_, n, h)) ↦ absurd (n e)
    ],
  )
  | inr (inr (a, b, k)) ↦ rw k (
    λ m. inr (inr (a, b, m)),
    λ m. elim m [
      | inl (f, h) ↦ absurd (a f)
      | inr (inl (f, h)) ↦ absurd (b f)
      | inr (inr (_, _, h)) ↦ h
    ],
  )
]

module _ (f : Text → Bool) where
  some_suffix-found :
      (s : Text) → some_suffix f s ≡ true → (t : Text) × (u : Text) × (s ≡ t ++ u) × (f u ≡ true)
  unfolding some_suffix
  some_suffix-found [] h = ([], [], refl, h)
  some_suffix-found (c ∷ s) h = elim (Bool-cases (f (c ∷ s))) [
    | inl here ↦ ([], c ∷ s, refl, here)
    | inr later ↦
        let (t, u, e, k) = some_suffix-found s (ground (arith, h, later)) in
        (c ∷ t, u, ap (λ l. c ∷ l) e, k)
  ]

  some_suffix-append : (t u : Text) → f u ≡ true → some_suffix f (t ++ u) ≡ true
  unfolding some_suffix
  some_suffix-append [] [] h = h
  some_suffix-append [] (c ∷ u) h = ground (arith, h)
  some_suffix-append (c ∷ t) u h = ground (arith, some_suffix-append t u h)

  suffix_in_level-found :
      (s : Text)
      → suffix_in_level f s ≡ true
      → (t : Text) × (u : Text) × (s ≡ t ++ u) × (has_byte b'.' t ≡ false) × (f u ≡ true)
  unfolding suffix_in_level
  suffix_in_level-found [] h = ([], [], refl, refl, h)
  suffix_in_level-found (c ∷ s) h = elim (Bool-cases (f (c ∷ s))) [
    | inl here ↦ ([], c ∷ s, refl, refl, here)
    | inr later ↦
        let (t, u, e, d, k) = suffix_in_level-found s (ground (arith, h, later)) in
        (c ∷ t, u, ap (λ l. c ∷ l) e, ground (arith, h, later, d), k)
  ]

  suffix_in_level-append :
      (t u : Text) → has_byte b'.' t ≡ false → f u ≡ true → suffix_in_level f (t ++ u) ≡ true
  unfolding suffix_in_level
  suffix_in_level-append [] [] d h = h
  suffix_in_level-append [] (c ∷ u) d h = ground (arith, h)
  suffix_in_level-append (c ∷ t) u d h = ground (arith, d, suffix_in_level-append t u)

module _ (c : ℕ) (pat : Text) (go : Text → Bool) (After : Text → Type 0) where
  match_byte-ByKind :
      (k : Kind) (s : Text)
      → ((u : Text) → go u ≡ true → After u)
      → (pat ≡ [] → After [])
      → match_byte k c pat go s ≡ true
      → ByKind k c After s
  unfolding match_byte byte_then
  match_byte-ByKind star s sound last h = elim (Bool-cases (text_eq pat [])) [
    | inl e ↦ (s, [], sym (append-nil s), last ((text_eq_iff pat []).0 e))
    | inr more ↦
        let (t, u, e, k) = some_suffix-found go s (ground (arith, h, more)) in (t, u, e, sound u k)
  ]
  match_byte-ByKind percent s sound last h =
      let (t, u, e, d, k) = suffix_in_level-found go s h in (t, u, e, d, sound u k)
  match_byte-ByKind plain [] sound last h = cc
  match_byte-ByKind plain (d ∷ s) sound last h = (s, ground (arith, h), sound s (ground (arith, h)))

  ByKind-match_byte :
      (k : Kind) (s : Text)
      → ((u : Text) → After u → go u ≡ true)
      → ByKind k c After s
      → match_byte k c pat go s ≡ true
  unfolding match_byte byte_then
  ByKind-match_byte star s complete (t, u, e, k) =
      let found : some_suffix go s ≡ true =
        ap (some_suffix go) e ∙ some_suffix-append go t u (complete u k) in
      ground (arith, found)
  ByKind-match_byte percent s complete (t, u, e, d, k) =
      ap (suffix_in_level go) e ∙ suffix_in_level-append go t u d (complete u k)
  ByKind-match_byte plain s complete (u, e, k) =
      ap (byte_then go c) e ∙ ground (arith, complete u k)

wildcard-Matches : (pat s : Text) → wildcard pat s ≡ true → Matches pat s
unfolding wildcard
wildcard-Matches [] s h = (text_eq_iff s []).0 h
wildcard-Matches (c ∷ pat) s h = (kind_of-Stands c (Matches pat) s).0 (
    match_byte-ByKind c pat (wildcard pat) (Matches pat) (kind_of c) s (wildcard-Matches pat)
      (λ e. subst (λ q. Matches q []) (sym e) refl) h)

Matches-wildcard : (pat s : Text) → Matches pat s → wildcard pat s ≡ true
unfolding wildcard
Matches-wildcard [] s h = (text_eq_iff s []).1 h
Matches-wildcard (c ∷ pat) s h =
    ByKind-match_byte c pat (wildcard pat) (Matches pat) (kind_of c) s (Matches-wildcard pat)
      ((kind_of-Stands c (Matches pat) s).1 h)

-- A folder's name matches a pattern of LIST exactly if the two are the same but for the case of
-- letters, or if the name can be cut into parts that the pattern's bytes stand for one after the
-- other: any bytes for an asterisk, any bytes but dots for a percent sign, and the byte itself
-- for every other one.
pub match_pattern_iff :
    (pat name : Text)
    → (match_pattern pat name ≡ true) ↔ ((to_lower pat ≡ to_lower name) ⊎ Matches pat name)
unfolding match_pattern
match_pattern_iff [] [] = (λ h. inr refl, λ m. refl)
match_pattern_iff [] (d ∷ name) =
    (λ h. absurd (cc h), λ m. elim m [ inl e ↦ absurd (cc e) | inr e ↦ absurd (cc e) ])
match_pattern_iff (c ∷ pat) name =
    elim (Bool-cases (text_eq (to_lower (c ∷ pat)) (to_lower name))) [
      | inl same ↦ (λ h. inl ((text_eq_iff _ _).0 same), λ m. ground (arith, same))
      | inr other ↦ (
        λ h. inr (wildcard-Matches (c ∷ pat) name (ground (arith, h, other))),
        λ m. elim m [
          | inl e ↦ absurd (cc ((text_eq_iff _ _).1 e, other))
          | inr matches ↦ ground (arith, other, Matches-wildcard (c ∷ pat) name matches)
        ],
      )
    ]
