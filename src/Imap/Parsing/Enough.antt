-- ===== src/Imap/Parsing/Enough.antt =====
-- That the parser of internal/imap/parse.go always comes to an end.
use verta.Common.{
  ◌-◌, subst, ℕ, zero, suc, ◌+◌, ◌≤◌, ◌<◌, ◌≡◌, ◌≢◌, refl, Text, codes, false, ◌==◌, [], ◌∷◌, ◌++◌,
  Option, none, some, length, cut, arith, Bool-cases, Option-cases, inl, inr,
}
use verta.Imap.Parsing.{
  Token, Tokens, Parsed, parsed, failed, no_fuel, skip_space, atom_bytes, parse_atom, parse_quoted,
  parse_literal, with_token, list_items, as_group, next, all_tokens, parse_line, literal_size,
  ends_atom,
}

-- A result that did not run out of fuel, and that leaves at most so many bytes if it is one.
abbrev pub Ends {ℓ} : {A : Type ℓ} → ℕ → Parsed A → Type 0
Ends bound (parsed a after) = length after ≤ bound
Ends bound failed = Unit
Ends bound no_fuel = ⊥

skip_space-length : (s : Text) → length (skip_space s) ≤ length s
unfolding skip_space
skip_space-length [] = omega arith
skip_space-length (c ∷ s) = ground (arith, skip_space-length s)

atom_bytes-length : (s : Text) → length (atom_bytes s).1 + length (atom_bytes s).0 ≡ length s
unfolding atom_bytes
atom_bytes-length [] = omega arith
atom_bytes-length (c ∷ s) = ground (arith, atom_bytes-length s)

Ends-le {ℓ} : {A : Type ℓ} (k m : ℕ) (p : Parsed A) → k ≤ m → Ends k p → Ends m p
Ends-le k m (parsed a after) h e = omega arith
Ends-le k m failed h e = tt
Ends-le k m no_fuel h e = e

parse_atom-Ends : (c : ℕ) (s : Text) → Ends (length s) (parse_atom (c ∷ s))
unfolding parse_atom atom_bytes
parse_atom-Ends c s = elim (Bool-cases (ends_atom c)) [
  | inl ends ↦ rw ends tt
  | inr more ↦ rw more (omega (arith, atom_bytes-length s))
]

parse_quoted-Ends : (read s : Text) → Ends (length s) (parse_quoted read s)
unfolding parse_quoted
parse_quoted-Ends read [] = tt
parse_quoted-Ends read (c ∷ []) = elim (Bool-cases (c == b'"')) [
  | inl closes ↦ rw closes (omega arith)
  | inr more ↦ rw more tt
]
parse_quoted-Ends read (c ∷ d ∷ s) = elim (Bool-cases (c == b'\\')) [
  | inl escapes ↦
      rw (parse_quoted, escapes)
        (Ends-le _ _ (parse_quoted (read ++ d ∷ []) s) (omega arith)
          (parse_quoted-Ends (read ++ d ∷ []) s))
  | inr plain ↦ elim (Bool-cases (c == b'"')) [
    | inl closes ↦ rw (parse_quoted, plain, closes) (omega arith)
    | inr more ↦
        rw (parse_quoted, plain, more)
          (Ends-le _ _ (parse_quoted (read ++ c ∷ []) (d ∷ s)) (omega arith)
            (parse_quoted-Ends (read ++ c ∷ []) (d ∷ s)))
  ]
]

parse_literal-Ends :
    (read : Option (ℕ → Option Text)) (s : Text) → Ends (length s) (parse_literal read s)
unfolding parse_literal
parse_literal-Ends none s = tt
parse_literal-Ends (some read) s = elim (Option-cases (cut (codes "}") s)) [
  | inl missing ↦ rw (parse_literal, missing) tt
  | inr ((spec, after), found) ↦ elim (Option-cases (literal_size spec)) [
    | inl invalid ↦ rw (parse_literal, found, invalid) tt
    | inr (n, size) ↦ elim (Option-cases (read n)) [
      | inl lost ↦ rw (parse_literal, found, size, lost) tt
      | inr (t, got) ↦ rw (parse_literal, found, size, got) (omega arith)
    ]
  ]
]

with_token-Ends : (k : ℕ) (t : Token) (p : Parsed Tokens) → Ends k p → Ends k (with_token t p)
unfolding with_token
with_token-Ends k t (parsed ts after) h = h
with_token-Ends k t failed h = h
with_token-Ends k t no_fuel h = h

as_group-Ends : (k : ℕ) (p : Parsed Tokens) → Ends k p → Ends k (as_group p)
unfolding as_group
as_group-Ends k (parsed ts after) h = h
as_group-Ends k failed h = h
as_group-Ends k no_fuel h = h

-- A way to read one token that ends on texts of at most a length, and takes at least a byte of them.
abbrev Reads : (Text → Parsed Token) → ℕ → Type 0
Reads go bound = (c : ℕ) (s : Text) → length (c ∷ s) ≤ bound → Ends (length s) (go (c ∷ s))

list_items-Ends :
    (go : Text → Parsed Token) (m : ℕ) (s : Text)
    → Reads go (length s)
    → length s < m
    → Ends (length s) (list_items go m s)
unfolding list_items
list_items-Ends go zero s reads h = ground (arith, h)
list_items-Ends go (suc m) s reads h = by_space (skip_space s) refl (λ after l.
    list_items-Ends go m after (λ d u k. reads d u (omega (arith, l, k))) (omega (arith, l, h)))
  where
    by_token :
        (c : ℕ) (rest : Text)
        → skip_space s ≡ c ∷ rest
        → length (c ∷ rest) ≤ length s
        → (c == b')') ≡ false
        → (p : Parsed Token) → go (c ∷ rest) ≡ p
        → ((after : Text) → length after < length s → Ends (length after) (list_items go m after))
        → Ends (length s) (list_items go (suc m) s)
    by_token c rest e le other failed g ih = rw (list_items, e, other, g) tt
    by_token c rest e le other no_fuel g ih =
        absurd (subst (Ends (length rest)) g (reads c rest le))
    by_token c rest e le other (parsed t after) g ih =
        let shorter : length after ≤ length rest = subst (Ends (length rest)) g (reads c rest le) in
        rw (list_items, e, other, g)
          (Ends-le (length after) (length s) (with_token t (list_items go m after)) (omega arith) (
            with_token-Ends (length after) t (list_items go m after)
              (ih after (omega (arith, shorter, le)))))

    by_space :
        (u : Text)
        → skip_space s ≡ u
        → ((after : Text) → length after < length s → Ends (length after) (list_items go m after))
        → Ends (length s) (list_items go (suc m) s)
    by_space [] e ih = rw (list_items, e) tt
    by_space (c ∷ rest) e ih =
        let le : length (c ∷ rest) ≤ length s =
          subst (λ u. length u ≤ length s) e (skip_space-length s) in
        elim (Bool-cases (c == b')')) [
          | inl closes ↦ rw (list_items, e, closes) (omega (arith, le))
          | inr other ↦ by_token c rest e le other (go (c ∷ rest)) refl ih
        ]

all_tokens-Ends :
    (go : Text → Parsed Token) (m : ℕ) (s : Text)
    → Reads go (length s)
    → length s < m
    → Ends (length s) (all_tokens go m s)
unfolding all_tokens
all_tokens-Ends go zero s reads h = ground (arith, h)
all_tokens-Ends go (suc m) s reads h = by_space (skip_space s) refl (λ after l.
    all_tokens-Ends go m after (λ d u k. reads d u (omega (arith, l, k))) (omega (arith, l, h)))
  where
    by_token :
        (c : ℕ) (rest : Text)
        → skip_space s ≡ c ∷ rest
        → length (c ∷ rest) ≤ length s
        → (p : Parsed Token) → go (c ∷ rest) ≡ p
        → ((after : Text) → length after < length s → Ends (length after) (all_tokens go m after))
        → Ends (length s) (all_tokens go (suc m) s)
    by_token c rest e le failed g ih = rw (all_tokens, e, g) tt
    by_token c rest e le no_fuel g ih = absurd (subst (Ends (length rest)) g (reads c rest le))
    by_token c rest e le (parsed t after) g ih =
        let shorter : length after ≤ length rest = subst (Ends (length rest)) g (reads c rest le) in
        rw (all_tokens, e, g)
          (Ends-le (length after) (length s) (with_token t (all_tokens go m after)) (omega arith) (
            with_token-Ends (length after) t (all_tokens go m after)
              (ih after (omega (arith, shorter, le)))))

    by_space :
        (u : Text)
        → skip_space s ≡ u
        → ((after : Text) → length after < length s → Ends (length after) (all_tokens go m after))
        → Ends (length s) (all_tokens go (suc m) s)
    by_space [] e ih = rw (all_tokens, e) (omega arith)
    by_space (c ∷ rest) e ih =
        let le : length (c ∷ rest) ≤ length s =
          subst (λ u. length u ≤ length s) e (skip_space-length s) in
        by_token c rest e le (go (c ∷ rest)) refl ih

-- One token is read from a text that is no longer than the fuel, and takes a byte if there is one.
pub next-Ends :
    (read : Option (ℕ → Option Text)) (n : ℕ) (s : Text)
    → length s ≤ n
    → 0 < n
    → Ends (length s - 1) (next read n s)
unfolding next
next-Ends read zero s h p = ground (arith, p)
next-Ends read (suc n) s h p = by_space (skip_space s) refl (λ d u l.
    Ends-le (length (d ∷ u) - 1) (length u) (next read n (d ∷ u)) (omega arith)
      (next-Ends read n (d ∷ u) l (omega (arith, l))))
  where
    shorter : (rest : Text) (c : ℕ) → skip_space s ≡ c ∷ rest → length rest ≤ length s - 1
    shorter rest c e =
        let le : length (c ∷ rest) ≤ length s =
          subst (λ u. length u ≤ length s) e (skip_space-length s) in
        omega (arith, le)

    by_space :
        (u : Text)
        → skip_space s ≡ u
        → ((d : ℕ) (u : Text) → length (d ∷ u) ≤ n → Ends (length u) (next read n (d ∷ u)))
        → Ends (length s - 1) (next read (suc n) s)
    by_space [] e ih = rw (next, e) tt
    by_space (c ∷ rest) e ih =
        Ends-le (length rest) (length s - 1) (next read (suc n) s) (shorter rest c e)
          (elim (Bool-cases (c == b'(')) [
            | inl opens ↦
                rw (next, e, opens)
                  (as_group-Ends (length rest) (list_items (next read n) (suc (length rest)) rest) (
                    list_items-Ends (next read n) (suc (length rest)) rest
                      (λ d u l. ih d u (omega (arith, l, shorter rest c e, h))) (omega arith)))
            | inr no_list ↦ elim (Bool-cases (c == b'"')) [
              | inl quotes ↦ rw (next, e, no_list, quotes) (parse_quoted-Ends [] rest)
              | inr no_quote ↦ elim (Bool-cases (c == b'{')) [
                | inl counts ↦
                    rw (next, e, no_list, no_quote, counts) (parse_literal-Ends read rest)
                | inr atom ↦ rw (next, e, no_list, no_quote, atom) (parse_atom-Ends c rest)
              ]
            ]
          ])

-- Reading all tokens of a line comes to an end, with the tokens or with a parse error, with as
-- much fuel for the nesting and for the tokens of each list as the line has bytes, and one more.
pub parse_line-Ends : (read : Option (ℕ → Option Text)) (s : Text) → parse_line read s ≢ no_fuel
unfolding parse_line
parse_line-Ends read s e = subst (Ends (length s)) e (
    all_tokens-Ends (next read (suc (length s))) (suc (length s)) s
      (λ c u l.
        Ends-le (length (c ∷ u) - 1) (length u) (next read (suc (length s)) (c ∷ u)) (omega arith)
          (next-Ends read (suc (length s)) (c ∷ u) (omega (arith, l)) (omega arith)))
      (omega arith))
