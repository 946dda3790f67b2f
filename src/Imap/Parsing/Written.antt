-- ===== src/Imap/Parsing/Written.antt =====
-- That the parser of internal/imap/parse.go reads back what its function quote writes, in lists as well.
use verta.Common.{
  ℕ, zero, suc, ◌+◌, ◌≤◌, ◌<◌, ◌≡◌, refl, ap, ◌∙◌, sym, Text, false, ◌==◌, ◌||◌, [], ◌∷◌, ◌++◌,
  Option, length, length-append, arith, Bool-cases, inl, inr,
}
use mathlib.Core.List.{append_assoc, append-nil}
use verta.Imap.Parsing.{
  Token, Tokens, no_tokens, also, text, literal_text, group, Parsed, parsed, skip_space,
  parse_quoted, with_token, list_items, as_group, next, all_tokens, parse_line, escaped, quote,
}

-- A token as quoted strings and parenthesized lists; a space follows each element of a list.
unfoldable mutual
  unfolding quote

  pub written : Token → Text
  written (text s) = quote s
  written (literal_text s) = []
  written (group ts) = b'(' ∷ (written_all ts ++ b')' ∷ [])

  pub written_all : Tokens → Text
  written_all no_tokens = []
  written_all (also t ts) = written t ++ 32 ∷ written_all ts

-- Tokens without literals.
unfoldable mutual
  pub IsQuoted : Token → Type 0
  IsQuoted (text s) = Unit
  IsQuoted (literal_text s) = ⊥
  IsQuoted (group ts) = AllQuoted ts

  pub AllQuoted : Tokens → Type 0
  AllQuoted no_tokens = Unit
  AllQuoted (also t ts) = IsQuoted t × AllQuoted ts

parse_quoted-byte :
    (read : Text) (c d : ℕ) (u : Text)
    → (c == b'"' || c == b'\\') ≡ false
    → parse_quoted read (c ∷ d ∷ u) ≡ parse_quoted (read ++ c ∷ []) (d ∷ u)
unfolding parse_quoted
parse_quoted-byte read c d u h = ground (arith, h)

parse_quoted-quote : (read rest : Text) → parse_quoted read (b'"' ∷ rest) ≡ parsed (text read) rest
unfolding parse_quoted
parse_quoted-quote read [] = refl
parse_quoted-quote read (d ∷ rest) = refl

-- What follows a byte of an escaped text is not empty.
parse_quoted-plain :
    (read : Text) (c : ℕ) (u rest : Text)
    → (c == b'"' || c == b'\\') ≡ false
    → parse_quoted read (c ∷ (u ++ b'"' ∷ rest)) ≡ parse_quoted (read ++ c ∷ []) (u ++ b'"' ∷ rest)
parse_quoted-plain read c [] rest h = parse_quoted-byte read c b'"' rest h
parse_quoted-plain read c (d ∷ u) rest h = parse_quoted-byte read c d (u ++ b'"' ∷ rest) h

parse_quoted-escaped :
    (read s rest : Text)
    → parse_quoted read (escaped s ++ b'"' ∷ rest) ≡ parsed (text (read ++ s)) rest
unfolding escaped parse_quoted
parse_quoted-escaped read [] rest =
    parse_quoted-quote read rest ∙ ap (λ l. parsed (text l) rest) (sym (append-nil read))
parse_quoted-escaped read (c ∷ s) rest =
    elim (Bool-cases (c == b'"' || c == b'\\')) [
      | inl special ↦ rw special (parse_quoted-escaped (read ++ c ∷ []) s rest)
      | inr plain ↦ rw plain (
          parse_quoted-plain read c (escaped s) rest plain
          ∙ parse_quoted-escaped (read ++ c ∷ []) s rest)
    ]
    ∙ ap (λ l. parsed (text l) rest) (append_assoc read (c ∷ []) s)

-- What is read first is no space and no closing parenthesis.
list_items-token :
    (go : Text → Parsed Token) (m c : ℕ) (u after : Text) (t : Token)
    → (c == 32) ≡ false
    → (c == b')') ≡ false
    → go (c ∷ u) ≡ parsed t after
    → list_items go (suc m) (c ∷ u) ≡ with_token t (list_items go m after)
unfolding list_items skip_space
list_items-token go m c u after t h k g = rw (list_items, skip_space, h, k, g) refl

all_tokens-token :
    (go : Text → Parsed Token) (m c : ℕ) (u after : Text) (t : Token)
    → (c == 32) ≡ false
    → go (c ∷ u) ≡ parsed t after
    → all_tokens go (suc m) (c ∷ u) ≡ with_token t (all_tokens go m after)
unfolding all_tokens skip_space
all_tokens-token go m c u after t h g = rw (all_tokens, skip_space, h, g) refl

list_items-space :
    (go : Text → Parsed Token) (m : ℕ) (u : Text)
    → list_items go (suc m) (32 ∷ u) ≡ list_items go (suc m) u
unfolding list_items skip_space
list_items-space go m u = refl

all_tokens-space :
    (go : Text → Parsed Token) (m : ℕ) (u : Text)
    → all_tokens go (suc m) (32 ∷ u) ≡ all_tokens go (suc m) u
unfolding all_tokens skip_space
all_tokens-space go m u = refl

list_items-written_token :
    (go : Text → Parsed Token) (m : ℕ) (t : Token) (after : Text)
    → IsQuoted t
    → go (written t ++ after) ≡ parsed t after
    → list_items go (suc m) (written t ++ after) ≡ with_token t (list_items go m after)
unfolding written IsQuoted quote
list_items-written_token go m (text s) after q g =
    list_items-token go m b'"' (escaped s ++ b'"' ∷ [] ++ after) after (text s) refl refl g
list_items-written_token go m (literal_text s) after q g = absurd q
list_items-written_token go m (group ts) after q g =
    list_items-token go m b'(' (written_all ts ++ b')' ∷ [] ++ after) after (group ts) refl refl g

all_tokens-written_token :
    (go : Text → Parsed Token) (m : ℕ) (t : Token) (after : Text)
    → IsQuoted t
    → go (written t ++ after) ≡ parsed t after
    → all_tokens go (suc m) (written t ++ after) ≡ with_token t (all_tokens go m after)
unfolding written IsQuoted quote
all_tokens-written_token go m (text s) after q g =
    all_tokens-token go m b'"' (escaped s ++ b'"' ∷ [] ++ after) after (text s) refl g
all_tokens-written_token go m (literal_text s) after q g = absurd q
all_tokens-written_token go m (group ts) after q g =
    all_tokens-token go m b'(' (written_all ts ++ b')' ∷ [] ++ after) after (group ts) refl g

written-length : (t : Token) → IsQuoted t → 0 < length (written t)
unfolding written IsQuoted quote
written-length (text s) q = omega arith
written-length (literal_text s) q = absurd q
written-length (group ts) q = omega arith

written_all-also :
    (t : Token) (ts : Tokens)
    → length (written_all (also t ts)) ≡ length (written t) + suc (length (written_all ts))
unfolding written
written_all-also t ts = length-append (written t) (32 ∷ written_all ts)

also-append :
    (t : Token) (ts : Tokens) (rest : Text)
    → written_all (also t ts) ++ rest ≡ written t ++ 32 ∷ (written_all ts ++ rest)
unfolding written
also-append t ts rest = append_assoc (written t) (32 ∷ written_all ts) rest

mutual
  unfolding written IsQuoted quote next list_items as_group

  next-written :
      (read : Option (ℕ → Option Text)) (n : ℕ) (t : Token) (rest : Text)
      → IsQuoted t
      → length (written t) ≤ n
      → next read n (written t ++ rest) ≡ parsed t rest
  next-written read zero t rest q h = ground (arith, h, written-length t q)
  next-written read (suc n) (text s) rest q h =
      ap (parse_quoted []) (append_assoc (escaped s) (b'"' ∷ []) rest)
      ∙ parse_quoted-escaped [] s rest
  next-written read (suc n) (literal_text s) rest q h = absurd q
  next-written read (suc n) (group ts) rest q h =
      ap (λ u. as_group (list_items (next read n) (suc (length u)) u))
        (append_assoc (written_all ts) (b')' ∷ []) rest)
      ∙ ap as_group (
          list_items-written read n (suc (length (written_all ts ++ b')' ∷ rest))) ts rest q
            (omega (arith, h, length-append (written_all ts) (b')' ∷ [])))
            (omega (arith, length-append (written_all ts) (b')' ∷ rest))))

  list_items-written :
      (read : Option (ℕ → Option Text)) (n m : ℕ) (ts : Tokens) (rest : Text)
      → AllQuoted ts
      → length (written_all ts) ≤ n
      → length (written_all ts) < m
      → list_items (next read n) m (written_all ts ++ b')' ∷ rest) ≡ parsed ts rest
  list_items-written read n zero ts rest q h k = ground (arith, k)
  list_items-written read n (suc m) no_tokens rest q h k = refl
  list_items-written read n (suc zero) (also t ts) rest q h k =
      ground (arith, k, written_all-also t ts, written-length t q.0)
  list_items-written read n (suc (suc m)) (also t ts) rest q h k =
      ap (list_items (next read n) (suc (suc m))) (also-append t ts (b')' ∷ rest))
      ∙ list_items-written_token (next read n) (suc m) t _ q.0 (
          next-written read n t (32 ∷ (written_all ts ++ b')' ∷ rest)) q.0
            (omega (arith, h, written_all-also t ts)))
      ∙ ap (with_token t) (
          list_items-written read n (suc m) ts rest q.1 (omega (arith, h, written_all-also t ts))
            (omega (arith, k, written_all-also t ts)))

all_tokens-written :
    (read : Option (ℕ → Option Text)) (n m : ℕ) (ts : Tokens)
    → AllQuoted ts
    → length (written_all ts) ≤ n
    → length (written_all ts) < m
    → all_tokens (next read n) m (written_all ts) ≡ parsed ts []
unfolding written IsQuoted all_tokens skip_space
all_tokens-written read n zero ts q h k = ground (arith, k)
all_tokens-written read n (suc m) no_tokens q h k = refl
all_tokens-written read n (suc zero) (also t ts) q h k =
    ground (arith, k, written_all-also t ts, written-length t q.0)
all_tokens-written read n (suc (suc m)) (also t ts) q h k =
    all_tokens-written_token (next read n) (suc m) t (32 ∷ written_all ts) q.0
      (next-written read n t (32 ∷ written_all ts) q.0 (omega (arith, h, written_all-also t ts)))
    ∙ ap (with_token t) (
        all_tokens-written read n (suc m) ts q.1 (omega (arith, h, written_all-also t ts))
          (omega (arith, k, written_all-also t ts)))

-- Let tokens be strings and lists of such tokens, lists of lists included. The line in which each
-- string is written by quote, each list in parentheses and a space after each token, is read back
-- as those tokens, whatever bytes the strings have.
pub parse_line-written :
    (read : Option (ℕ → Option Text)) (ts : Tokens)
    → AllQuoted ts
    → parse_line read (written_all ts) ≡ parsed ts []
unfolding parse_line
parse_line-written read ts q =
    all_tokens-written read (suc (length (written_all ts))) (suc (length (written_all ts))) ts q
      (omega arith) (omega arith)
