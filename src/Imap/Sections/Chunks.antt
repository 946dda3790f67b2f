-- ===== src/Imap/Sections/Chunks.antt =====
-- A client that fetches a section in chunks.
use mathlib.Core.List.{reverse-append, reverse-reverse}
use verta.Common.{
  ℕ, zero, suc, ◌+◌, ◌*◌, ◌^◌, ◌<◌, ◌≤◌, pos, atoi, decimal, Text, codes, has_byte, cut-byte,
  has_prefix, true, false, [], ◌∷◌, ◌++◌, some, ◌≡◌, refl, arith, ap, ◌∙◌, sym, take, drop, length,
  reverse, is_digit, within,
}
use verta.Maildir.Mailbox.{Message}
use verta.Maildir.UidText.{show}
use verta.Maildir.UidText.Decimals.{show_cons, decimal-show, show-has_byte}
use verta.Imap.Flagging.{has_suffix}
use verta.Imap.Searching.{Reader}
use verta.Imap.Sections.{fetch_body, section_of, partial, sliced, inner, offset, limited}

atoi-show : (n : ℕ) → n < 2 ^ 63 → atoi (show n) ≡ some (pos n)
unfolding atoi within
atoi-show n h =
    let (c, s, e) = show_cons n in
    let value : decimal (c ∷ s) ≡ some n = ap decimal (sym e) ∙ decimal-show n in
    let no_minus : has_byte b'-' (c ∷ s) ≡ false =
      ap (has_byte b'-') (sym e) ∙ show-has_byte b'-' n refl in
    let no_plus : has_byte b'+' (c ∷ s) ≡ false =
      ap (has_byte b'+') (sym e) ∙ show-has_byte b'+' n refl in
    ap atoi e ∙ ground arith

offset-show : (n : ℕ) → n < 2 ^ 63 → offset (show n) ≡ n
unfolding offset
offset-show n h = rw (offset, atoi-show n h) refl

limited-show : (n : ℕ) (content : Text) → n < 2 ^ 63 → limited (show n) content ≡ take n content
unfolding limited
limited-show n content h = rw (limited, atoi-show n h) refl

-- What stands between the angle brackets.
abbrev pub range : ℕ → ℕ → Text
range off n = show off ++ b'.' ∷ show n

-- The item for a chunk of a section.
abbrev pub chunk_item : Text → ℕ → ℕ → Text
chunk_item section off n = (codes "BODY[" ++ section) ++ b']' ∷ b'<' ∷ (range off n ++ b'>' ∷ [])

sliced-range :
    (off n : ℕ) (content : Text)
    → off < 2 ^ 63
    → n < 2 ^ 63
    → sliced (range off n) content ≡ (off, take n (drop off content))
unfolding sliced is_digit
sliced-range off n content h k =
    rw (sliced, cut-byte b'.' (show off) (show n) (show-has_byte b'.' off refl))
      (λ i. (offset-show off h i, (limited-show n (drop (offset-show off h i) content) k) i))

has_suffix-append : (b : ℕ) (s : Text) → has_suffix (b ∷ []) (s ++ b ∷ []) ≡ true
unfolding has_suffix has_prefix
has_suffix-append b s = ap (has_prefix (b ∷ [])) (reverse-append s (b ∷ [])) ∙ ground arith

inner-append : (a b : ℕ) (s : Text) → inner (a ∷ (s ++ b ∷ [])) ≡ s
unfolding inner
inner-append a b s = ap (λ l. reverse (drop 1 l)) (reverse-append s (b ∷ [])) ∙ reverse-reverse s

partial-range :
    (name content s : Text)
    → partial name content (b'<' ∷ (s ++ b'>' ∷ []))
      ≡ record { name = name; origin = some (sliced s content).0; content = (sliced s content).1 }
unfolding partial has_prefix
partial-range name content s =
    ground (arith, has_suffix-append b'>' (b'<' ∷ s), inner-append b'<' b'>' s)

-- The bytes of a chunk.
fetch_body-chunk :
    (r : Reader) (m : Message) (section : Text) (off n : ℕ)
    → has_byte b']' section ≡ false
    → off < 2 ^ 63
    → n < 2 ^ 63
    → (fetch_body r m (chunk_item section off n)).content
      ≡ take n (drop off (section_of r m section))
unfolding fetch_body
fetch_body-chunk r m section off n solid h k =
    rw
      (cut-byte b']' (codes "BODY[" ++ section) (b'<' ∷ (range off n ++ b'>' ∷ []))
        (ground (arith, solid)))
      (ap (λ p. p.content) (partial-range section (section_of r m section) (range off n))
        ∙ ap (λ p. p.1) (sliced-range off n (section_of r m section) h k))

-- What a client reads that asks for a number of chunks of one size, one after the other.
abbrev pub read_chunks : Reader → Message → Text → ℕ → ℕ → ℕ → Text
read_chunks r m section n zero off = []
read_chunks r m section n (suc k) off =
    (fetch_body r m (chunk_item section off n)).content ++ read_chunks r m section n k (off + n)

take-append-drop : (n : ℕ) (s : Text) → take n s ++ drop n s ≡ s
take-append-drop zero s = refl
take-append-drop (suc n) [] = refl
take-append-drop (suc n) (c ∷ s) = ap (λ l. c ∷ l) (take-append-drop n s)

drop-nil : (n : ℕ) → drop {A = ℕ} n [] ≡ []
drop-nil zero = refl
drop-nil (suc n) = refl

drop-drop : (n off : ℕ) (s : Text) → drop n (drop off s) ≡ drop (off + n) s
drop-drop n zero s = ap (λ k. drop k s) (omega arith)
drop-drop n (suc off) [] = drop-nil n ∙ sym (drop-nil (suc off + n))
drop-drop n (suc off) (c ∷ s) =
    let e : suc (off + n) ≡ suc off + n = omega arith in
    drop-drop n off s ∙ ap (λ k. drop k (c ∷ s)) e

drop_all : (n : ℕ) (s : Text) → length s ≤ n → drop n s ≡ []
drop_all zero [] h = refl
drop_all zero (c ∷ s) h = absurd (omega (arith, h))
drop_all (suc n) [] h = refl
drop_all (suc n) (c ∷ s) h = drop_all n s (omega (arith, h))

read_chunks-drop :
    (r : Reader) (m : Message) (section : Text) (n k off : ℕ)
    → has_byte b']' section ≡ false
    → off + k * n < 2 ^ 63
    → n < 2 ^ 63
    → length (section_of r m section) ≤ off + k * n
    → read_chunks r m section n k off ≡ drop off (section_of r m section)
read_chunks-drop r m section n zero off solid h k long =
    sym (drop_all off (section_of r m section) (omega (arith, long)))
read_chunks-drop r m section n (suc k) off solid h small long =
    let content = section_of r m section in
    let more : suc k * n ≡ n + k * n = grind arith in
    ap (λ l. l ++ read_chunks r m section n k (off + n))
      (fetch_body-chunk r m section off n solid (omega (arith, h)) small)
    ∙ ap (λ l. take n (drop off content) ++ l)
        (read_chunks-drop r m section n k (off + n) solid (omega (arith, more, h)) small
            (omega (arith, more, long))
          ∙ sym (drop-drop n off content))
    ∙ take-append-drop n (drop off content)

-- Let a section have no closing bracket, and let chunks of one size below 2^63 be together below
-- 2^63 bytes and as long as the section or longer. What a client reads that fetches them one
-- after the other is the section.
pub read_chunks_lem :
    (r : Reader) (m : Message) (section : Text) (n k : ℕ)
    → has_byte b']' section ≡ false
    → k * n < 2 ^ 63
    → n < 2 ^ 63
    → length (section_of r m section) ≤ k * n
    → read_chunks r m section n k 0 ≡ section_of r m section
read_chunks_lem r m section n k solid h small long =
    read_chunks-drop r m section n k 0 solid (omega (arith, h)) small (omega (arith, long))
