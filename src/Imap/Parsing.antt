-- ===== src/Imap/Parsing.antt =====
-- The command lines and sequence sets of internal/imap/parse.go. The parser's position is the text that
-- is left of the line. Reading a literal from the connection is a parameter; it is read at most once for
-- a line, since nothing of the line is left after it.
pub mod Sets
pub mod Enough
pub mod Written
use verta.Common.{
  within, decimal, text_eq, split_on, ℕ, zero, suc, ◌*◌, Text, codes, Bool, true, false, ◌&&◌, ◌||◌,
  not, ◌==◌, if◌then◌else◌, List, [], ◌∷◌, ◌++◌, Option, none, some, leb, ltb, length, cut,
  to_upper, trim_suffix, atoi, pos, negsuc,
}

-- An atom or a quoted string, the text of a literal, or a parenthesized list.
mutual
  pub data Token : Type 0 where
    text : Text → Token
    literal_text : Text → Token
    group : Tokens → Token

  pub data Tokens : Type 0 where
    no_tokens : Tokens
    also : Token → Tokens → Tokens

-- The string of a token, which a list has not.
unfoldable pub token_string : Token → Text
token_string (text s) = s
token_string (literal_text s) = s
token_string (group ts) = []

unfoldable pub token_upper : Token → Text
unfolding token_string to_upper
token_upper t = to_upper (token_string t)

-- What was read and the text that is left of the line, a parse error, or that the fuel was too little.
pub data Parsed {ℓ} (A : Type ℓ) : Type ℓ where
  parsed : A → Text → Parsed A
  failed : Parsed A
  no_fuel : Parsed A

unfoldable pub skip_space : Text → Text
skip_space [] = []
skip_space (c ∷ s) = let later = skip_space s in if c == 32 then later else c ∷ s

-- Whether a byte ends an atom.
unfoldable pub ends_atom : ℕ → Bool
ends_atom c = c == 32 || c == b'(' || c == b')'

unfoldable pub atom_bytes : Text → Text × Text
unfolding ends_atom
atom_bytes [] = ([], [])
atom_bytes (c ∷ s) =
    let later = atom_bytes s in if ends_atom c then ([], c ∷ s) else (c ∷ later.0, later.1)

-- An atom is not empty.
unfoldable pub atom_token : Text → Text → Parsed Token
atom_token [] after = failed
atom_token (c ∷ atom) after = parsed (text (c ∷ atom)) after

unfoldable pub parse_atom : Text → Parsed Token
unfolding atom_bytes atom_token
parse_atom s = atom_token (atom_bytes s).0 (atom_bytes s).1

-- What follows the opening quote, with the bytes read so far.
unfoldable pub parse_quoted : Text → Text → Parsed Token
parse_quoted read [] = failed
parse_quoted read (c ∷ []) = if c == b'"' then parsed (text read) [] else failed
parse_quoted read (c ∷ d ∷ s) = elim (c == b'\\') [
  | true ↦ parse_quoted (read ++ d ∷ []) s
  | false ↦ elim (c == b'"') [
    | true ↦ parsed (text read) (d ∷ s)
    | false ↦ parse_quoted (read ++ c ∷ []) (d ∷ s)
  ]
]

abbrev pub max_literal : ℕ
max_literal = 64 * 1024 * 1024

-- The size between the braces.
unfoldable pub literal_size : Text → Option ℕ
unfolding trim_suffix atoi
literal_size spec = elim (atoi (trim_suffix b'+' spec)) [
  | none ↦ none
  | some (negsuc n) ↦ none
  | some (pos n) ↦ if ltb max_literal n then none else some n
]

-- What follows the opening brace; the rest of the line is dropped.
unfoldable pub parse_literal : Option (ℕ → Option Text) → Text → Parsed Token
unfolding cut literal_size
parse_literal none s = failed
parse_literal (some read) s = elim (cut (codes "}") s) [
  | none ↦ failed
  | some (spec, after) ↦ elim (literal_size spec) [
    | none ↦ failed
    | some n ↦ elim (read n) [ none ↦ failed | some t ↦ parsed (literal_text t) [] ]
  ]
]

unfoldable pub with_token : Token → Parsed Tokens → Parsed Tokens
with_token t (parsed ts after) = parsed (also t ts) after
with_token t failed = failed
with_token t no_fuel = no_fuel

-- The tokens up to a closing parenthesis; `go` reads one token, and the number bounds how many.
unfoldable pub list_items : (Text → Parsed Token) → ℕ → Text → Parsed Tokens
unfolding skip_space with_token
list_items go zero s = no_fuel
list_items go (suc m) s = elim (skip_space s) [
  | [] ↦ failed
  | c ∷ rest ↦ elim (c == b')') [
    | true ↦ parsed no_tokens rest
    | false ↦ elim (go (c ∷ rest)) [
      | failed ↦ failed
      | no_fuel ↦ no_fuel
      | parsed t after ↦ with_token t (list_items go m after)
    ]
  ]
]

unfoldable pub as_group : Parsed Tokens → Parsed Token
as_group (parsed ts after) = parsed (group ts) after
as_group failed = failed
as_group no_fuel = no_fuel

-- One token. The number bounds how deep lists are nested.
unfoldable pub next : Option (ℕ → Option Text) → ℕ → Text → Parsed Token
unfolding skip_space list_items as_group parse_quoted parse_literal parse_atom
next read zero s = no_fuel
next read (suc n) s = elim (skip_space s) [
  | [] ↦ failed
  | c ∷ rest ↦ elim (c == b'(') [
    | true ↦ as_group (list_items (next read n) (suc (length rest)) rest)
    | false ↦ elim (c == b'"') [
      | true ↦ parse_quoted [] rest
      | false ↦ elim (c == b'{') [ true ↦ parse_literal read rest | false ↦ parse_atom (c ∷ rest) ]
    ]
  ]
]

-- The tokens up to the end of the line.
unfoldable pub all_tokens : (Text → Parsed Token) → ℕ → Text → Parsed Tokens
unfolding skip_space with_token
all_tokens go zero s = no_fuel
all_tokens go (suc m) s = elim (skip_space s) [
  | [] ↦ parsed no_tokens []
  | c ∷ rest ↦ elim (go (c ∷ rest)) [
    | failed ↦ failed
    | no_fuel ↦ no_fuel
    | parsed t after ↦ with_token t (all_tokens go m after)
  ]
]

-- All tokens of a line.
unfoldable pub parse_line : Option (ℕ → Option Text) → Text → Parsed Tokens
unfolding all_tokens next
parse_line read s = all_tokens (next read (suc (length s))) (suc (length s)) s

-- A string as an IMAP quoted string.
unfoldable pub escaped : Text → Text
escaped [] = []
escaped (c ∷ s) =
    let later = escaped s in if c == b'"' || c == b'\\' then b'\\' ∷ c ∷ later else c ∷ later

unfoldable pub quote : Text → Text
unfolding escaped
quote s = b'"' ∷ (escaped s ++ b'"' ∷ [])

-- ^uint32(0), which stands for "*".
abbrev pub max_uint32 : ℕ
max_uint32 = 4294967295

unfoldable pub parse_seq_num : Text → Option ℕ
unfolding text_eq decimal within
parse_seq_num s =
    if text_eq s (codes "*") then some max_uint32 else elim (within max_uint32 (decimal s)) [
      | none ↦ none
      | some n ↦ if n == 0 then none else some n
    ]

-- The two ends of a part, in order; a part without a colon is one number.
unfoldable pub parse_range : Text → Option (ℕ × ℕ)
unfolding cut parse_seq_num
parse_range part = elim (cut (codes ":") part) [
  | none ↦ elim (parse_seq_num part) [ none ↦ none | some a ↦ some (a, a) ]
  | some (lo, hi) ↦ elim (parse_seq_num lo) [
    | none ↦ none
    | some a ↦ elim (parse_seq_num hi) [
      | none ↦ none
      | some b ↦ some (if ltb b a then (b, a) else (a, b))
    ]
  ]
]

unfoldable pub parse_ranges : List Text → Option (List (ℕ × ℕ))
unfolding parse_range
parse_ranges [] = some []
parse_ranges (part ∷ parts) = elim (parse_range part) [
  | none ↦ none
  | some r ↦ elim (parse_ranges parts) [ none ↦ none | some rs ↦ some (r ∷ rs) ]
]

unfoldable pub parse_seq_set : Text → Option (List (ℕ × ℕ))
unfolding parse_ranges split_on
parse_seq_set [] = none
parse_seq_set (c ∷ s) = parse_ranges (split_on b',' (c ∷ s))

-- What an end of a range stands for, where max is the highest number of the mailbox.
unfoldable pub resolved : ℕ → ℕ → ℕ
resolved max a = if a == max_uint32 then max else a

unfoldable pub range_contains : ℕ → ℕ → ℕ × ℕ → Bool
unfolding resolved
range_contains n max (lo, hi) =
    let a = resolved max lo in
    let b = resolved max hi in if ltb b a then leb b n && leb n a else leb a n && leb n b

-- seqSet.contains
unfoldable pub set_contains : ℕ → ℕ → List (ℕ × ℕ) → Bool
unfolding range_contains
set_contains n max [] = false
set_contains n max (r ∷ rs) = range_contains n max r || set_contains n max rs
