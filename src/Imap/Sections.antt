-- ===== src/Imap/Sections.antt =====
-- BODY[section] and BODY[section]<offset.length> of internal/imap/fetch.go: fetchBody, section, headerOf,
-- fieldList and filterHeaders. Numbered parts, which mime.go finds, are an argument.
pub mod Chunks
use verta.Common.{
  ℕ, ℤ, pos, negsuc, atoi, Text, codes, text_eq, to_lower, to_upper, trim_space, is_space,
  has_prefix, cut, split_last, Bool, true, false, ◌&&◌, ◌||◌, not, ◌==◌, if◌then◌else◌, List, [],
  ◌∷◌, ◌++◌, Option, none, some, any, take, drop, reverse,
}
use verta.Maildir.Mailbox.{Message}
use verta.Imap.Searching.{Reader, body_of, trim_quotes}
use verta.Imap.Flagging.{has_suffix}

-- The header block with the blank line, or the whole text.
unfoldable pub header_of : Text → Text
unfolding cut
header_of s = elim (cut (13 ∷ 10 ∷ 13 ∷ 10 ∷ []) s) [
  | some (head, body) ↦ head ++ (13 ∷ 10 ∷ 13 ∷ 10 ∷ [])
  | none ↦ elim (cut (10 ∷ 10 ∷ []) s) [ some (head, body) ↦ head ++ (10 ∷ 10 ∷ []) | none ↦ s ]
]

-- A word that has begun, before the words that follow.
unfoldable pub begin_word : Text → List Text → List Text
begin_word [] words = words
begin_word (c ∷ s) words = (c ∷ s) ∷ words

-- strings.Fields, with the word that has begun
unfoldable pub words_from : Text → Text → List Text
unfolding is_space begin_word
words_from word [] = begin_word word []
words_from word (c ∷ s) =
    let rest = words_from (if is_space c then [] else word ++ c ∷ []) s in
    if is_space c then begin_word word rest else rest

unfoldable pub lower_names : List Text → List Text
unfolding trim_quotes to_lower
lower_names [] = []
lower_names (w ∷ words) = to_lower (trim_quotes w) ∷ lower_names words

-- The names between the first opening and the last closing parenthesis.
unfoldable pub field_list : Text → List Text
unfolding cut split_last words_from lower_names
field_list section = elim (cut (codes "(") section) [
  | none ↦ []
  | some (before, after) ↦ elim (split_last b')' after) [
    | none ↦ []
    | some (inner, tail) ↦ lower_names (words_from [] inner)
  ]
]

-- strings.SplitAfter at LF, with the line that has begun
unfoldable pub lines_after : Text → Text → List Text
lines_after l [] = l ∷ []
lines_after l (c ∷ s) =
    let rest = lines_after (if c == 10 then [] else l ++ c ∷ []) s in
    if c == 10 then (l ++ c ∷ []) ∷ rest else rest

unfoldable pub trim_crlf_left : Text → Text
trim_crlf_left [] = []
trim_crlf_left (c ∷ s) = let rest = trim_crlf_left s in if c == 13 || c == 10 then rest else c ∷ s

-- strings.TrimRight with CR and LF
unfoldable pub trim_crlf : Text → Text
unfolding trim_crlf_left
trim_crlf s = reverse (trim_crlf_left (reverse s))

unfoldable pub continues : Text → Bool
continues [] = false
continues (c ∷ s) = c == 32 || c == 9

unfoldable pub before_colon : Text → Text
unfolding cut
before_colon s = elim (cut (codes ":") s) [ none ↦ s | some (name, value) ↦ name ]

-- The loop over the lines, with whether the field of the line before is kept.
unfoldable pub filter_lines : (Text → Bool) → Bool → List Text → Text
unfolding trim_crlf continues before_colon text_eq to_lower trim_space
filter_lines wanted keeping [] = []
filter_lines wanted keeping (l ∷ lines) =
    let keeps_now =
      if text_eq (trim_crlf l) [] || continues l
      then keeping
      else wanted (to_lower (trim_space (before_colon (trim_crlf l)))) in
    let rest = filter_lines wanted keeps_now lines in
    if not (text_eq (trim_crlf l) []) && keeps_now then l ++ rest else rest

unfoldable pub filter_headers : Text → List Text → Bool → Text
unfolding filter_lines lines_after header_of text_eq
filter_headers s fields exclude =
    filter_lines
      (λ name. if exclude then not (any (text_eq name) fields) else any (text_eq name) fields) false
      (lines_after [] (header_of s))
    ++ (13 ∷ 10 ∷ [])

-- session.section on a text that was read
unfoldable pub section_text : Reader → Text → Text → Text
unfolding header_of body_of filter_headers field_list to_upper trim_space text_eq has_prefix
section_text r s section =
    let up = to_upper (trim_space section) in
    if text_eq up []
    then s
    else if text_eq up (codes "HEADER")
    then header_of s
    else if text_eq up (codes "TEXT")
    then body_of s
    else if has_prefix (codes "HEADER.FIELDS.NOT") up
    then filter_headers s (field_list section) true
    else if has_prefix (codes "HEADER.FIELDS") up
    then filter_headers s (field_list section) false
    else r.part s section

unfoldable pub section_of : Reader → Message → Text → Text
unfolding section_text
section_of r m section = elim (r.read_file m) [ none ↦ [] | some s ↦ section_text r s section ]

-- An offset that is no number, or a negative one, is 0.
unfoldable pub offset : Text → ℕ
offset s = elim (atoi s) [ none ↦ 0 | some (pos n) ↦ n | some (negsuc n) ↦ 0 ]

-- The bytes asked for; a length that is no number, or a negative one, asks for all.
unfoldable pub limited : Text → Text → Text
limited s content = elim (atoi s) [
  | none ↦ content
  | some (pos n) ↦ take n content
  | some (negsuc n) ↦ content
]

-- The offset and the bytes for what stands between the angle brackets.
unfoldable pub sliced : Text → Text → ℕ × Text
sliced range content = elim (cut (codes ".") range) [
  | none ↦ (offset range, drop (offset range) content)
  | some (off, len) ↦ (offset off, limited len (drop (offset off) content))
]

-- All but the first and the last byte.
unfoldable pub inner : Text → Text
inner s = reverse (drop 1 (reverse (drop 1 s)))

-- What BODY[section] or BODY[section]<origin> is replied with.
pub record Section : Type 0 where
  pub name : Text
  pub origin : Option ℕ
  pub content : Text

-- The content as a whole, or the part of it that follows the closing bracket.
unfoldable pub partial : Text → Text → Text → Section
unfolding sliced inner has_prefix
partial name content rest =
    if has_prefix (codes "<") rest && has_suffix (codes ">") rest
    then record {
      name = name;
      origin = some (sliced (inner rest) content).0;
      content = (sliced (inner rest) content).1;
    }
    else record { name = name; origin = none; content = content }

unfoldable pub fetch_body : Reader → Message → Text → Section
unfolding partial section_of
fetch_body r m item = elim (cut (codes "]") item) [
  | none ↦ record { name = []; origin = none; content = [] }
  | some (before, rest) ↦ elim (cut (codes "[") before) [
    | none ↦ record { name = []; origin = none; content = [] }
    | some (word, section) ↦ partial section (section_of r m section) rest
  ]
]
