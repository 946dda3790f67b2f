-- ===== src/Imap/Searching.antt =====
-- SEARCH of internal/imap/fetch.go. Reading a message's file, the header fields that net/mail finds in
-- it, time.Parse and the server's local day of a time are arguments.
pub mod Meaning
pub mod Negation
use verta.Common.{
  ◌*◌, ◌-◌, ℕ, ◌/◌, ◌^◌, ℤ, pos, negsuc, negated, decimal, Text, codes, text_eq, to_lower, to_upper,
  has_prefix, cut, Bool, true, false, ◌&&◌, ◌||◌, not, ◌==◌, ltb, leb, if◌then◌else◌, List, [], ◌∷◌,
  Option, none, some, length, reverse, ◌%◌,
}
use verta.Maildir.Flags.{FlagSet, has, answered, deleted, draft, flagged, seen}
use verta.Maildir.Mailbox.{Message}
use verta.Imap.Parsing.{
  Token, Tokens, no_tokens, also, token_string, token_upper, parse_seq_set, set_contains,
}
use verta.Imap.SearchKeys.{
  SearchKey, all_key, new_key, old_key, recent_key, flag_key, field_key, header_key, body_key,
  text_key, larger_key, smaller_key, before_key, since_key, on_key, uid_key, not_key, other_key,
  search_key,
}
use verta.Imap.Commands.{last_uid}

pub record Reader : Type 0 where
  pub read_file : Message → Option Text
  -- a field of the message's header, which is empty if it is missing; none if net/mail refuses the text
  pub header_field : Text → Text → Option Text
  -- a numbered part of a message (mime.go): its text and the section
  pub part : Text → Text → Text
  -- time.Parse of a date, in nanoseconds since the epoch
  pub parse_date : Text → Option ℕ
  pub local_day : ℕ → ℕ

-- strings.Contains
unfoldable pub contains_text : Text → Text → Bool
unfolding cut has_prefix
contains_text sub s = text_eq sub [] || (elim (cut sub s) [ none ↦ false | some parts ↦ true ])

-- What follows the header block, which CRLF CRLF or LF LF ends.
unfoldable pub body_of : Text → Text
unfolding cut
body_of s = elim (cut (13 ∷ 10 ∷ 13 ∷ 10 ∷ []) s) [
  | some (head, body) ↦ body
  | none ↦ elim (cut (10 ∷ 10 ∷ []) s) [ some (head, body) ↦ body | none ↦ [] ]
]

-- The message's bytes, none if they cannot be read.
unfoldable pub loaded : Reader → Message → Text
loaded r m = elim (r.read_file m) [ none ↦ [] | some s ↦ s ]

unfoldable pub contains_header : Reader → Text → Text → Text → Bool
unfolding contains_text to_lower text_eq
contains_header r s name value = elim (r.header_field s name) [
  | none ↦ false
  | some got ↦
      if text_eq value []
      then not (text_eq got [])
      else contains_text (to_lower value) (to_lower got)
]

-- The value of strconv.ParseInt when its error is dropped: 0, or the nearest number of 64 bits.
unfoldable pub clamped : ℕ → Option ℕ → ℕ
clamped bound none = 0
clamped bound (some n) = if leb n bound then n else bound

unfoldable pub int_value : Text → ℤ
unfolding clamped decimal
int_value [] = pos 0
int_value (c ∷ s) =
    if c == b'-'
    then negated (clamped (2 ^ 63) (decimal s))
    else pos (clamped (2 ^ 63 - 1) (decimal (if c == b'+' then s else c ∷ s)))

unfoldable pub exceeds : ℕ → ℤ → Bool
exceeds n (pos k) = ltb k n
exceeds n (negsuc k) = true

unfoldable pub falls_below : ℕ → ℤ → Bool
falls_below n (pos k) = ltb n k
falls_below n (negsuc k) = false

unfoldable pub trim_quotes_left : Text → Text
trim_quotes_left [] = []
trim_quotes_left (c ∷ s) = let rest = trim_quotes_left s in if c == b'"' then rest else c ∷ s

unfoldable pub trim_quotes : Text → Text
unfolding trim_quotes_left
trim_quotes s = reverse (trim_quotes_left (reverse (trim_quotes_left s)))

abbrev pub day : ℕ
day = 24 * 3600000000000

-- BEFORE and SINCE compare whole days of UTC, ON compares local days.
unfoldable pub date_holds : Reader → SearchKey → Message → Option ℕ → Bool
date_holds r k m none = false
date_holds r before_key m (some d) = ltb (m.internal / day * day) d
date_holds r since_key m (some d) = not (ltb (m.internal / day * day) d)
date_holds r on_key m (some d) = r.local_day m.internal == d / day
date_holds r _ m (some d) = false

-- Whether the numbers of a set contain a number; a text that is no set is passed by or fails.
unfoldable pub set_holds : Bool → ℕ → ℕ → Text → Bool
unfolding set_contains parse_seq_set
set_holds unparsed n max s = elim (parse_seq_set s) [
  | none ↦ unparsed
  | some set ↦ set_contains n max set
]

-- Whether a message meets one criterion, given its token and the first two of its arguments; NOT is
-- the caller's.
unfoldable pub key_holds : Reader → List Message → Message → SearchKey → Token → Text → Text → Bool
unfolding has contains_header body_of loaded exceeds falls_below int_value date_holds trim_quotes
    set_holds last_uid
key_holds r ms m all_key t a b = true
key_holds r ms m (flag_key x wanted) t a b = if wanted then has m.flags x else not (has m.flags x)
key_holds r ms m new_key t a b = m.recent && not (has m.flags seen)
key_holds r ms m old_key t a b = not m.recent
key_holds r ms m recent_key t a b = m.recent
key_holds r ms m field_key t a b = contains_header r (loaded r m) (token_upper t) a
key_holds r ms m header_key t a b = contains_header r (loaded r m) a b
key_holds r ms m body_key t a b = contains_text (to_lower a) (to_lower (body_of (loaded r m)))
key_holds r ms m text_key t a b = contains_text (to_lower a) (to_lower (loaded r m))
key_holds r ms m larger_key t a b = exceeds m.size (int_value a)
key_holds r ms m smaller_key t a b = falls_below m.size (int_value a)
key_holds r ms m before_key t a b = date_holds r before_key m (r.parse_date (trim_quotes a))
key_holds r ms m since_key t a b = date_holds r since_key m (r.parse_date (trim_quotes a))
key_holds r ms m on_key t a b = date_holds r on_key m (r.parse_date (trim_quotes a))
key_holds r ms m uid_key t a b = set_holds false m.uid (last_uid ms) a
key_holds r ms m not_key t a b = true
key_holds r ms m other_key t a b = set_holds true m.seq (length ms % 2 ^ 32) (token_string t)

-- How many tokens after it a criterion takes.
pub data Arity : Type 0 where
  takes_none takes_one takes_two negates : Arity

unfoldable pub arity : SearchKey → Arity
arity field_key = takes_one
arity header_key = takes_two
arity body_key = takes_one
arity text_key = takes_one
arity larger_key = takes_one
arity smaller_key = takes_one
arity before_key = takes_one
arity since_key = takes_one
arity on_key = takes_one
arity uid_key = takes_one
arity not_key = negates
arity _ = takes_none

unfoldable pub key_of : Token → SearchKey
unfolding search_key token_upper
key_of t = search_key (token_upper t)

-- A criterion with no token after it: its arguments are empty.
unfoldable pub alone_holds : Reader → List Message → Message → Token → Bool
unfolding key_holds key_of
alone_holds r ms m t = key_holds r ms m (key_of t) t [] []

-- The loop of session.matches: whether a message meets every criterion.
unfoldable pub matches : Reader → List Message → Message → Tokens → Bool
unfolding alone_holds key_holds key_of arity token_string
matches r ms m no_tokens = true
matches r ms m (also t no_tokens) = alone_holds r ms m t
matches r ms m (also t (also a no_tokens)) = elim (arity (key_of t)) [
  | takes_none ↦ key_holds r ms m (key_of t) t [] [] && alone_holds r ms m a
  | negates ↦ not (alone_holds r ms m a)
  | takes_one ↦ key_holds r ms m (key_of t) t (token_string a) []
  | takes_two ↦ key_holds r ms m (key_of t) t (token_string a) []
]
matches r ms m (also t (also a (also b rest))) = elim (arity (key_of t)) [
  | takes_none ↦ key_holds r ms m (key_of t) t [] [] && matches r ms m (also a (also b rest))
  | negates ↦ not (alone_holds r ms m a) && matches r ms m (also b rest)
  | takes_one ↦ key_holds r ms m (key_of t) t (token_string a) [] && matches r ms m (also b rest)
  | takes_two ↦
      key_holds r ms m (key_of t) t (token_string a) (token_string b) && matches r ms m rest
]

-- The numbers that SEARCH replies with.
unfoldable pub found : Reader → List Message → Bool → Tokens → List Message → List ℕ
unfolding matches
found r ms uid_mode crit [] = []
found r ms uid_mode crit (m ∷ rest) =
    let later = found r ms uid_mode crit rest in
    if matches r ms m crit then (if uid_mode then m.uid else m.seq) ∷ later else later
