-- ===== src/Imap/Searching/Meaning.antt =====
-- What the criteria of SEARCH stand for, when they are written as a client writes them.
use verta.Maildir.UidText.Decimals.{show_cons, decimal-show, show-has_byte}
use verta.Common.{
  has_byte, sym, some, decimal, ap, ◌∙◌, All, text_eq, Text, codes, Bool, true, false, ◌&&◌, not,
  List, [], ◌∷◌, ◌≡◌, refl, ℕ, ◌^◌, ◌<◌, ltb, to_lower, arith, pos,
}
use verta.Maildir.Flags.{has, answered, deleted, draft, flagged, seen}
use verta.Maildir.Mailbox.{Message}
use verta.Maildir.UidText.{show}
use verta.Imap.Parsing.{token_string, Token, Tokens, no_tokens, also, text}
use verta.Imap.Searching.{
  falls_below, exceeds, clamped, Reader, key_of, key_holds, alone_holds, arity, takes_none,
  takes_one, takes_two, negates, matches, contains_header, contains_text, body_of, loaded,
  int_value,
}

pub data Mark : Type 0 where
  answered_mark deleted_mark draft_mark flagged_mark seen_mark : Mark

abbrev pub letter : Mark → ℕ
letter answered_mark = answered
letter deleted_mark = deleted
letter draft_mark = draft
letter flagged_mark = flagged
letter seen_mark = seen

-- A criterion with no argument.
pub data Plain : Type 0 where
  every fresh old recent : Plain
  marked unmarked : Mark → Plain

abbrev pub plain_word : Plain → Text
plain_word every = codes "ALL"
plain_word fresh = codes "NEW"
plain_word old = codes "OLD"
plain_word recent = codes "RECENT"
plain_word (marked answered_mark) = codes "ANSWERED"
plain_word (marked deleted_mark) = codes "DELETED"
plain_word (marked draft_mark) = codes "DRAFT"
plain_word (marked flagged_mark) = codes "FLAGGED"
plain_word (marked seen_mark) = codes "SEEN"
plain_word (unmarked answered_mark) = codes "UNANSWERED"
plain_word (unmarked deleted_mark) = codes "UNDELETED"
plain_word (unmarked draft_mark) = codes "UNDRAFT"
plain_word (unmarked flagged_mark) = codes "UNFLAGGED"
plain_word (unmarked seen_mark) = codes "UNSEEN"

abbrev pub plain_holds : Message → Plain → Bool
plain_holds m every = true
plain_holds m fresh = m.recent && not (has m.flags seen)
plain_holds m old = not m.recent
plain_holds m recent = m.recent
plain_holds m (marked k) = has m.flags (letter k)
plain_holds m (unmarked k) = not (has m.flags (letter k))

pub data Field : Type 0 where
  from to cc bcc subject : Field

abbrev pub field_word : Field → Text
field_word from = codes "FROM"
field_word to = codes "TO"
field_word cc = codes "CC"
field_word bcc = codes "BCC"
field_word subject = codes "SUBJECT"

pub data Criterion : Type 0 where
  plain excluding : Plain → Criterion
  field : Field → Text → Criterion
  header : Text → Text → Criterion
  in_body in_text : Text → Criterion
  larger smaller : ℕ → Criterion

-- The criteria as tokens.
abbrev pub written : List Criterion → Tokens
written [] = no_tokens
written (plain p ∷ cs) = also (text (plain_word p)) (written cs)
written (excluding p ∷ cs) = also (text (codes "NOT")) (also (text (plain_word p)) (written cs))
written (field f v ∷ cs) = also (text (field_word f)) (also (text v) (written cs))
written (header name v ∷ cs) =
    also (text (codes "HEADER")) (also (text name) (also (text v) (written cs)))
written (in_body v ∷ cs) = also (text (codes "BODY")) (also (text v) (written cs))
written (in_text v ∷ cs) = also (text (codes "TEXT")) (also (text v) (written cs))
written (larger n ∷ cs) = also (text (codes "LARGER")) (also (text (show n)) (written cs))
written (smaller n ∷ cs) = also (text (codes "SMALLER")) (also (text (show n)) (written cs))

abbrev pub criterion_holds : Reader → Message → Criterion → Bool
criterion_holds r m (plain p) = plain_holds m p
criterion_holds r m (excluding p) = not (plain_holds m p)
criterion_holds r m (field f v) = contains_header r (loaded r m) (field_word f) v
criterion_holds r m (header name v) = contains_header r (loaded r m) name v
criterion_holds r m (in_body v) = contains_text (to_lower v) (to_lower (body_of (loaded r m)))
criterion_holds r m (in_text v) = contains_text (to_lower v) (to_lower (loaded r m))
criterion_holds r m (larger n) = ltb n m.size
criterion_holds r m (smaller n) = ltb m.size n

abbrev pub all_hold : Reader → Message → List Criterion → Bool
all_hold r m [] = true
all_hold r m (c ∷ cs) = criterion_holds r m c && all_hold r m cs

-- A size is a number of 63 bits.
abbrev pub Fits : Criterion → Type 0
Fits (larger n) = n < 2 ^ 63
Fits (smaller n) = n < 2 ^ 63
Fits (plain p) = Unit {0}
Fits (excluding p) = Unit {0}
Fits (field f v) = Unit {0}
Fits (header name v) = Unit {0}
Fits (in_body v) = Unit {0}
Fits (in_text v) = Unit {0}

int_value-show : (n : ℕ) → n < 2 ^ 63 → int_value (show n) ≡ pos n
unfolding int_value clamped
int_value-show n h =
    let (c, s, e) = show_cons n in
    let value : decimal (c ∷ s) ≡ some n = ap decimal (sym e) ∙ decimal-show n in
    let no_minus : has_byte b'-' (c ∷ s) ≡ false =
      ap (has_byte b'-') (sym e) ∙ show-has_byte b'-' n refl in
    let no_plus : has_byte b'+' (c ∷ s) ≡ false =
      ap (has_byte b'+') (sym e) ∙ show-has_byte b'+' n refl in
    ap int_value e ∙ ground arith

pub both : {a b c d : Bool} → a ≡ b → c ≡ d → (a && c) ≡ (b && d)
both p q = rw (p, q)

module _ (r : Reader) (ms : List Message) (m : Message) where
  pub matches_none :
      (t : Token) (rest : Tokens)
      → arity (key_of t) ≡ takes_none
      → matches r ms m (also t rest) ≡ (key_holds r ms m (key_of t) t [] [] && matches r ms m rest)
  unfolding matches alone_holds
  matches_none t no_tokens h = ground arith
  matches_none t (also a no_tokens) h = ground (arith, h)
  matches_none t (also a (also b rest)) h = ground (arith, h)

  pub matches-not :
      (t a : Token) (rest : Tokens)
      → arity (key_of t) ≡ negates
      → matches r ms m (also t (also a rest)) ≡ (not (alone_holds r ms m a) && matches r ms m rest)
  unfolding matches alone_holds
  matches-not t a no_tokens h = ground (arith, h)
  matches-not t a (also b rest) h = ground (arith, h)

  matches_one :
      (t a : Token) (rest : Tokens)
      → arity (key_of t) ≡ takes_one
      → matches r ms m (also t (also a rest))
        ≡ (key_holds r ms m (key_of t) t (token_string a) [] && matches r ms m rest)
  unfolding matches
  matches_one t a no_tokens h = ground (arith, h)
  matches_one t a (also b rest) h = ground (arith, h)

  matches_two :
      (t a b : Token) (rest : Tokens)
      → arity (key_of t) ≡ takes_two
      → matches r ms m (also t (also a (also b rest)))
        ≡ (key_holds r ms m (key_of t) t (token_string a) (token_string b) && matches r ms m rest)
  unfolding matches
  matches_two t a b rest h = ground (arith, h)

  plain_arity : (p : Plain) → arity (key_of (text (plain_word p))) ≡ takes_none
  unfolding arity key_of text_eq
  plain_arity every = refl
  plain_arity fresh = refl
  plain_arity old = refl
  plain_arity recent = refl
  plain_arity (marked answered_mark) = refl
  plain_arity (marked deleted_mark) = refl
  plain_arity (marked draft_mark) = refl
  plain_arity (marked flagged_mark) = refl
  plain_arity (marked seen_mark) = refl
  plain_arity (unmarked answered_mark) = refl
  plain_arity (unmarked deleted_mark) = refl
  plain_arity (unmarked draft_mark) = refl
  plain_arity (unmarked flagged_mark) = refl
  plain_arity (unmarked seen_mark) = refl

  plain_lem :
      (p : Plain)
      → key_holds r ms m (key_of (text (plain_word p))) (text (plain_word p)) [] []
        ≡ plain_holds m p
  unfolding key_holds key_of
  plain_lem every = refl
  plain_lem fresh = refl
  plain_lem old = refl
  plain_lem recent = refl
  plain_lem (marked answered_mark) = refl
  plain_lem (marked deleted_mark) = refl
  plain_lem (marked draft_mark) = refl
  plain_lem (marked flagged_mark) = refl
  plain_lem (marked seen_mark) = refl
  plain_lem (unmarked answered_mark) = refl
  plain_lem (unmarked deleted_mark) = refl
  plain_lem (unmarked draft_mark) = refl
  plain_lem (unmarked flagged_mark) = refl
  plain_lem (unmarked seen_mark) = refl

  field_lem :
      (f : Field) (v : Text) (rest : Tokens)
      → matches r ms m (also (text (field_word f)) (also (text v) rest))
        ≡ (criterion_holds r m (field f v) && matches r ms m rest)
  unfolding key_holds arity key_of token_string
  field_lem from v rest = matches_one (text (codes "FROM")) (text v) rest refl
  field_lem to v rest = matches_one (text (codes "TO")) (text v) rest refl
  field_lem cc v rest = matches_one (text (codes "CC")) (text v) rest refl
  field_lem bcc v rest = matches_one (text (codes "BCC")) (text v) rest refl
  field_lem subject v rest = matches_one (text (codes "SUBJECT")) (text v) rest refl

  -- Let the sizes be below 2^63. A message matches criteria, written as tokens, exactly if each
  -- of them holds of it: ALL, NEW, OLD, RECENT and the flags and their opposites, NOT before one
  -- of those, a header field or the body or the text that contains a string, and a size above or
  -- below a number.
  pub matches-written :
      (cs : List Criterion) → All Fits cs → matches r ms m (written cs) ≡ all_hold r m cs
  unfolding matches alone_holds key_holds arity key_of token_string
  matches-written [] h = refl
  matches-written (plain p ∷ cs) h =
      matches_none (text (plain_word p)) (written cs) (plain_arity p)
      ∙ both (plain_lem p) (matches-written cs h.1)
  matches-written (excluding p ∷ cs) h =
      matches-not (text (codes "NOT")) (text (plain_word p)) (written cs) refl
      ∙ both (ap not (plain_lem p)) (matches-written cs h.1)
  matches-written (field f v ∷ cs) h =
      field_lem f v (written cs) ∙ both refl (matches-written cs h.1)
  matches-written (header name v ∷ cs) h =
      matches_two (text (codes "HEADER")) (text name) (text v) (written cs) refl
      ∙ both refl (matches-written cs h.1)
  matches-written (in_body v ∷ cs) h =
      matches_one (text (codes "BODY")) (text v) (written cs) refl
      ∙ both refl (matches-written cs h.1)
  matches-written (in_text v ∷ cs) h =
      matches_one (text (codes "TEXT")) (text v) (written cs) refl
      ∙ both refl (matches-written cs h.1)
  matches-written (larger n ∷ cs) h =
      matches_one (text (codes "LARGER")) (text (show n)) (written cs) refl
      ∙ both (ap (exceeds m.size) (int_value-show n h.0)) (matches-written cs h.1)
  matches-written (smaller n ∷ cs) h =
      matches_one (text (codes "SMALLER")) (text (show n)) (written cs) refl
      ∙ both (ap (falls_below m.size) (int_value-show n h.0)) (matches-written cs h.1)
