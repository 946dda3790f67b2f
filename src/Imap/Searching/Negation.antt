-- ===== src/Imap/Searching/Negation.antt =====
-- NOT before a criterion that takes an argument.
use verta.Common.{Text, codes, ◌&&◌, not, ◌≡◌, refl, none, ◌∙◌, ap, List, []}
use verta.Maildir.Mailbox.{Message}
use verta.Imap.Parsing.{token_string, Tokens, also, text, parse_seq_set}
use verta.Imap.Searching.{
  Reader, key_of, key_holds, alone_holds, matches, contains_header, loaded, set_holds, arity,
}
use verta.Imap.SearchKeys.{other_key}
use verta.Imap.Searching.Meaning.{
  Field, from, to, cc, bcc, subject, field_word, matches-not, matches_none, both,
}

alone_field :
    (r : Reader) (ms : List Message) (m : Message) (f : Field)
    → alone_holds r ms m (text (field_word f)) ≡ contains_header r (loaded r m) (field_word f) []
unfolding alone_holds key_holds key_of
alone_field r ms m from = refl
alone_field r ms m to = refl
alone_field r ms m cc = refl
alone_field r ms m bcc = refl
alone_field r ms m subject = refl

-- What is neither a search key nor a sequence set is passed by.
passed_by :
    (r : Reader) (ms : List Message) (m : Message) (v : Text) (rest : Tokens)
    → key_of (text v) ≡ other_key
    → parse_seq_set v ≡ none
    → matches r ms m (also (text v) rest) ≡ matches r ms m rest
unfolding key_holds set_holds arity token_string
passed_by r ms m v rest other unparsed =
    matches_none r ms m (text v) rest (rw other refl)
    ∙ rw (other, key_holds, set_holds, unparsed) refl

-- Let a text be no search key and no sequence set. NOT, then one of FROM, TO, CC, BCC and
-- SUBJECT, then the text, holds of the messages in which that field is missing, empty or
-- unreadable and which meet the criteria that follow, whatever the text is.
pub matches-not_field :
    (r : Reader) (ms : List Message) (m : Message) (f : Field) (v : Text) (rest : Tokens)
    → key_of (text v) ≡ other_key
    → parse_seq_set v ≡ none
    → matches r ms m (also (text (codes "NOT")) (also (text (field_word f)) (also (text v) rest)))
      ≡ (not (contains_header r (loaded r m) (field_word f) []) && matches r ms m rest)
unfolding key_of arity
matches-not_field r ms m f v rest other unparsed =
    matches-not r ms m (text (codes "NOT")) (text (field_word f)) (also (text v) rest) refl
    ∙ both (ap not (alone_field r ms m f)) (passed_by r ms m v rest other unparsed)
