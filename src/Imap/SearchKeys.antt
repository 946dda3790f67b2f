-- ===== src/Imap/SearchKeys.antt =====
-- The criteria of SEARCH of internal/imap/fetch.go by their names.
use verta.Common.{
  ℕ, Text, codes, text_eq, Bool, true, false, ◌||◌, if◌then◌else◌, Option, none, some,
}
use verta.Maildir.Flags.{answered, deleted, draft, flagged, seen}

pub data SearchKey : Type 0 where
  all_key new_key old_key recent_key : SearchKey
  -- a flag, and whether the message must have it
  flag_key : ℕ → Bool → SearchKey
  field_key header_key body_key text_key larger_key smaller_key : SearchKey
  before_key since_key on_key uid_key not_key other_key : SearchKey

-- The cases of the switch that take no argument.
unfoldable pub flag_search_key : Text → Option SearchKey
unfolding text_eq
flag_search_key key =
    if text_eq key (codes "ALL")
    then some all_key
    else if text_eq key (codes "ANSWERED")
    then some (flag_key answered true)
    else if text_eq key (codes "UNANSWERED")
    then some (flag_key answered false)
    else if text_eq key (codes "DELETED")
    then some (flag_key deleted true)
    else if text_eq key (codes "UNDELETED")
    then some (flag_key deleted false)
    else if text_eq key (codes "DRAFT")
    then some (flag_key draft true)
    else if text_eq key (codes "UNDRAFT")
    then some (flag_key draft false)
    else if text_eq key (codes "FLAGGED")
    then some (flag_key flagged true)
    else if text_eq key (codes "UNFLAGGED")
    then some (flag_key flagged false)
    else if text_eq key (codes "SEEN")
    then some (flag_key seen true)
    else if text_eq key (codes "UNSEEN")
    then some (flag_key seen false)
    else if text_eq key (codes "NEW")
    then some new_key
    else if text_eq key (codes "OLD")
    then some old_key
    else if text_eq key (codes "RECENT")
    then some recent_key
    else none

unfoldable pub search_key : Text → SearchKey
unfolding flag_search_key text_eq
search_key key = elim (flag_search_key key) [
  | some k ↦ k
  | none ↦
      if text_eq key (codes "FROM")
        || text_eq key (codes "TO")
        || text_eq key (codes "CC")
        || text_eq key (codes "BCC")
        || text_eq key (codes "SUBJECT")
      then field_key
      else if text_eq key (codes "HEADER")
      then header_key
      else if text_eq key (codes "BODY")
      then body_key
      else if text_eq key (codes "TEXT")
      then text_key
      else if text_eq key (codes "LARGER")
      then larger_key
      else if text_eq key (codes "SMALLER")
      then smaller_key
      else if text_eq key (codes "BEFORE")
      then before_key
      else if text_eq key (codes "SINCE")
      then since_key
      else if text_eq key (codes "ON")
      then on_key
      else if text_eq key (codes "UID")
      then uid_key
      else if text_eq key (codes "NOT")
      then not_key
      else other_key
]
