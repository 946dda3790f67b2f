-- ===== src/Imap/Commands.antt =====
-- COPY, MOVE and EXPUNGE of internal/imap/fetch.go and session.go, on the mailbox of
-- internal/maildir. What the file system does and the reading of literals are a record of answers; the
-- tag of the replies is left out, and the name of COPY or MOVE in a BAD reply. The messages that a
-- command selects are those of the mailbox, so that flags that are set show in the mailbox.
pub mod Cases
pub mod Moving
use verta.Common.{
  ◌==◌, ℕ, suc, ◌%◌, ◌^◌, String, Text, codes, Bool, true, false, ◌&&◌, not, if◌then◌else◌, List,
  [], ◌∷◌, ◌++◌, Option, none, some, text_eq, to_lower, trim_space, has_prefix, reverse, drop,
  length,
}
use verta.Maildir.Flags.{FlagSet, add, remove, deleted, flag_from_imap}
use verta.Maildir.Mailbox.{Message, Mailbox, set_flags, expunge}
use verta.Imap.Parsing.{
  Token, Tokens, no_tokens, also, text, literal_text, group, Parsed, parsed, failed, no_fuel, next,
  token_string, token_upper, parse_seq_set, set_contains,
}

pub record Env : Type 0 where
  pub literal : Option (ℕ → Option Text)
  pub exists : Text → Bool
  pub copy_ok : Message → Text → Bool
  pub rename_ok : Message → Bool
  pub gone : Message → Bool

-- The mailbox, if one is selected.
pub record Session : Type 0 where
  pub mbox : Option Mailbox
  pub read_only : Bool

pub data Reply : Type 0 where
  line : String → Reply
  expunged : ℕ → Reply
  flags_now : Message → Bool → Reply

-- The session, its replies, the messages copied with their destination, and the files removed.
pub record Outcome : Type 0 where
  pub session : Session
  pub replies : List Reply
  pub copied : List Message
  pub removed : List Message

abbrev pub say : Session → String → Outcome
say s text_line = record { session = s; replies = line text_line ∷ []; copied = []; removed = [] }

unfoldable pub last_uid : List Message → ℕ
last_uid [] = 0
last_uid (m ∷ []) = m.uid
last_uid (m ∷ n ∷ ms) = last_uid (n ∷ ms)

-- The number that "*" stands for.
unfoldable pub highest : Bool → List Message → ℕ
unfolding last_uid
highest true ms = last_uid ms
highest false ms = length ms % 2 ^ 32

unfoldable pub is_chosen : List (ℕ × ℕ) → Bool → ℕ → Message → Bool
unfolding set_contains
is_chosen set uid_mode max m =
    if uid_mode then set_contains m.uid max set else set_contains m.seq max set

unfoldable pub chosen : (Message → Bool) → List Message → List Message
chosen p [] = []
chosen p (m ∷ ms) = let rest = chosen p ms in if p m then m ∷ rest else rest

unfoldable pub selected : List (ℕ × ℕ) → Bool → List Message → List Message
unfolding chosen is_chosen highest
selected set uid_mode ms = chosen (is_chosen set uid_mode (highest uid_mode ms)) ms

-- The replies to removed messages.
unfoldable pub expunge_lines : List ℕ → List Reply
expunge_lines [] = []
expunge_lines (n ∷ seqs) = expunged n ∷ expunge_lines seqs

-- What an expunge of the mailbox does, with the lines that end the command well and badly.
unfoldable pub expunge_with : Env → Session → Mailbox → String → String → List Message → Outcome
unfolding expunge expunge_lines
expunge_with e s mb good bad copied =
    let done = expunge e.gone mb in
    record {
      session = record s { mbox = some done.1 };
      replies = elim done.0 [
        | none ↦ line bad ∷ []
        | some seqs ↦ expunge_lines seqs ++ line good ∷ []
      ];
      copied = copied;
      removed = done.2;
    }

unfoldable pub cmd_expunge : Env → Session → Outcome
unfolding expunge_with
cmd_expunge e s = elim s.mbox [
  | none ↦ say s "NO no mailbox selected"
  | some mb ↦
      if s.read_only
      then say s "NO mailbox is read-only"
      else expunge_with e s mb "OK EXPUNGE completed" "NO expunge failed" []
]

unfoldable pub trim_dots : Text → Text
trim_dots [] = []
trim_dots (c ∷ s) = let rest = trim_dots s in if c == b'.' then rest else c ∷ s

-- strings.Trim with dots, and INBOX in any case.
unfoldable pub normalize_mailbox : Text → Text
unfolding trim_dots text_eq to_lower trim_space
normalize_mailbox name =
    if text_eq (to_lower (trim_space name)) (codes "inbox")
    then codes "INBOX"
    else reverse (trim_dots (reverse (trim_dots (trim_space name))))

-- The loop over CopyTo: the messages copied, and whether all were.
unfoldable pub copy_all : Env → Text → List Message → List Message × Bool
copy_all e dst [] = ([], true)
copy_all e dst (m ∷ ms) =
    let rest = copy_all e dst ms in if e.copy_ok m dst then (m ∷ rest.0, rest.1) else ([], false)

-- The Deleted flag for the chosen messages, up to the first whose rename fails.
unfoldable pub mark_chosen : Env → (Message → Bool) → List Message → List Message × Bool
unfolding set_flags
mark_chosen e p [] = ([], true)
mark_chosen e p (m ∷ ms) =
    let rest = mark_chosen e p ms in
    if p m
    then (elim (set_flags (e.rename_ok m) m (add m.flags deleted)) [
      | none ↦ (m ∷ ms, false)
      | some m' ↦ (m' ∷ rest.0, rest.1)
    ])
    else (m ∷ rest.0, rest.1)

-- The second half of MOVE.
unfoldable pub finish_move : Env → Session → Mailbox → (Message → Bool) → List Message → Outcome
unfolding mark_chosen expunge_with
finish_move e s mb p copied =
    let marked = mark_chosen e p mb.messages in
    let mb' = record mb { messages = marked.0 } in
    if not marked.1
    then record {
      session = record s { mbox = some mb' };
      replies = line "NO MOVE failed" ∷ [];
      copied = copied;
      removed = [];
    }
    else expunge_with e s mb' "OK MOVE completed" "NO MOVE failed" copied

-- COPY and MOVE of a set to a destination.
unfoldable pub copy_set : Env → Session → Mailbox → List (ℕ × ℕ) → Text → Bool → Bool → Outcome
unfolding copy_all finish_move selected normalize_mailbox
copy_set e s mb set dst uid_mode move =
    if not (e.exists (normalize_mailbox dst))
    then say s "NO [TRYCREATE] destination does not exist"
    else if move && s.read_only
    then say s "NO mailbox is read-only"
    else let result = copy_all e (normalize_mailbox dst) (selected set uid_mode mb.messages) in
      if not result.1
      then record {
        session = s;
        replies = line (if move then "NO MOVE failed" else "NO COPY failed") ∷ [];
        copied = result.0;
        removed = [];
      }
      else if move
      then finish_move e s mb (is_chosen set uid_mode (highest uid_mode mb.messages)) result.0
      else record {
        session = s;
        replies = line "OK COPY completed" ∷ [];
        copied = result.0;
        removed = [];
      }

-- One token of the arguments.
abbrev pub argument : Env → Text → Parsed Token
argument e s = next e.literal (suc (length s)) s

-- A command that takes a token of its arguments, with the reply if there is none.
unfoldable pub with_argument : Env → Session → String → Text → (Token → Text → Outcome) → Outcome
unfolding next
with_argument e s usage args f = elim (argument e args) [
  | failed ↦ say s usage
  | no_fuel ↦ say s usage
  | parsed t rest ↦ f t rest
]

-- A command whose first argument is a sequence set.
unfoldable pub with_set : Env → Session → String → Text → (List (ℕ × ℕ) → Text → Outcome) → Outcome
unfolding parse_seq_set token_string
with_set e s usage args f = with_argument e s usage args (λ t rest.
    elim (parse_seq_set (token_string t)) [
      | none ↦ say s "BAD invalid sequence set"
      | some set ↦ f set rest
    ])

unfoldable pub cmd_copy_move : Env → Session → Text → Bool → Bool → Outcome
unfolding token_string
cmd_copy_move e s args uid_mode move = elim s.mbox [
  | none ↦ say s "NO no mailbox selected"
  | some mb ↦ with_set e s "BAD needs a sequence set" args (λ set rest.
      with_argument e s "BAD needs a destination" rest
        (λ dst after. copy_set e s mb set (token_string dst) uid_mode move))
]
