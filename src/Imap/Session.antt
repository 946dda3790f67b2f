-- ===== src/Imap/Session.antt =====
-- The state of a connection of internal/imap/session.go, its replies, and the guards that commands share.
-- The tag of the replies is left out. What the file system, the accounts, the network and the client's
-- answers are while a command runs is a record.
use verta.Common.{
  if◌then◌else◌, ℕ, ℤ, String, Text, Bool, true, false, List, [], ◌∷◌, Option, none, some, map,
  length, suc,
}
use verta.Maildir.Folders.{DirPath}
use verta.Maildir.Mailbox.{Message, Mailbox, Found, UidList, refresh}
use verta.Imap.Parsing.{Token, Parsed, parsed, failed, no_fuel, next}
use verta.Imap.Commands as Commands
use verta.Imap.Searching.{Reader}
use verta.Imap.Fetching.{Item}

-- A folder's files and its UID list, as Refresh reads them, and whether it writes the list; none is an
-- error of the reads.
abbrev pub Scan : Type 0
Scan = Option (UidList × List Found × Bool)

pub record Env : Type 0 where
  pub commands : Commands.Env
  pub reader : Reader
  pub tls_available : Bool
  -- whether the line before the TLS handshake is sent, and the handshake succeeds
  pub reply_sent : Bool
  pub handshake_ok : Bool
  -- Backend.Authenticate for the connection's address: the root of the account
  pub authenticate : Text → Text → Option DirPath
  -- base64.StdEncoding.DecodeString
  pub decode : Text → Option Text
  -- the lines that answer continuation requests
  pub answers : List Text
  -- the directories of the disk, and which of them can be made and removed
  pub disk : List DirPath
  pub made : DirPath → Bool
  pub gone : DirPath → Bool
  pub scan : DirPath → Scan
  -- whether a message with flags and a date is delivered, and the folder after that
  pub append_ok : Text → List ℕ → Option ℕ → Bool
  pub scan_after : DirPath → Scan
  -- time.Parse of an INTERNALDATE
  pub parse_time : Text → Option ℕ
  -- Backend.Quota: used and limit, in bytes
  pub quota : Option (Text → ℤ × ℤ)
  -- what a client that idles sends, unless the connection ends; whether the time is up first; the polls
  pub idle_line : Option Text
  pub idle_timeout : Bool
  pub idle_polls : List (DirPath → Scan)

pub data State : Type 0 where
  not_authenticated authenticated selected : State

pub record Session : Type 0 where
  pub state : State
  pub tls : Bool
  pub user : Text
  pub root : DirPath
  pub folder : Text
  -- the mailbox and whether it was opened by EXAMINE
  pub view : Commands.Session

pub data Reply : Type 0 where
  line : String → Reply
  capabilities : List Text → Reply
  login_ok : List Text → Reply
  exists recent first_unseen uid_validity uid_next : ℕ → Reply
  permanent_flags : Bool → Reply
  -- whether EXAMINE completed
  select_ok : Bool → Reply
  -- whether for LSUB, and the attributes and name of a folder
  folder_line : Bool → Text → Text → Reply
  list_probe list_ok : Bool → Reply
  status : Text → List (Text × ℕ) → Reply
  append_ok : ℕ → ℕ → Reply
  found : List ℕ → Reply
  fetched : ℕ × List Item → Reply
  quota_root : Text → Reply
  -- used and limit in kibibytes
  quota_line : Option (ℕ × ℕ) → Reply
  unknown_command : Text → Reply
  other : Commands.Reply → Reply

-- What one command does: the session, its replies, whether the connection ends, whether the server
-- dereferences a nil mailbox, the directories of the disk, the messages copied, and the messages of the
-- mailbox whose files are removed.
pub record Outcome : Type 0 where
  pub session : Session
  pub replies : List Reply
  pub quit : Bool
  pub crashed : Bool
  pub disk : List DirPath
  pub copied : List Message
  pub removed : List Message

unfoldable pub reply_all : Env → Session → List Reply → Outcome
reply_all e s replies = record {
  session = s;
  replies = replies;
  quit = false;
  crashed = false;
  disk = e.disk;
  copied = [];
  removed = [];
}

abbrev pub say : Env → Session → String → Outcome
say e s text_line = reply_all e s (line text_line ∷ [])

unfoldable pub new_session : Bool → Session
new_session implicit_tls = record {
  state = not_authenticated;
  tls = implicit_tls;
  user = [];
  root = [];
  folder = [];
  view = record { mbox = none; read_only = false };
}

-- requireAuth
unfoldable pub if_authd : Env → Session → Outcome → Outcome
unfolding reply_all
if_authd e s o = elim s.state [
  | not_authenticated ↦ say e s "NO not authenticated"
  | authenticated ↦ o
  | selected ↦ o
]

-- requireSelected
unfoldable pub if_selected : Env → Session → Outcome → Outcome
unfolding reply_all
if_selected e s o = elim s.state [
  | not_authenticated ↦ say e s "NO no mailbox selected"
  | authenticated ↦ say e s "NO no mailbox selected"
  | selected ↦ o
]

-- A command on the selected mailbox, which it dereferences.
unfoldable pub on_mailbox : Env → Session → (Mailbox → Outcome) → Option Mailbox → Outcome
unfolding reply_all
on_mailbox e s f none = record (reply_all e s []) { crashed = true; quit = true }
on_mailbox e s f (some mb) = f mb

unfoldable pub with_mailbox : Env → Session → (Mailbox → Outcome) → Outcome
with_mailbox e s f = if_selected e s (on_mailbox e s f s.view.mbox)

-- A command of the selected mailbox within the session.
unfoldable pub within_session : Env → Session → Commands.Outcome → Outcome
within_session e s o = record {
  session = record s { view = o.session };
  replies = map other o.replies;
  quit = false;
  crashed = false;
  disk = e.disk;
  copied = o.copied;
  removed = o.removed;
}

-- The contents that Mailbox.Refresh gives a mailbox, also where it fails to write the UID list.
unfoldable pub scanned_mailbox : Scan → Option Mailbox
unfolding refresh
scanned_mailbox none = none
scanned_mailbox (some (stored, files, wrote)) = some (refresh wrote stored files).0

-- The contents after a Refresh without an error.
unfoldable pub loaded_mailbox : Scan → Option Mailbox
unfolding refresh
loaded_mailbox none = none
loaded_mailbox (some (stored, files, wrote)) =
    if (refresh wrote stored files).2 then some (refresh wrote stored files).0 else none

unfoldable pub set_mailbox : Session → Mailbox → Session
set_mailbox s mb = record s { view = record s.view { mbox = some mb } }

-- One token of the arguments.
abbrev pub argument : Env → Text → Parsed Token
argument e s = next e.commands.literal (suc (length s)) s

-- A command that takes a token of its arguments, with the reply if there is none.
unfoldable pub with_argument : Env → Session → String → Text → (Token → Text → Outcome) → Outcome
unfolding next reply_all
with_argument e s usage args f = elim (argument e args) [
  | failed ↦ say e s usage
  | no_fuel ↦ say e s usage
  | parsed t rest ↦ f t rest
]

unfoldable pub is_selected : State → Bool
is_selected not_authenticated = false
is_selected authenticated = false
is_selected selected = true

-- The messages of the mailbox, if there is one.
abbrev pub messages_in : Option Mailbox → List Message
messages_in none = []
messages_in (some mb) = mb.messages
