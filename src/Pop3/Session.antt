-- ===== src/Pop3/Session.antt =====
-- internal/pop3/pop3.go: the state of a session, its replies, and how it finds a message by number.
use verta.Common.{
  ℕ, zero, suc, ◌+◌, Text, Bool, false, ◌||◌, ◌==◌, if◌then◌else◌, List, [], ◌∷◌, Option, none,
  some, ℤ, pos, negsuc, atoi, get_elem?,
}
use verta.Maildir.Flags.{base_name}
use verta.Maildir.Mailbox.{Message}

pub record Env : Type 0 where
  -- Settings.TLS is not nil
  pub tls_available : Bool
  pub authenticate : Text → Text → Text → Option Text
  -- maildir.OpenMailbox of the INBOX, as the view of its messages
  pub open_mailbox : Text → Option (List Message)
  pub read_file : Message → Option Text
  -- whether a rename, or a removal, of a message's file succeeds
  pub rename_ok : Message → Bool
  pub gone : Message → Bool
  pub md5_hex : Text → Text
  -- whether the line before the TLS handshake is sent, and the handshake succeeds
  pub reply_sent : Bool
  pub handshake_ok : Bool

pub data Error : Type 0 where
  tls_unavailable already_tls stls_required needs_username user_first auth_failed : Error
  cannot_open not_authenticated no_such_message already_deleted cannot_read : Error
  top_usage invalid_count not_removed unknown_command : Error

pub data Reply : Type 0 where
  err : Error → Reply
  capabilities : Bool → Reply
  begin_tls noop send_pass closing : Reply
  -- a count and octets
  mailbox_ready stat maildrop : ℕ → ℕ → Reply
  -- a message number and its size, or its unique id
  scan : ℕ → ℕ → Reply
  unique_id : ℕ → Text → Reply
  listing : ℤ → List (ℕ × ℕ) → Reply
  uid_listing : List (ℕ × Text) → Reply
  -- the octets announced, if any, and the bytes sent
  content : Option ℕ → Text → Reply
  marked : ℕ → Reply
  closing_deleted : ℕ → Reply

pub record Session : Type 0 where
  pub ip : Text
  pub tls : Bool
  pub user : Text
  pub root : Text
  pub msgs : List Message
  -- the numbers marked for deletion
  pub del : List ℕ
  pub authd : Bool

-- What one command does: the session, the replies, whether the connection ends, the files removed.
pub record Outcome : Type 0 where
  pub session : Session
  pub replies : List Reply
  pub quit : Bool
  pub removed : List Message

abbrev pub answer : Session → Reply → Outcome
answer s r = record { session = s; replies = r ∷ []; quit = false; removed = [] }

unfoldable pub new_session : Text → Bool → Session
new_session ip implicit_tls = record {
  ip = ip;
  tls = implicit_tls;
  user = [];
  root = [];
  msgs = [];
  del = [];
  authd = false;
}

unfoldable pub is_marked : List ℕ → ℕ → Bool
is_marked [] n = false
is_marked (d ∷ del) n = d == n || is_marked del n

-- Size and number of the messages not marked, the first of them numbered `i`.
unfoldable pub total_from : ℕ → List ℕ → List Message → ℕ
total_from i del [] = 0
total_from i del (m ∷ ms) = (if is_marked del i then 0 else m.size) + total_from (i + 1) del ms

unfoldable pub count_from : ℕ → List ℕ → List Message → ℕ
count_from i del [] = 0
count_from i del (m ∷ ms) = (if is_marked del i then 0 else 1) + count_from (i + 1) del ms

unfoldable pub total_size : Session → ℕ
total_size s = total_from 1 s.del s.msgs

unfoldable pub scan_from : ℕ → List ℕ → List Message → List (ℕ × ℕ)
scan_from i del [] = []
scan_from i del (m ∷ ms) =
    let rest = scan_from (i + 1) del ms in if is_marked del i then rest else (i, m.size) ∷ rest

unfoldable pub uids_from : (Text → Text) → ℕ → List ℕ → List Message → List (ℕ × Text)
uids_from md5_hex i del [] = []
uids_from md5_hex i del (m ∷ ms) =
    let rest = uids_from md5_hex (i + 1) del ms in
    if is_marked del i then rest else (i, md5_hex (base_name m.name)) ∷ rest

-- What `message` finds for a message number.
pub data Lookup : Type 0 where
  found : ℕ → Message → Lookup
  missing : Error → Lookup

unfoldable pub pick : Session → Option ℤ → Lookup
unfolding is_marked
pick s none = missing no_such_message
pick s (some (negsuc n)) = missing no_such_message
pick s (some (pos zero)) = missing no_such_message
pick s (some (pos (suc n))) = elim (get_elem? s.msgs n) [
  | none ↦ missing no_such_message
  | some m ↦ if is_marked s.del (suc n) then missing already_deleted else found (suc n) m
]

unfoldable pub message : Session → Text → Lookup
unfolding pick
message s arg = pick s (atoi arg)
