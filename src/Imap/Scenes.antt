-- ===== src/Imap/Scenes.antt =====
-- Connections, searches and folders, and the theorems about them at these.
use verta.Common.{
  sort_by, ℕ, Text, codes, Bool, true, false, not, List, [], ◌∷◌, ◌++◌, none, some, ◌≡◌, refl, All,
  arith, to_lower, ◌↔◌, ◌⊎◌, ◌&&◌,
}
use verta.Imap.Folders.{delete_named, message_dir}
use verta.Maildir.Folders.{folder_dir}
use verta.Imap.Loop.{step}
use verta.Imap.Loop.Removing.{step-NoneLost}
use verta.Imap.Loop.Accounts.{expected}
use verta.Maildir.Flags.{has, deleted, seen, FlagSet}
use verta.Maildir.Folders.{is_inbox, path_eq, DirPath, is_below, on_disk}
use verta.Maildir.Mailbox.{sweep, finish, Message, Mailbox, in_cur, expunge}
use verta.Maildir.Mailbox.Expunging.{with_deleted}
use verta.Imap.Parsing.{parse_seq_set, also, text, no_tokens}
use verta.Imap.Commands.{normalize_mailbox}
use verta.Imap.Searching.{body_of, key_of, Reader, matches, contains_header, loaded}
use verta.Imap.Searching.Meaning.{
  Criterion, plain, excluding, marked, unmarked, seen_mark, flagged_mark, larger, written, all_hold,
  from, matches-written,
}
use verta.Imap.Searching.Negation.{matches-not_field}
use verta.Imap.Sections.{header_of, section_text, section_of}
use verta.Imap.Sections.Chunks.{read_chunks, read_chunks_lem}
use verta.Imap.Session.{Env, Session, selected, new_session}
use verta.Imap.Folders.Deleting.{
  disk_after, removal, delete_named-inside, delete_named-outside, delete_named-empty,
}
use verta.Imap.Wildcards.{match_pattern}
use verta.Imap.Wildcards.Matching.{Matches, match_pattern_iff}
use verta.Imap.Loop.{takes_uid, run, perform, dispatch, fetch}
use verta.Imap.Loop.Running.{IsSafe, run-IsSafe}
use verta.Imap.Loop.Examined.{perform-Unchanged}
use verta.Imap.Loop.Expunging.{uid_expunge-removes}

-- The account of alice at /home/alice, with a folder, and that of bob beside it.
abbrev base : DirPath
base = codes "home" ∷ []

abbrev root : DirPath
root = codes "alice" ∷ base

abbrev disk : List DirPath
disk =
    root
    ∷ (codes ".Work" ∷ root)
    ∷ (codes "cur" ∷ codes ".Work" ∷ root)
    ∷ (codes "bob" ∷ base)
    ∷ (codes "cur" ∷ codes "bob" ∷ base)
    ∷ []

abbrev message : ℕ → FlagSet → Message
message n flags = record {
  uid = n;
  seq = n;
  name = codes "m:2,";
  sub = in_cur;
  flags = flags;
  recent = false;
  size = 9;
  internal = 0;
}

abbrev mailbox : Mailbox
mailbox = record {
  messages = message 1 [] ∷ message 2 (deleted ∷ []) ∷ message 3 (seen ∷ []) ∷ [];
  uid_validity = 1;
  uid_next = 4;
}

abbrev reader : Reader
reader = record {
  read_file = λ m. some (codes "From: bob" ++ (10 ∷ 10 ∷ codes "Hello there"));
  header_field = λ s name. some (codes "bob");
  part = λ s section. [];
  parse_date = λ s. none;
  local_day = λ n. n;
}

abbrev env : Env
env = record {
  commands = record {
    literal = none;
    exists = λ dst. true;
    copy_ok = λ m dst. true;
    rename_ok = λ m. true;
    gone = λ m. true;
  };
  reader = reader;
  tls_available = true;
  reply_sent = true;
  handshake_ok = true;
  authenticate = λ user pass. some root;
  decode = λ s. none;
  answers = [];
  disk = disk;
  made = λ p. true;
  gone = λ p. true;
  scan = λ dir. some (record { uids = []; validity = 1; next = 1 }, [], true);
  append_ok = λ s flags date. true;
  scan_after = λ dir. none;
  parse_time = λ s. none;
  quota = none;
  idle_line = some (codes "DONE");
  idle_timeout = false;
  idle_polls = [];
}

abbrev session : Bool → Session
session examined = record {
  state = selected;
  tls = true;
  user = codes "alice";
  root = root;
  folder = codes "INBOX";
  view = record { mbox = some mailbox; read_only = examined };
}

abbrev lines : List (Env × Text)
lines =
    (env, codes "a LOGIN alice secret")
    ∷ (env, codes "b SELECT Work")
    ∷ (env, codes "c FETCH 1:* (FLAGS)")
    ∷ (env, codes "d LOGOUT")
    ∷ []

run-IsSafe_example : All IsSafe (run (new_session true) lines)
run-IsSafe_example = run-IsSafe true lines

perform-Unchanged_example :
    ((perform env (session true) fetch (codes "1:* (BODY[])") true).session ≡ session true)
    × ((perform env (session true) fetch (codes "1:* (BODY[])") true).removed ≡ [])
unfolding takes_uid
perform-Unchanged_example =
    perform-Unchanged env (session true) fetch (codes "1:* (BODY[])") true refl refl

-- The set names the third message, and the second is removed.
uid_expunge-removes_example :
    (dispatch env (session false) (codes "a UID EXPUNGE " ++ codes "3")).removed
    ≡ with_deleted true mailbox.messages
unfolding expunge finish sweep has sort_by
uid_expunge-removes_example =
    uid_expunge-removes env (session false) (codes "3") mailbox (2 ∷ []) refl refl refl refl

delete_named-inside_example :
    (is_below (codes ".Work" ∷ root) (codes "bob" ∷ base) ≡ false
      → on_disk (codes "bob" ∷ base) (disk_after env (session false) (codes "Work"))
        ≡ on_disk (codes "bob" ∷ base) disk)
    × ((removal env (session false) (codes "Work")).1 ≡ none
        → is_below (codes ".Work" ∷ root) (codes "bob" ∷ base) ≡ true
        → on_disk (codes "bob" ∷ base) (disk_after env (session false) (codes "Work")) ≡ false)
unfolding normalize_mailbox is_inbox
delete_named-inside_example =
    delete_named-inside env (session false) (codes "Work") (codes "bob" ∷ base) (λ e. cc) refl refl

-- The folder of a name that is one dot is the root.
delete_named-empty_example :
    on_disk (codes "cur" ∷ codes ".Work" ∷ root) (disk_after env (session false) (codes "."))
    ≡ false
unfolding normalize_mailbox path_eq is_below
delete_named-empty_example =
    delete_named-empty env (session false) (codes ".") (codes "cur" ∷ codes ".Work" ∷ root) refl
      (λ q. refl) refl refl

abbrev climbing : Text
climbing = codes "x/../../bob"

delete_named-outside_example :
    on_disk (codes "cur" ∷ codes "bob" ∷ base) (disk_after env (session false) climbing) ≡ false
unfolding normalize_mailbox path_eq is_below
delete_named-outside_example =
    delete_named-outside env (session false) climbing (codes "x") (codes "bob") (codes "alice") base
      (codes "cur" ∷ codes "bob" ∷ base) refl refl (λ e. cc) (λ e. cc) refl refl (λ e. cc) (λ e. cc)
      (λ e. cc) (λ q. refl) refl refl

abbrev criteria : List Criterion
criteria = plain (unmarked seen_mark) ∷ excluding (marked flagged_mark) ∷ larger 5 ∷ []

matches-written_example :
    matches reader mailbox.messages (message 1 []) (written criteria)
    ≡ all_hold reader (message 1 []) criteria
matches-written_example =
    matches-written reader mailbox.messages (message 1 []) criteria (tt, (tt, (omega arith, tt)))

matches-not_field_example :
    matches reader mailbox.messages (message 1 []) (
      also
        (text (codes "NOT"))
        (also (text (codes "FROM")) (also (text (codes "carol")) no_tokens)))
    ≡ (not (contains_header reader (loaded reader (message 1 [])) (codes "FROM") [])
        && matches reader mailbox.messages (message 1 []) no_tokens)
unfolding key_of parse_seq_set
matches-not_field_example =
    matches-not_field reader mailbox.messages (message 1 []) from (codes "carol") no_tokens refl
      refl

match_pattern_iff_example : (match_pattern (codes "Work.%") (codes "Work.Done") ≡ true) ↔ (
    (to_lower (codes "Work.%") ≡ to_lower (codes "Work.Done"))
    ⊎ Matches (codes "Work.%") (codes "Work.Done"))
match_pattern_iff_example = match_pattern_iff (codes "Work.%") (codes "Work.Done")

read_chunks_lem_example :
    read_chunks reader (message 1 []) (codes "TEXT") 4 3 0
    ≡ section_of reader (message 1 []) (codes "TEXT")
unfolding section_of section_text header_of body_of
read_chunks_lem_example =
    read_chunks_lem reader (message 1 []) (codes "TEXT") 4 3 refl (omega arith) (omega arith)
      (omega arith)

-- The first message is moved, and the second one, which is flagged Deleted, goes with it.
step-NoneLost_example :
    All
      (λ r.
        expected mailbox.messages (step env (session false) (codes "a MOVE 1 Work")).copied r
        ≡ true)
      (step env (session false) (codes "a MOVE 1 Work")).removed
    ⊎ ((name : Text) × (step env (session false) (codes "a MOVE 1 Work")
          ≡ delete_named env (session false) name)
        × All
            (λ r.
              is_below (folder_dir root (normalize_mailbox name)) (message_dir (session false) r)
              ≡ true)
            (step env (session false) (codes "a MOVE 1 Work")).removed)
step-NoneLost_example = step-NoneLost env (session false) (codes "a MOVE 1 Work")
