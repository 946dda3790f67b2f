-- ===== src/Imap/Folders.antt =====
-- SELECT, EXAMINE, LIST, LSUB, STATUS, CREATE, DELETE and SUBSCRIBE of internal/imap/session.go.
pub mod Deleting
use verta.Common.{
  ◌||◌, ltb, String, ℕ, ◌+◌, Text, codes, text_eq, to_lower, Bool, true, false, ◌&&◌, not,
  if◌then◌else◌, List, [], ◌∷◌, ◌++◌, Option, none, some, length, ltb, zero, suc,
}
use verta.Maildir.Flags.{FlagSet, has, seen, add, flag_from_imap}
use verta.Maildir.Folders.{
  is_inbox, is_below, on_disk, DirPath, FolderError, inbox_exists, mailbox_exists, inbox_kept,
  no_mailbox, file_error, folder_dir, folders, special_use, create_folder, delete_folder, open_dirs,
}
use verta.Maildir.Mailbox.{Sub, in_new, in_cur, Message, Mailbox}
use verta.Imap.Parsing.{
  Token, Tokens, no_tokens, also, text, literal_text, group, Parsed, parsed, failed, no_fuel, next,
  token_string, token_upper,
}
use verta.Imap.Commands.{chosen, normalize_mailbox, last_uid}
use verta.Imap.Flagging.{add_imap_flags}
use verta.Imap.Wildcards.{match_pattern}
use verta.Imap.Session.{
  messages_in, Env, Session, State, not_authenticated, authenticated, selected, Outcome, Reply,
  line, exists, recent, first_unseen, uid_validity, uid_next, permanent_flags, select_ok,
  folder_line, list_probe, list_ok, status, append_ok, reply_all, say, if_authd, Scan,
  loaded_mailbox, set_mailbox, argument, with_argument,
}

unfoldable pub count_recent : List Message → ℕ
count_recent [] = 0
count_recent (m ∷ ms) = if m.recent then 1 + count_recent ms else count_recent ms

unfoldable pub count_unseen : List Message → ℕ
unfolding has
count_unseen [] = 0
count_unseen (m ∷ ms) = if has m.flags seen then count_unseen ms else 1 + count_unseen ms

-- The sequence number of the first unseen message, or 0.
unfoldable pub unseen_seq : List Message → ℕ
unfolding has
unseen_seq [] = 0
unseen_seq (m ∷ ms) = if has m.flags seen then unseen_seq ms else m.seq

-- openMailbox: the folder's layout is made where it is missing. The disk after it, and the mailbox.
unfoldable pub open_mailbox : Env → Session → Text → List DirPath × Option Mailbox
unfolding open_dirs normalize_mailbox folder_dir loaded_mailbox
open_mailbox e s name =
    let opened = open_dirs e.made e.disk s.root (normalize_mailbox name) in
    (
      opened.0,
      if opened.1
          then loaded_mailbox (e.scan (folder_dir s.root (normalize_mailbox name)))
          else none,
    )

-- A command whose argument is one mailbox name.
unfoldable pub with_name : Env → Session → String → Text → (Text → Outcome) → Outcome
unfolding token_string
with_name e s usage args f = with_argument e s usage args (λ name rest. f (token_string name))

-- A command on a mailbox that it opens, with the reply if that fails.
unfoldable pub opened :
    Env → Session → String → (Mailbox → Outcome) → List DirPath × Option Mailbox → Outcome
unfolding reply_all
opened e s failure f (disk, none) = record (say e s failure) { disk = disk }
opened e s failure f (disk, some mb) = record (f mb) { disk = disk }

unfoldable pub with_opened : Env → Session → Text → String → (Mailbox → Outcome) → Outcome
with_opened e s name failure f = opened e s failure f (open_mailbox e s name)

unfoldable pub unseen_line : List Message → List Reply
unfolding unseen_seq
unseen_line ms = let n = unseen_seq ms in if ltb 0 n then first_unseen n ∷ [] else []

unfoldable pub select_replies : Bool → Mailbox → List Reply
unfolding count_recent unseen_line
select_replies examine mb =
    (exists (length mb.messages) ∷ recent (count_recent mb.messages) ∷ [])
    ++ (unseen_line mb.messages
        ++ (line "* FLAGS (\\Answered \\Flagged \\Deleted \\Seen \\Draft)"
            ∷ permanent_flags (not examine)
            ∷ uid_validity mb.uid_validity
            ∷ uid_next mb.uid_next
            ∷ select_ok examine
            ∷ []))

unfoldable pub select_named : Env → Session → Bool → Text → Outcome
unfolding select_replies reply_all normalize_mailbox
select_named e s examine name = with_opened e s name "NO mailbox does not exist" (λ mb.
    reply_all e
      (record s {
        state = selected;
        folder = normalize_mailbox name;
        view = record { mbox = some mb; read_only = examine };
      })
      (select_replies examine mb))

unfoldable pub cmd_select : Env → Session → Bool → Text → Outcome
cmd_select e s examine args =
    if_authd e s (with_name e s "BAD needs a mailbox name" args (select_named e s examine))

unfoldable pub folder_lines : Bool → Text → List Text → List Reply
unfolding match_pattern special_use
folder_lines lsub pat [] = []
folder_lines lsub pat (f ∷ names) =
    let rest = folder_lines lsub pat names in
    if match_pattern pat f then folder_line lsub (special_use f) f ∷ rest else rest

unfoldable pub list_folders : Env → Session → Bool → Text → Text → Outcome
unfolding folder_lines folders text_eq reply_all
list_folders e s lsub reference pat =
    if text_eq pat []
    then reply_all e s (list_probe lsub ∷ list_ok lsub ∷ [])
    else reply_all e s
        (folder_lines lsub (reference ++ pat) (folders s.root e.disk) ++ list_ok lsub ∷ [])

unfoldable pub cmd_list : Env → Session → Bool → Text → Outcome
unfolding token_string
cmd_list e s lsub args = if_authd e s (
    with_argument e s "BAD needs a reference and a pattern" args (λ reference rest.
      with_argument e s "BAD needs a reference and a pattern" rest
        (λ pat after. list_folders e s lsub (token_string reference) (token_string pat))))

unfoldable pub status_item : Mailbox → Text → List (Text × ℕ)
unfolding text_eq count_recent count_unseen
status_item mb key =
    if text_eq key (codes "MESSAGES")
    then (key, length mb.messages) ∷ []
    else if text_eq key (codes "RECENT")
    then (key, count_recent mb.messages) ∷ []
    else if text_eq key (codes "UIDNEXT")
    then (key, mb.uid_next) ∷ []
    else if text_eq key (codes "UIDVALIDITY")
    then (key, mb.uid_validity) ∷ []
    else if text_eq key (codes "UNSEEN")
    then (key, count_unseen mb.messages) ∷ []
    else []

unfoldable pub status_items : Mailbox → Tokens → List (Text × ℕ)
unfolding status_item
status_items mb no_tokens = []
status_items mb (also t ts) = status_item mb (token_upper t) ++ status_items mb ts

unfoldable pub status_of : Env → Session → Text → Token → Outcome
unfolding status_items reply_all normalize_mailbox
status_of e s name (group items) = with_opened e s name "NO mailbox does not exist" (λ mb.
    reply_all e s
      (status (normalize_mailbox name) (status_items mb items) ∷ line "OK STATUS completed" ∷ []))
status_of e s name (text t) = say e s "BAD STATUS needs an item list"
status_of e s name (literal_text t) = say e s "BAD STATUS needs an item list"

unfoldable pub cmd_status : Env → Session → Text → Outcome
unfolding token_string
cmd_status e s args = if_authd e s (
    with_argument e s "BAD STATUS needs a mailbox" args (λ name rest.
      with_argument e s "BAD STATUS needs an item list" rest
        (λ items after. status_of e s (token_string name) items)))

unfoldable pub error_line : FolderError → Reply
error_line inbox_exists = line "NO INBOX already exists"
error_line mailbox_exists = line "NO mailbox already exists"
error_line inbox_kept = line "NO cannot delete INBOX"
error_line no_mailbox = line "NO mailbox does not exist"
error_line file_error = line "NO file error"

-- The reply to a change of the folders.
unfoldable pub changed : Env → Session → String → List DirPath × Option FolderError → Outcome
unfolding reply_all error_line
changed e s good (disk, none) = record (say e s good) { disk = disk }
changed e s good (disk, some err) = record (reply_all e s (error_line err ∷ [])) { disk = disk }

unfoldable pub sub_name : Sub → Text
sub_name in_new = codes "new"
sub_name in_cur = codes "cur"

-- The directory of a message's file, if the message is of the selected mailbox.
unfoldable pub message_dir : Session → Message → DirPath
unfolding sub_name folder_dir
message_dir s m = sub_name m.sub ∷ folder_dir s.root s.folder

-- The messages of the selected mailbox whose files a deletion of the folder removes.
unfoldable pub deleted_messages : Env → Session → Text → List Message
unfolding is_inbox folder_dir is_below message_dir chosen
deleted_messages e s folder =
    if is_inbox folder || not (on_disk (folder_dir s.root folder) e.disk)
    then []
    else chosen (λ m. is_below (folder_dir s.root folder) (message_dir s m) && e.commands.gone m)
        (messages_in s.view.mbox)

unfoldable pub delete_named : Env → Session → Text → Outcome
unfolding delete_folder normalize_mailbox deleted_messages
delete_named e s name =
    record (changed e s "OK DELETE completed"
      (delete_folder e.gone e.disk s.root (normalize_mailbox name))) {
        removed = deleted_messages e s (normalize_mailbox name);
      }

unfoldable pub create_named : Env → Session → Text → Outcome
unfolding create_folder normalize_mailbox
create_named e s name =
    changed e s "OK CREATE completed" (create_folder e.made e.disk s.root (normalize_mailbox name))

unfoldable pub cmd_create : Env → Session → Text → Outcome
cmd_create e s args =
    if_authd e s (with_name e s "BAD CREATE needs a mailbox name" args (create_named e s))

unfoldable pub cmd_delete : Env → Session → Text → Outcome
cmd_delete e s args =
    if_authd e s (with_name e s "BAD DELETE needs a mailbox name" args (delete_named e s))

unfoldable pub subscribe_named : Env → Session → Text → Outcome
unfolding reply_all
subscribe_named e s name =
    with_opened e s name "NO mailbox does not exist" (λ mb. say e s "OK completed")

unfoldable pub cmd_subscribe : Env → Session → Text → Outcome
cmd_subscribe e s args =
    if_authd e s (with_name e s "BAD needs a mailbox name" args (subscribe_named e s))
