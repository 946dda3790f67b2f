-- ===== src/Imap/Appending.antt =====
-- APPEND of internal/imap/session.go.
use verta.Imap.Session.{is_selected}
use verta.Imap.Folders.{with_opened}
use verta.Common.{
  ℕ, Text, text_eq, Bool, true, false, ◌&&◌, not, if◌then◌else◌, List, [], ◌∷◌, ◌++◌, Option, none,
  some, length, zero, suc,
}
use verta.Maildir.Flags.{FlagSet}
use verta.Maildir.Folders.{DirPath, folder_dir}
use verta.Maildir.Mailbox.{Mailbox}
use verta.Imap.Parsing.{Token, text, literal_text, group, parsed, failed, no_fuel, token_string}
use verta.Imap.Commands.{normalize_mailbox, last_uid}
use verta.Imap.Flagging.{add_imap_flags}
use verta.Imap.Session.{
  Env, Session, Outcome, Reply, exists, append_ok, reply_all, say, if_authd, loaded_mailbox,
  scanned_mailbox, set_mailbox, argument, with_argument,
}

-- The arguments of APPEND: the flags, the date and the message.
pub record Appended : Type 0 where
  pub flags : FlagSet
  pub internal : Option ℕ
  pub message : Option Text

unfoldable pub append_argument : Env → Appended → Token → Appended
unfolding add_imap_flags
append_argument e a (literal_text t) = record a { message = some t }
append_argument e a (group ts) = record a { flags = add_imap_flags a.flags ts }
append_argument e a (text t) = elim (e.parse_time t) [
  | none ↦ a
  | some d ↦ record a { internal = some d }
]

-- The loop over the arguments; the fuel is more than there are tokens.
unfoldable pub append_arguments : Env → ℕ → Appended → Text → Appended
unfolding append_argument
append_arguments e zero a s = a
append_arguments e (suc n) a s = elim (argument e s) [
  | failed ↦ a
  | no_fuel ↦ a
  | parsed t rest ↦ append_arguments e n (append_argument e a t) rest
]

-- Mailbox.Append: the folder with the message in it, and the UID of its last message.
unfoldable pub append_message : Env → DirPath → Text → Appended → Option (Mailbox × ℕ)
unfolding loaded_mailbox last_uid
append_message e dir message a =
    if not (e.append_ok message a.flags a.internal)
    then none
    else elim (loaded_mailbox (e.scan_after dir)) [
      | none ↦ none
      | some mb ↦ elim mb.messages [ [] ↦ none | m ∷ ms ↦ some (mb, last_uid mb.messages) ]
    ]

-- The selected mailbox once more, where it is the one appended to, with what its Refresh gives it.
unfoldable pub refreshed : Session → Option Mailbox → Session × List Reply
unfolding set_mailbox
refreshed s none = (s, elim s.view.mbox [ none ↦ [] | some mb ↦ exists (length mb.messages) ∷ [] ])
refreshed s (some mb) = (set_mailbox s mb, exists (length mb.messages) ∷ [])

unfoldable pub after_append : Env → Session → Text → Session × List Reply
unfolding is_selected scanned_mailbox folder_dir text_eq
after_append e s folder =
    if is_selected s.state && text_eq s.folder folder
    then refreshed s (scanned_mailbox (e.scan_after (folder_dir s.root s.folder)))
    else (s, [])

-- Whether the comparison with the selected mailbox dereferences nil.
unfoldable pub nil_selected : Session → Bool
unfolding is_selected
nil_selected s = is_selected s.state && (elim s.view.mbox [ none ↦ true | some mb ↦ false ])

-- The reply to APPEND, and what it does to the selected mailbox.
unfoldable pub report_append : Env → Session → Text → Option (Mailbox × ℕ) → Outcome
unfolding reply_all
report_append e s folder none = say e s "NO append failed"
report_append e s folder (some (mb, uid)) =
    let after = after_append e s folder in
    record (reply_all e after.0 (after.1 ++ append_ok mb.uid_validity uid ∷ [])) {
      crashed = nil_selected s;
    }

unfoldable pub append_to : Env → Session → Text → Text → Appended → Outcome
unfolding normalize_mailbox folder_dir
append_to e s name message a = with_opened e s name "NO [TRYCREATE] mailbox does not exist" (λ mb.
    report_append e s (normalize_mailbox name)
      (append_message e (folder_dir s.root (normalize_mailbox name)) message a))

unfoldable pub append_read : Env → Session → Text → Appended → Option Text → Outcome
unfolding reply_all
append_read e s name a none = say e s "BAD APPEND needs message data"
append_read e s name a (some message) = append_to e s name message a

unfoldable pub cmd_append : Env → Session → Text → Outcome
unfolding token_string
cmd_append e s args = if_authd e s (
    with_argument e s "BAD APPEND needs a mailbox" args (λ name rest.
      let a =
        append_arguments e (suc (length rest))
          (record { flags = []; internal = none; message = none }) rest in
      append_read e s (token_string name) a a.message))
