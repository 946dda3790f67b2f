-- ===== src/Imap/Views.antt =====
-- The commands of internal/imap on the selected mailbox, in session.go and fetch.go, and the quota commands
-- of quota.go.
use verta.Common.{
  String, ℕ, zero, suc, ℤ, pos, negsuc, ◌+◌, ◌/◌, Text, codes, text_eq, to_lower, trim_space, Bool,
  ◌==◌, if◌then◌else◌, List, [], ◌∷◌, ◌++◌, Option, none, some, length, map,
}
use verta.Maildir.Folders.{DirPath, folder_dir}
use verta.Maildir.Mailbox.{Mailbox, expunge}
use verta.Imap.Parsing.{
  Tokens, no_tokens, also, Parsed, parsed, failed, no_fuel, token_string, parse_seq_set, parse_line,
  skip_space,
}
use verta.Imap.Commands.{is_chosen, highest}
use verta.Imap.Searching as Searching
use verta.Imap.Fetching.{fetch_loop}
use verta.Imap.Session.{
  Env, Session, authenticated, Outcome, Reply, line, exists, recent, found, fetched, quota_root,
  quota_line, reply_all, say, if_authd, if_selected, with_mailbox, Scan, loaded_mailbox,
  scanned_mailbox, set_mailbox, with_argument,
}
use verta.Imap.Folders.{count_recent, with_name}
use verta.Imap.Session.{is_selected}

-- pollAndReport for the selected mailbox, with its contents after Refresh and those after one without an
-- error; no reply if nothing was added or lost.
unfoldable pub report_poll :
    Session → Mailbox → Option Mailbox → Option Mailbox → Session × List Reply
unfolding set_mailbox count_recent
report_poll s mb none loaded = (s, [])
report_poll s mb (some mb') none = (set_mailbox s mb', [])
report_poll s mb (some mb') (some loaded) = (
  set_mailbox s mb',
  if length mb'.messages == length mb.messages
      then []
      else exists (length mb'.messages) ∷ recent (count_recent mb'.messages) ∷ [],
)

unfoldable pub poll_mailbox : Session → Option Mailbox → Scan → Session × List Reply
unfolding report_poll loaded_mailbox scanned_mailbox
poll_mailbox s none scan = (s, [])
poll_mailbox s (some mb) scan = report_poll s mb (scanned_mailbox scan) (loaded_mailbox scan)

unfoldable pub poll : Session → Scan → Session × List Reply
unfolding poll_mailbox
poll s scan = poll_mailbox s s.view.mbox scan

unfoldable pub cmd_noop : Env → Session → Outcome
unfolding reply_all folder_dir is_selected
cmd_noop e s =
    let polled = poll s (e.scan (folder_dir s.root s.folder)) in
    if is_selected s.state
    then reply_all e polled.0 (polled.1 ++ line "OK NOOP completed" ∷ [])
    else say e s "OK NOOP completed"

unfoldable pub unselected : Session → Session
unselected s = record s { state = authenticated; view = record s.view { mbox = none } }

-- CLOSE, which expunges without replies and drops an error.
unfoldable pub cmd_close : Env → Session → Outcome
unfolding unselected expunge reply_all
cmd_close e s =
    if s.view.read_only
    then if_selected e s (say e (unselected s) "OK CLOSE completed")
    else with_mailbox e s (λ mb. record (say e (unselected s) "OK CLOSE completed") {
      removed = (expunge e.commands.gone mb).2;
    })

unfoldable pub cmd_unselect : Env → Session → Outcome
unfolding unselected reply_all
cmd_unselect e s = if_selected e s (say e (unselected s) "OK UNSELECT completed")

-- What is left of the arguments, without spaces around it.
unfoldable pub rest_of : Text → Text
unfolding trim_space skip_space
rest_of s = trim_space (skip_space s)

unfoldable pub fetch_set : Env → Session → Mailbox → List (ℕ × ℕ) → Text → Bool → Outcome
unfolding fetch_loop set_mailbox reply_all is_chosen highest
fetch_set e s mb set items uid_mode =
    let done =
      fetch_loop e.commands e.reader items uid_mode s.view.read_only
        (is_chosen set uid_mode (highest uid_mode mb.messages)) mb.messages in
    reply_all e (set_mailbox s (record mb { messages = done.0 }))
      (map fetched done.1 ++ line "OK FETCH completed" ∷ [])

-- A command whose first argument is a sequence set.
unfoldable pub set_given :
    Env → Session → (List (ℕ × ℕ) → Outcome) → Option (List (ℕ × ℕ)) → Outcome
unfolding reply_all
set_given e s f none = say e s "BAD invalid sequence set"
set_given e s f (some set) = f set

unfoldable pub with_set : Env → Session → String → Text → (List (ℕ × ℕ) → Text → Outcome) → Outcome
unfolding token_string
with_set e s usage args f =
    with_argument e s usage args
      (λ t rest. set_given e s (λ set. f set rest) (parse_seq_set (token_string t)))

unfoldable pub cmd_fetch : Env → Session → Text → Bool → Outcome
unfolding rest_of text_eq reply_all
cmd_fetch e s args uid_mode = with_mailbox e s (λ mb.
    with_set e s "BAD FETCH needs a sequence set" args (λ set rest.
      if text_eq (rest_of rest) []
      then say e s "BAD FETCH needs data items"
      else fetch_set e s mb set (rest_of rest) uid_mode))

unfoldable pub search_tokens : Env → Session → Mailbox → Bool → Tokens → Outcome
unfolding Searching.found reply_all
search_tokens e s mb uid_mode no_tokens = say e s "BAD SEARCH needs criteria"
search_tokens e s mb uid_mode (also t ts) = reply_all e s (
    found (Searching.found e.reader mb.messages uid_mode (also t ts) mb.messages)
    ∷ line "OK SEARCH completed"
    ∷ [])

unfoldable pub search_parsed : Env → Session → Mailbox → Bool → Parsed Tokens → Outcome
unfolding reply_all
search_parsed e s mb uid_mode failed = say e s "BAD SEARCH needs criteria"
search_parsed e s mb uid_mode no_fuel = say e s "BAD SEARCH needs criteria"
search_parsed e s mb uid_mode (parsed crit rest) = search_tokens e s mb uid_mode crit

unfoldable pub cmd_search : Env → Session → Text → Bool → Outcome
cmd_search e s args uid_mode =
    with_mailbox e s (λ mb. search_parsed e s mb uid_mode (parse_line e.commands.literal args))

-- The polls of IDLE, while the client says nothing.
unfoldable pub poll_all : Session → List (DirPath → Scan) → Session × List Reply
unfolding folder_dir
poll_all s [] = (s, [])
poll_all s (scan ∷ scans) =
    let polled = poll s (scan (folder_dir s.root s.folder)) in
    let rest = poll_all polled.0 scans in (rest.0, polled.1 ++ rest.1)

-- How IDLE ends: its time is up, the client sends DONE, or the connection or the protocol breaks.
unfoldable pub idle_end : Env → List Reply
unfolding text_eq to_lower trim_space
idle_end e =
    if e.idle_timeout
    then line "* BYE idle timeout" ∷ line "OK IDLE terminated" ∷ []
    else elim e.idle_line [
      | none ↦ []
      | some l ↦
          if text_eq (to_lower (trim_space l)) (codes "done")
          then line "OK IDLE terminated" ∷ []
          else []
    ]

unfoldable pub cmd_idle : Env → Session → Outcome
unfolding idle_end reply_all
cmd_idle e s = if_selected e s (
    let polled = poll_all s e.idle_polls in
    reply_all e polled.0 (line "+ idling" ∷ (polled.1 ++ idle_end e)))

-- Whole kibibytes, rounded up.
unfoldable pub kib : ℤ → ℕ
kib (pos n) = (n + 1023) / 1024
kib (negsuc n) = 0

unfoldable pub quota_of : (ℤ × ℤ) → Option (ℕ × ℕ)
unfolding kib
quota_of (used, pos zero) = none
quota_of (used, pos (suc n)) = some (kib used, kib (pos (suc n)))
quota_of (used, negsuc n) = none

unfoldable pub write_quota : Env → Session → Reply
unfolding quota_of
write_quota e s = elim e.quota [
  | none ↦ quota_line none
  | some q ↦ quota_line (quota_of (q s.user))
]

unfoldable pub cmd_get_quota_root : Env → Session → Text → Outcome
unfolding reply_all
cmd_get_quota_root e s args = if_authd e s (
    with_name e s "BAD GETQUOTAROOT needs a mailbox" args (λ name.
      reply_all e s (quota_root name ∷ write_quota e s ∷ line "OK GETQUOTAROOT completed" ∷ [])))

unfoldable pub cmd_get_quota : Env → Session → Text → Outcome
unfolding reply_all
cmd_get_quota e s args = if_authd e s (
    with_name e s "BAD GETQUOTA needs a quota root" args
      (λ name. reply_all e s (write_quota e s ∷ line "OK GETQUOTA completed" ∷ [])))
