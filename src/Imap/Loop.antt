-- ===== src/Imap/Loop.antt =====
-- The command loop of internal/imap/session.go.
pub mod Cases
pub mod Sound
pub mod Kept
pub mod Handlers
pub mod Running
pub mod Examined
pub mod Expunging
pub mod Harmless
pub mod Accounts
pub mod Removing
use verta.Common.{
  String, ℕ, zero, suc, ℤ, pos, negsuc, ◌+◌, ◌/◌, Text, codes, text_eq, to_lower, trim_space, Bool,
  true, false, ◌&&◌, ◌||◌, not, ◌==◌, if◌then◌else◌, List, [], ◌∷◌, ◌++◌, Option, none, some,
  length, map,
}
use verta.Maildir.Folders.{DirPath, folder_dir}
use verta.Maildir.Mailbox.{Mailbox, expunge}
use verta.Imap.Parsing.{
  Token, Tokens, no_tokens, also, Parsed, parsed, failed, no_fuel, next, token_string, token_upper,
  parse_seq_set, parse_line, skip_space,
}
use verta.Imap.Commands.{is_chosen, highest, cmd_expunge, cmd_copy_move}
use verta.Imap.Flagging.{cmd_store}
use verta.Imap.Searching as Searching
use verta.Imap.Fetching.{fetch_loop}
use verta.Imap.Session.{
  Env, Session, State, not_authenticated, authenticated, selected, Outcome, Reply, line,
  capabilities, exists, recent, found, fetched, quota_root, quota_line, unknown_command, reply_all,
  say, if_authd, if_selected, with_mailbox, within_session, Scan, loaded_mailbox, set_mailbox,
  with_argument,
}
use verta.Imap.Login.{capability_list, cmd_starttls, cmd_login, cmd_authenticate}
use verta.Imap.Folders.{
  count_recent, cmd_select, cmd_list, cmd_status, cmd_create, cmd_delete, cmd_subscribe, with_name,
}
use verta.Imap.Session.{is_selected}
use verta.Imap.Appending.{cmd_append}
use verta.Imap.Views.{
  report_poll, poll_mailbox, poll, cmd_noop, unselected, cmd_close, cmd_unselect, rest_of,
  fetch_set, set_given, with_set, cmd_fetch, search_tokens, search_parsed, cmd_search, poll_all,
  idle_end, cmd_idle, kib, quota_of, write_quota, cmd_get_quota_root, cmd_get_quota,
}

pub data Verb : Type 0 where
  capability noop logout starttls login authenticate select examine list lsub status create delete
        subscribe :
      Verb
  namespace check close unselect expunge_verb append fetch store search copy move idle : Verb
  get_quota_root get_quota set_quota : Verb
  unknown : Text → Verb

-- The cases of the switch, in their order.
abbrev pub verb_table : List (Text × Verb)
verb_table =
    (codes "CAPABILITY", capability)
    ∷ (codes "NOOP", noop)
    ∷ (codes "LOGOUT", logout)
    ∷ (codes "STARTTLS", starttls)
    ∷ (codes "LOGIN", login)
    ∷ (codes "AUTHENTICATE", authenticate)
    ∷ (codes "SELECT", select)
    ∷ (codes "EXAMINE", examine)
    ∷ (codes "LIST", list)
    ∷ (codes "LSUB", lsub)
    ∷ (codes "STATUS", status)
    ∷ (codes "CREATE", create)
    ∷ (codes "DELETE", delete)
    ∷ (codes "SUBSCRIBE", subscribe)
    ∷ (codes "UNSUBSCRIBE", subscribe)
    ∷ (codes "NAMESPACE", namespace)
    ∷ (codes "CHECK", check)
    ∷ (codes "CLOSE", close)
    ∷ (codes "UNSELECT", unselect)
    ∷ (codes "EXPUNGE", expunge_verb)
    ∷ (codes "APPEND", append)
    ∷ (codes "FETCH", fetch)
    ∷ (codes "STORE", store)
    ∷ (codes "SEARCH", search)
    ∷ (codes "COPY", copy)
    ∷ (codes "MOVE", move)
    ∷ (codes "IDLE", idle)
    ∷ (codes "GETQUOTAROOT", get_quota_root)
    ∷ (codes "GETQUOTA", get_quota)
    ∷ (codes "SETQUOTA", set_quota)
    ∷ []

unfoldable pub verb_in : Text → List (Text × Verb) → Verb
unfolding text_eq
verb_in cmd [] = unknown cmd
verb_in cmd ((name, v) ∷ table) = if text_eq cmd name then v else verb_in cmd table

unfoldable pub verb : Text → Verb
unfolding verb_in
verb cmd = verb_in cmd verb_table

-- The verbs that the prefix UID goes with.
unfoldable pub takes_uid : Verb → Bool
takes_uid fetch = true
takes_uid store = true
takes_uid search = true
takes_uid copy = true
takes_uid move = true
takes_uid expunge_verb = true
takes_uid _ = false

unfoldable pub perform : Env → Session → Verb → Text → Bool → Outcome
unfolding reply_all
perform e s capability args uid =
    reply_all e s (capabilities (capability_list e s) ∷ line "OK CAPABILITY completed" ∷ [])
perform e s noop args uid = cmd_noop e s
perform e s logout args uid =
    record (reply_all e s (line "* BYE logging out" ∷ line "OK LOGOUT completed" ∷ [])) {
      quit = true;
    }
perform e s starttls args uid = cmd_starttls e s
perform e s login args uid = cmd_login e s args
perform e s authenticate args uid = cmd_authenticate e s args
perform e s select args uid = cmd_select e s false args
perform e s examine args uid = cmd_select e s true args
perform e s list args uid = cmd_list e s false args
perform e s lsub args uid = cmd_list e s true args
perform e s status args uid = cmd_status e s args
perform e s create args uid = cmd_create e s args
perform e s delete args uid = cmd_delete e s args
perform e s subscribe args uid = cmd_subscribe e s args
perform e s namespace args uid =
    reply_all e s (line "* NAMESPACE ((\"\" \".\")) NIL NIL" ∷ line "OK NAMESPACE completed" ∷ [])
perform e s check args uid = if_selected e s (say e s "OK CHECK completed")
perform e s close args uid = cmd_close e s
perform e s unselect args uid = cmd_unselect e s
perform e s expunge_verb args uid =
    with_mailbox e s (λ mb. within_session e s (cmd_expunge e.commands s.view))
perform e s append args uid = cmd_append e s args
perform e s fetch args uid = cmd_fetch e s args uid
perform e s store args uid =
    with_mailbox e s (λ mb. within_session e s (cmd_store e.commands s.view args uid))
perform e s search args uid = cmd_search e s args uid
perform e s copy args uid =
    with_mailbox e s (λ mb. within_session e s (cmd_copy_move e.commands s.view args uid false))
perform e s move args uid =
    with_mailbox e s (λ mb. within_session e s (cmd_copy_move e.commands s.view args uid true))
perform e s idle args uid = cmd_idle e s
perform e s get_quota_root args uid = cmd_get_quota_root e s args
perform e s get_quota args uid = cmd_get_quota e s args
perform e s set_quota args uid = if_authd e s (say e s "NO quota is managed by the server")
perform e s (unknown cmd) args uid = reply_all e s (unknown_command cmd ∷ [])

-- What follows the word UID.
unfoldable pub dispatch_uid : Env → Session → Text → Outcome
unfolding takes_uid reply_all
dispatch_uid e s args = with_argument e s "BAD UID needs a command" args (λ sub rest.
    if takes_uid (verb (token_upper sub))
    then perform e s (verb (token_upper sub)) rest true
    else say e s "BAD UID does not apply")

-- A line: its tag, the command, and its arguments.
unfoldable pub dispatch : Env → Session → Text → Outcome
unfolding text_eq
dispatch e s l = with_argument e s "* BAD invalid command line" l (λ tag rest.
    with_argument e s "BAD missing command" rest (λ cmd args.
      if text_eq (token_upper cmd) (codes "UID")
      then dispatch_uid e s args
      else perform e s (verb (token_upper cmd)) args false))

-- One line of the loop in `run`, without its line end; a blank line is skipped.
unfoldable pub step : Env → Session → Text → Outcome
unfolding trim_space text_eq reply_all
step e s l = if text_eq (trim_space l) [] then reply_all e s [] else dispatch e s l

-- What the lines of a connection do, until it ends.
unfoldable pub run : Session → List (Env × Text) → List Outcome
run s [] = []
run s ((e, l) ∷ lines) =
    let rest = run (step e s l).session lines in
    if (step e s l).quit then step e s l ∷ [] else step e s l ∷ rest
