-- ===== src/Imap/Login.antt =====
-- CAPABILITY, STARTTLS, LOGIN and AUTHENTICATE of internal/imap/session.go.
use verta.Common.{
  String, Text, codes, text_eq, to_lower, trim_space, split_on, Bool, true, false, ◌&&◌, ◌||◌, not,
  if◌then◌else◌, List, [], ◌∷◌, ◌++◌, Option, none, some,
}
use verta.Maildir.Folders.{DirPath, ensure_standard_folders}
use verta.Imap.Parsing.{Token, Parsed, parsed, failed, no_fuel, token_string, token_upper}
use verta.Imap.Session.{
  Env, Session, State, not_authenticated, authenticated, selected, Outcome, login_ok, reply_all,
  say, argument, with_argument,
}

unfoldable pub is_new_session : State → Bool
is_new_session not_authenticated = true
is_new_session authenticated = false
is_new_session selected = false

abbrev pub with_quota : Env → List Text
with_quota e = elim e.quota [ none ↦ [] | some q ↦ codes "QUOTA" ∷ [] ]

unfoldable pub capability_list : Env → Session → List Text
unfolding is_new_session
capability_list e s =
    (codes "IMAP4rev1"
      ∷ codes "IDLE"
      ∷ codes "UIDPLUS"
      ∷ codes "MOVE"
      ∷ codes "NAMESPACE"
      ∷ codes "CHILDREN"
      ∷ codes "SPECIAL-USE"
      ∷ [])
    ++ (with_quota e
        ++ ((if not s.tls && e.tls_available then codes "STARTTLS" ∷ [] else [])
            ++ (if not s.tls
                then codes "LOGINDISABLED" ∷ []
                else if is_new_session s.state
                then codes "AUTH=PLAIN" ∷ codes "AUTH=LOGIN" ∷ []
                else [])))

unfoldable pub cmd_starttls : Env → Session → Outcome
unfolding reply_all
cmd_starttls e s =
    if not e.tls_available
    then say e s "NO TLS not available"
    else if s.tls
    then say e s "BAD already in TLS"
    else if not e.reply_sent || not e.handshake_ok
    then record (say e s "OK begin TLS negotiation") { quit = true }
    else say e (record s { tls = true }) "OK begin TLS negotiation"

-- The session of a user whose account has a root; a standard folder that cannot be made is passed by.
unfoldable pub log_in : Env → Session → Text → Option DirPath → Outcome
unfolding reply_all ensure_standard_folders to_lower
log_in e s user none = say e s "NO [AUTHENTICATIONFAILED] authentication failed"
log_in e s user (some root) =
    let s' = record s { user = to_lower user; root = root; state = authenticated } in
    record (reply_all e s' (login_ok (capability_list e s') ∷ [])) {
      disk = (ensure_standard_folders e.made root e.disk).0;
    }

-- session.authenticate
unfoldable pub authenticate : Env → Session → Text → Text → Outcome
authenticate e s user pass = log_in e s user (e.authenticate user pass)

-- The guards that LOGIN and AUTHENTICATE begin with.
unfoldable pub may_log_in : Env → Session → String → Outcome → Outcome
unfolding reply_all is_new_session
may_log_in e s refusal o =
    if not s.tls
    then say e s refusal
    else if not (is_new_session s.state)
    then say e s "BAD already authenticated"
    else o

unfoldable pub cmd_login : Env → Session → Text → Outcome
unfolding token_string
cmd_login e s args = may_log_in e s "NO [PRIVACYREQUIRED] STARTTLS required before LOGIN" (
    with_argument e s "BAD LOGIN needs a username and a password" args (λ user rest.
      with_argument e s "BAD LOGIN needs a username and a password" rest
        (λ pass after. authenticate e s (token_string user) (token_string pass))))

-- What a client answers to a continuation request: its text and the lines after it, or the reply.
pub data Answer : Type 0 where
  answered : Text → List Text → Answer
  refused : String → Answer

unfoldable pub read_response : Env → List Text → Answer
unfolding text_eq trim_space
read_response e [] = refused "BAD authentication cancelled"
read_response e (l ∷ lines) =
    if text_eq l (codes "*")
    then refused "BAD authentication cancelled"
    else elim (e.decode (trim_space l)) [
      | none ↦ refused "BAD invalid base64"
      | some raw ↦ answered raw lines
    ]

-- The user and password of a PLAIN response, whose parts NUL separates.
unfoldable pub plain_parts : List Text → Option (Text × Text)
unfolding text_eq
plain_parts (authzid ∷ user ∷ pass ∷ []) = if text_eq user [] then none else some (user, pass)
plain_parts _ = none

unfoldable pub plain_login : Env → Session → Option (Text × Text) → Outcome
unfolding reply_all
plain_login e s none = say e s "BAD invalid PLAIN response"
plain_login e s (some (user, pass)) = authenticate e s user pass

unfoldable pub plain_response : Env → Session → Answer → Outcome
unfolding plain_parts split_on reply_all
plain_response e s (refused why) = say e s why
plain_response e s (answered raw lines) = plain_login e s (plain_parts (split_on 0 raw))

-- An initial response on the command's line, or one that is asked for.
unfoldable pub initial_response : Env → Parsed Token → Answer
unfolding token_string text_eq
initial_response e failed = read_response e e.answers
initial_response e no_fuel = read_response e e.answers
initial_response e (parsed t rest) =
    if text_eq (token_string t) (codes "=")
    then read_response e e.answers
    else elim (e.decode (token_string t)) [
      | none ↦ refused "BAD invalid base64"
      | some raw ↦ answered raw e.answers
    ]

unfoldable pub password_response : Env → Session → Text → Answer → Outcome
unfolding reply_all
password_response e s user (refused why) = say e s why
password_response e s user (answered pass rest) = authenticate e s user pass

unfoldable pub login_responses : Env → Session → Answer → Outcome
unfolding reply_all
login_responses e s (refused why) = say e s why
login_responses e s (answered user lines) = password_response e s user (read_response e lines)

unfoldable pub by_mechanism : Env → Session → Text → Text → Outcome
unfolding text_eq reply_all
by_mechanism e s mechanism rest =
    if text_eq mechanism (codes "PLAIN")
    then plain_response e s (initial_response e (argument e rest))
    else if text_eq mechanism (codes "LOGIN")
    then login_responses e s (read_response e e.answers)
    else say e s "NO unsupported authentication mechanism"

unfoldable pub cmd_authenticate : Env → Session → Text → Outcome
cmd_authenticate e s args =
    may_log_in e s "NO [PRIVACYREQUIRED] STARTTLS required before AUTHENTICATE" (
      with_argument e s "BAD AUTHENTICATE needs a mechanism" args
        (λ mechanism rest. by_mechanism e s (token_upper mechanism) rest))
