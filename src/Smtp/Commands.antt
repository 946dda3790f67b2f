-- ===== src/Smtp/Commands.antt =====
-- HELO, STARTTLS, AUTH, MAIL and RCPT of internal/smtp/session.go.
use verta.Common.{
  ℕ, Text, codes, Bool, true, false, ◌&&◌, ◌||◌, not, if◌then◌else◌, List, [], ◌∷◌, ◌++◌, Option,
  none, some, leb, ltb, length, text_eq, to_lower, to_upper, trim_space, cut, split_on,
}
use verta.Smtp.Parsing.{split_addr, parse_path, size_param, sanitize_helo}
use verta.Smtp.Session.{
  Plan, Rcpt, Session, AuthAnswer, auth_ok, auth_locked, auth_invalid, Env, Reply, line, line_with,
  too_large, size_limit, Outcome, answer, hang_up, reset_transaction, is_submission,
}

-- The lines of an EHLO answer; all but the last have a dash after the code.
unfoldable pub capabilities : Env → Session → List Reply
capabilities e s =
    line_with "250" e.set.hostname
    ∷ line "250 PIPELINING"
    ∷ size_limit e.set.max_size
    ∷ line "250 8BITMIME"
    ∷ line "250 SMTPUTF8"
    ∷ ((if e.set.has_tls && not s.tls then line "250 STARTTLS" ∷ [] else [])
        ++ (if is_submission e.set.mode && s.tls && e.has_authenticate
            then line "250 AUTH PLAIN LOGIN" ∷ []
            else []))

unfoldable pub cmd_helo : Env → Session → Text → Bool → Outcome
cmd_helo e s arg extended =
    if text_eq arg []
    then answer s (line "501 5.5.4 hostname required")
    else let t = reset_transaction (record s { helo = sanitize_helo e.runes arg }) in
      if not extended
      then answer t (line_with "250" e.set.hostname)
      else record { session = t; replies = capabilities e t; quit = false; effects = [] }

unfoldable pub cmd_starttls : Env → Session → Outcome
cmd_starttls e s =
    if not e.set.has_tls
    then answer s (line "454 4.7.0 TLS not available")
    else if s.tls
    then answer s (line "503 5.5.1 already in TLS")
    else if not e.reply_sent
    then hang_up s
    else if not e.handshake_ok
    then hang_up s
    else record {
      session = reset_transaction (record s { tls = true; helo = [] });
      replies = line "220 2.0.0 ready to start TLS" ∷ [];
      quit = false;
      effects = [];
    }

-- User and password, or the reply that refuses them; the 334 prompts are left out.
pub data Credentials : Type 0 where
  given : Text → Text → Credentials
  refused : List Reply → Credentials

-- "authzid NUL authcid NUL password"
unfoldable pub plain_parts : List Text → Credentials
plain_parts (authzid ∷ user ∷ pass ∷ []) =
    if text_eq user []
    then refused (line "501 5.5.2 invalid PLAIN response" ∷ [])
    else given user pass
plain_parts _ = refused (line "501 5.5.2 invalid PLAIN response" ∷ [])

unfoldable pub decode_plain : Env → Text → Credentials
decode_plain e resp = elim (e.base64 resp) [
  | none ↦ refused (line "501 5.5.2 invalid base64" ∷ [])
  | some raw ↦ plain_parts (split_on 0 raw)
]

-- The response is the next line, where the command carries none.
unfoldable pub auth_plain : Env → Text → Credentials
auth_plain e (c ∷ initial) = decode_plain e (c ∷ initial)
auth_plain e [] = if not e.reply_sent then refused [] else elim e.next_lines [
  | [] ↦ refused (line "501 5.7.0 authentication cancelled" ∷ [])
  | resp ∷ more ↦
      if text_eq resp (codes "*")
      then refused (line "501 5.7.0 authentication cancelled" ∷ [])
      else decode_plain e resp
]

-- One prompt of AUTH LOGIN: what the next line decodes to, and the lines after it.
unfoldable pub ask : Env → List Text → Option Text
ask e [] = none
ask e (l ∷ more) = if text_eq l (codes "*") then none else e.base64 l

unfoldable pub ask_reply : List Text → List Reply
ask_reply [] = line "501 5.7.0 authentication cancelled" ∷ []
ask_reply (l ∷ more) =
    if text_eq l (codes "*")
    then line "501 5.7.0 authentication cancelled" ∷ []
    else line "501 5.5.2 invalid base64" ∷ []

unfoldable pub tail_of : List Text → List Text
tail_of [] = []
tail_of (l ∷ more) = more

unfoldable pub auth_login : Env → Credentials
auth_login e = if not e.reply_sent then refused [] else elim (ask e e.next_lines) [
  | none ↦ refused (ask_reply e.next_lines)
  | some user ↦ elim (ask e (tail_of e.next_lines)) [
    | none ↦ refused (ask_reply (tail_of e.next_lines))
    | some pass ↦ given user pass
  ]
]

unfoldable pub mechanism : Text → Text × Text
mechanism arg = elim (cut (codes " ") arg) [ none ↦ (arg, []) | some parts ↦ parts ]

unfoldable pub credentials : Env → Text → Credentials
credentials e arg =
    if text_eq (to_upper (mechanism arg).0) (codes "PLAIN")
    then auth_plain e (mechanism arg).1
    else if text_eq (to_upper (mechanism arg).0) (codes "LOGIN")
    then auth_login e
    else refused (line "504 5.5.4 mechanism not supported" ∷ [])

unfoldable pub authenticated : Session → Text → AuthAnswer → Outcome
authenticated s user auth_ok =
    answer (record s { authed = to_lower user }) (line "235 2.7.0 authentication successful")
authenticated s user auth_locked =
    answer s (line "454 4.7.0 too many failed attempts, try again later")
authenticated s user auth_invalid = answer s (line "535 5.7.8 authentication credentials invalid")

unfoldable pub try_credentials : Env → Session → Credentials → Outcome
try_credentials e s (refused replies) = record {
  session = s;
  replies = replies;
  quit = false;
  effects = [];
}
try_credentials e s (given user pass) = authenticated s user (e.authenticate user pass s.ip)

unfoldable pub cmd_auth : Env → Session → Text → Outcome
cmd_auth e s arg =
    if not (is_submission e.set.mode) || not e.has_authenticate
    then answer s (line "503 5.5.1 authentication not available on this port")
    else if not s.tls
    then answer s (line "530 5.7.0 must issue STARTTLS first")
    else if not (text_eq s.authed [])
    then answer s (line "503 5.5.1 already authenticated")
    else try_credentials e s (credentials e arg)

-- The sender's address, once it has been read.
unfoldable pub accept_sender : Env → Session → Text → Outcome
accept_sender e s addr =
    if is_submission e.set.mode && not (text_eq addr s.authed)
    then answer s (line "553 5.7.1 sender address must be the authenticated user")
    else answer (record s { sender = addr; from_set = true }) (line "250 2.1.0 OK")

unfoldable pub sized_sender : Env → Session → Text → Option ℕ → Outcome
sized_sender e s addr none = answer s (line "501 5.5.4 invalid SIZE parameter")
sized_sender e s addr (some size) =
    if ltb e.set.max_size size
    then answer s (too_large e.set.max_size)
    else accept_sender e s (to_lower addr)

unfoldable pub parsed_sender : Env → Session → Option (Text × List Text) → Outcome
parsed_sender e s none = answer s (line_with "501 5.5.4" (codes "syntax error"))
parsed_sender e s (some (addr, params)) = sized_sender e s addr (size_param params)

unfoldable pub cmd_mail : Env → Session → Text → Outcome
cmd_mail e s arg =
    if text_eq s.helo []
    then answer s (line "503 5.5.1 send HELO/EHLO first")
    else if s.from_set
    then answer s (line "503 5.5.1 nested MAIL command")
    else if is_submission e.set.mode && text_eq s.authed []
    then answer s (line "530 5.7.0 authentication required")
    else parsed_sender e s (parse_path arg (codes "FROM:"))

unfoldable pub add_rcpt : Session → Rcpt → Outcome
add_rcpt s r = answer (record s { rcpts = s.rcpts ++ r ∷ [] }) (line "250 2.1.5 OK")

unfoldable pub routed_rcpt : Session → Text → Text → Option Plan → Outcome
routed_rcpt s addr domain none = answer s (line "550 5.1.1 no such user here")
routed_rcpt s addr domain (some plan) =
    add_rcpt s (record { addr = addr; remote = false; domain = domain; plan = plan })

-- A recipient that the limits let through.
unfoldable pub route_rcpt : Env → Session → Text → Text → Outcome
route_rcpt e s addr domain =
    if not (e.is_local_domain domain)
    then add_rcpt s (record {
      addr = addr;
      remote = true;
      domain = [];
      plan = record { local = []; remote = [] };
    })
    else routed_rcpt s addr domain (e.route addr)

-- A recipient with a valid address.
unfoldable pub check_rcpt : Env → Session → Text → Text → Outcome
check_rcpt e s addr domain =
    if not (is_submission e.set.mode) && not (e.is_local_domain domain)
    then answer s (line "554 5.7.1 relay access denied")
    else if not (is_submission e.set.mode) && not (e.in_rcpt_allowed s.ip)
    then answer s (line "452 4.4.5 too many recipients, slow down")
    else if is_submission e.set.mode && not (e.out_rcpt_allowed s.authed)
    then answer s (line "452 4.4.5 recipient quota exceeded, try again later")
    else if not (e.rule_rcpt_allowed addr domain)
    then answer s (line "452 4.4.5 recipient rate limit exceeded, try again later")
    else route_rcpt e s addr domain

-- A bare postmaster is the configured address.
unfoldable pub rcpt_address : Env → Text → Text
rcpt_address e addr =
    let a = to_lower (trim_space addr) in
    if text_eq a (codes "postmaster") && not (text_eq e.postmaster []) then e.postmaster else a

-- The address taken apart at its last @.
unfoldable pub split_rcpt : Env → Session → Text → Option (Text × Text) → Outcome
split_rcpt e s addr none = answer s (line "501 5.1.3 invalid address")
split_rcpt e s addr (some (local, domain)) = check_rcpt e s addr domain

unfoldable pub parsed_rcpt : Env → Session → Option (Text × List Text) → Outcome
parsed_rcpt e s none = answer s (line_with "501 5.5.4" (codes "syntax error"))
parsed_rcpt e s (some (addr, params)) =
    split_rcpt e s (rcpt_address e addr) (split_addr (rcpt_address e addr))

unfoldable pub cmd_rcpt : Env → Session → Text → Outcome
cmd_rcpt e s arg =
    if not s.from_set
    then answer s (line "503 5.5.1 need MAIL before RCPT")
    else if leb e.set.max_recipients (length s.rcpts)
    then answer s (line "452 4.5.3 too many recipients")
    else parsed_rcpt e s (parse_path arg (codes "TO:"))
