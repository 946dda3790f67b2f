-- ===== src/Smtp/Ownership.antt =====
-- What every command of a submission session keeps: who is logged in, and whose the transaction is.
use verta.Common.{
  ◌≡◌, inl, inr, Text, text_eq, text_eq_refl, Bool, true, false, ◌&&◌, ◌||◌, not, [], ◌∷◌, arith,
  length, leb,
}
use verta.Smtp.Session.{
  AuthAnswer, submission, is_submission, Rcpt, Session, Env, answer, hang_up, reset_transaction,
  AuthAnswer, auth_ok, auth_locked, auth_invalid,
}
use verta.Smtp.Commands.{
  Credentials, given, refused, credentials, try_credentials, authenticated, given, refused,
  Credentials, try_credentials, credentials, authenticated, cmd_helo, cmd_starttls, cmd_auth,
  cmd_mail, cmd_rcpt, check_rcpt, route_rcpt, routed_rcpt, add_rcpt, split_rcpt, parsed_rcpt,
  accept_sender, sized_sender, parsed_sender,
}
use verta.Smtp.Data.{cmd_data}
use verta.Smtp.Effects.{data_session}
use verta.Smtp.Loop.{
  Verb, helo, ehlo, starttls, mail, rcpt, data_verb, rset, noop, quit_verb, disabled, auth, help,
  unknown, dispatch, parse_line, step,
}

-- A user is logged in only over TLS; an open transaction is the user's; there are recipients only
-- in an open transaction.
abbrev pub is_own : Session → Bool
is_own s =
    (text_eq s.authed [] || s.tls)
    && (not s.from_set || (text_eq s.sender s.authed && not (text_eq s.authed [])))
    && (s.from_set || leb (length s.rcpts) 0)

-- A user who is logged in over TLS stays so.
abbrev pub Keeps : Session → Session → Type 0
Keeps s t = (text_eq s.authed [] || ((text_eq t.authed s.authed) && (not s.tls || t.tls))) ≡ true

abbrev pub Fine : Session → Session → Type 0
Fine s t = (is_own t ≡ true) × Keeps s t

pub Fine-self : (s : Session) → is_own s ≡ true → Fine s s
Fine-self s h = (h, ground (arith, text_eq_refl s.authed))

Fine-reset : (s : Session) → is_own s ≡ true → Fine s (reset_transaction s)
unfolding reset_transaction
Fine-reset s h = (ground arith, ground (arith, text_eq_refl s.authed))

helo-Fine :
    (e : Env) (s : Session) (arg : Text) (x : Bool)
    → is_own s ≡ true
    → Fine s (cmd_helo e s arg x).session
unfolding cmd_helo answer reset_transaction
helo-Fine e s arg x h = (ground arith, ground (arith, text_eq_refl s.authed))

starttls-Fine : (e : Env) (s : Session) → is_own s ≡ true → Fine s (cmd_starttls e s).session
unfolding cmd_starttls answer hang_up reset_transaction
starttls-Fine e s h = (ground arith, ground (arith, text_eq_refl s.authed))

authenticated-Fine :
    (s : Session) (user : Text) (a : AuthAnswer)
    → s.tls ≡ true
    → text_eq s.authed [] ≡ true
    → is_own s ≡ true
    → Fine s (authenticated s user a).session
unfolding authenticated answer
authenticated-Fine s user auth_ok t n h = (ground arith, ground arith)
authenticated-Fine s user auth_locked t n h = Fine-self s h
authenticated-Fine s user auth_invalid t n h = Fine-self s h

try_credentials-Fine :
    (e : Env) (s : Session) (c : Credentials)
    → s.tls ≡ true
    → text_eq s.authed [] ≡ true
    → is_own s ≡ true
    → Fine s (try_credentials e s c).session
unfolding try_credentials
try_credentials-Fine e s (refused replies) t n h = Fine-self s h
try_credentials-Fine e s (given user pass) t n h =
    authenticated-Fine s user (e.authenticate user pass s.ip) t n h

auth-Fine :
    (e : Env) (s : Session) (arg : Text) → is_own s ≡ true → Fine s (cmd_auth e s arg).session
unfolding cmd_auth answer
auth-Fine e s arg h = ground (
  arith,
  Fine-self s h,
  λ (t : s.tls ≡ true) (n : text_eq s.authed [] ≡ true).
      try_credentials-Fine e s (credentials e arg) t n h,
)

accept_sender-Fine :
    (e : Env) (s : Session) (addr : Text)
    → e.set.mode ≡ submission
    → text_eq s.authed [] ≡ false
    → is_own s ≡ true
    → Fine s (accept_sender e s addr).session
unfolding accept_sender answer is_submission
accept_sender-Fine e s addr m a h = (ground arith, ground (arith, text_eq_refl s.authed))

mail-Fine :
    (e : Env) (s : Session) (arg : Text)
    → e.set.mode ≡ submission
    → is_own s ≡ true
    → Fine s (cmd_mail e s arg).session
unfolding cmd_mail answer accept_sender sized_sender parsed_sender is_submission
mail-Fine e s arg m h = (ground arith, ground (arith, text_eq_refl s.authed))

add_rcpt-Fine :
    (s : Session) (r : Rcpt) → s.from_set ≡ true → is_own s ≡ true → Fine s (add_rcpt s r).session
unfolding add_rcpt answer
add_rcpt-Fine s r f h = (ground arith, ground (arith, text_eq_refl s.authed))

rcpt-Fine :
    (e : Env) (s : Session) (arg : Text) → is_own s ≡ true → Fine s (cmd_rcpt e s arg).session
unfolding cmd_rcpt answer parsed_rcpt split_rcpt check_rcpt route_rcpt routed_rcpt add_rcpt
rcpt-Fine e s arg h = (ground arith, ground (arith, text_eq_refl s.authed))

data-Fine : (e : Env) (s : Session) → is_own s ≡ true → Fine s (cmd_data e s).session
data-Fine e s h = elim (data_session e s) [
  | inl same ↦ rw same (Fine-self s h)
  | inr reset ↦ rw reset (Fine-reset s h)
]

dispatch-Fine :
    (e : Env) (s : Session) (v : Verb) (arg : Text)
    → e.set.mode ≡ submission
    → is_own s ≡ true
    → Fine s (dispatch e s v arg).session
unfolding dispatch answer
dispatch-Fine e s helo arg m h = helo-Fine e s arg false h
dispatch-Fine e s ehlo arg m h = helo-Fine e s arg true h
dispatch-Fine e s starttls arg m h = starttls-Fine e s h
dispatch-Fine e s mail arg m h = mail-Fine e s arg m h
dispatch-Fine e s rcpt arg m h = rcpt-Fine e s arg h
dispatch-Fine e s data_verb arg m h = data-Fine e s h
dispatch-Fine e s rset arg m h = Fine-reset s h
dispatch-Fine e s noop arg m h = Fine-self s h
dispatch-Fine e s quit_verb arg m h = Fine-self s h
dispatch-Fine e s disabled arg m h = Fine-self s h
dispatch-Fine e s auth arg m h = auth-Fine e s arg h
dispatch-Fine e s help arg m h = Fine-self s h
dispatch-Fine e s unknown arg m h = Fine-self s h

pub step-Fine :
    (e : Env) (s : Session) (l : Text)
    → e.set.mode ≡ submission
    → is_own s ≡ true
    → Fine s (step e s l).session
unfolding step
step-Fine e s [] m h = Fine-self s h
step-Fine e s (c ∷ l) m h = dispatch-Fine e s (parse_line (c ∷ l)).0 (parse_line (c ∷ l)).1 m h
