-- ===== src/Imap/Loop/Sound.antt =====
-- Sessions are authenticated only over TLS, and the selected mailbox is there.
use verta.Common.{
  codes, text_eq, Text, Bool, true, false, ◌||◌, ◌&&◌, not, List, Option, none, some, ◌≡◌, refl,
  arith, if◌then◌else◌, String,
}
use verta.Maildir.Folders.{DirPath}
use verta.Imap.Parsing.{Token, Parsed}
use verta.Imap.Session.{
  Env, Session, Outcome, Reply, reply_all, if_authd, if_selected, say, with_argument, argument,
}
use verta.Imap.Login.{is_new_session, cmd_starttls, cmd_login, cmd_authenticate, may_log_in}
use verta.Imap.Login as Login
use verta.Imap.Session.{is_selected}

abbrev pub is_there {ℓ} : {A : Type ℓ} → Option A → Bool
is_there none = false
is_there (some a) = true

-- Whoever is authenticated uses TLS, and if a mailbox is selected, it is there.
unfoldable pub is_sound : Session → Bool
unfolding is_new_session is_selected
is_sound s =
    (is_new_session s.state || s.tls) && (not (is_selected s.state) || is_there s.view.mbox)

-- The session is sound after the command, and the server has not dereferenced a nil mailbox.
unfoldable pub keeps : Outcome → Bool
unfolding is_sound
keeps o = is_sound o.session && not o.crashed

two_ways :
    (b c : Bool) (o p q : Outcome)
    → keeps o ≡ true
    → keeps p ≡ true
    → keeps q ≡ true
    → keeps (if b then o else if c then p else q) ≡ true
two_ways true c o p q h k l = h
two_ways false true o p q h k l = k
two_ways false false o p q h k l = l

module _ (e : Env) (s : Session) (h : is_sound s ≡ true) where
  pub reply_all-keeps : (rs : List Reply) → keeps (reply_all e s rs) ≡ true
  unfolding reply_all keeps
  reply_all-keeps rs = ground (arith, h)

  -- A command that leaves the session as it is.
  pub unchanged-keeps : (o : Outcome) → o.session ≡ s → o.crashed ≡ false → keeps o ≡ true
  unfolding keeps
  unchanged-keeps o same alive = rw (same, alive) (ground (arith, h))

  pub if_authd-keeps :
      (o : Outcome) → (s.tls ≡ true → keeps o ≡ true) → keeps (if_authd e s o) ≡ true
  unfolding if_authd keeps
  if_authd-keeps o k = ground (arith, h, k)

  pub if_selected-keeps :
      (o : Outcome)
      → (s.tls ≡ true → is_there s.view.mbox ≡ true → keeps o ≡ true)
      → keeps (if_selected e s o) ≡ true
  unfolding if_selected keeps
  if_selected-keeps o k = ground (arith, h, k)

  pub with_argument-keeps :
      (usage : String) (args : Text) (f : Token → Text → Outcome)
      → ((t : Token) (rest : Text) → keeps (f t rest) ≡ true)
      → keeps (with_argument e s usage args f) ≡ true
  unfolding with_argument
  with_argument-keeps usage args f k = cases (argument e args)
    where
      cases :
          (p : Parsed Token)
          → keeps (elim p [
            | Parsed.failed ↦ say e s usage
            | Parsed.no_fuel ↦ say e s usage
            | Parsed.parsed t rest ↦ f t rest
          ])
            ≡ true
      cases (Parsed.parsed t rest) = k t rest
      cases Parsed.failed = unchanged-keeps _ refl refl
      cases Parsed.no_fuel = unchanged-keeps _ refl refl

  pub cmd_starttls-keeps : keeps (cmd_starttls e s) ≡ true
  unfolding cmd_starttls keeps
  cmd_starttls-keeps = ground (arith, h)

  log_in-keeps :
      (u : Text) (root : Option DirPath) → s.tls ≡ true → keeps (Login.log_in e s u root) ≡ true
  unfolding Login.log_in keeps
  log_in-keeps u none tls = ground (arith, h)
  log_in-keeps u (some root) tls = ground (arith, tls)

  authenticate-keeps : (u p : Text) → s.tls ≡ true → keeps (Login.authenticate e s u p) ≡ true
  unfolding Login.authenticate
  authenticate-keeps u p tls = log_in-keeps u (e.authenticate u p) tls

  may_log_in-keeps :
      (refusal : String) (o : Outcome)
      → (s.tls ≡ true → keeps o ≡ true)
      → keeps (may_log_in e s refusal o) ≡ true
  unfolding may_log_in keeps
  may_log_in-keeps refusal o k = ground (arith, h, k)

  pub cmd_login-keeps : (args : Text) → keeps (cmd_login e s args) ≡ true
  unfolding cmd_login
  cmd_login-keeps args = may_log_in-keeps _ _ (λ tls.
      with_argument-keeps _ _ _
        (λ user rest. with_argument-keeps _ _ _ (λ pass after. authenticate-keeps _ _ tls)))

  plain_login-keeps :
      (parts : Option (Text × Text)) → s.tls ≡ true → keeps (Login.plain_login e s parts) ≡ true
  unfolding Login.plain_login
  plain_login-keeps none tls = unchanged-keeps _ refl refl
  plain_login-keeps (some (u, p)) tls = authenticate-keeps u p tls

  plain_response-keeps :
      (a : Login.Answer) → s.tls ≡ true → keeps (Login.plain_response e s a) ≡ true
  unfolding Login.plain_response
  plain_response-keeps (Login.Answer.refused why) tls = unchanged-keeps _ refl refl
  plain_response-keeps (Login.Answer.answered raw lines) tls = plain_login-keeps _ tls

  password_response-keeps :
      (u : Text) (a : Login.Answer) → s.tls ≡ true → keeps (Login.password_response e s u a) ≡ true
  unfolding Login.password_response
  password_response-keeps u (Login.Answer.refused why) tls = unchanged-keeps _ refl refl
  password_response-keeps u (Login.Answer.answered pass rest) tls = authenticate-keeps u pass tls

  login_responses-keeps :
      (a : Login.Answer) → s.tls ≡ true → keeps (Login.login_responses e s a) ≡ true
  unfolding Login.login_responses
  login_responses-keeps (Login.Answer.refused why) tls = unchanged-keeps _ refl refl
  login_responses-keeps (Login.Answer.answered user lines) tls = password_response-keeps user _ tls

  by_mechanism-keeps :
      (mechanism rest : Text) → s.tls ≡ true → keeps (Login.by_mechanism e s mechanism rest) ≡ true
  unfolding Login.by_mechanism
  by_mechanism-keeps mechanism rest tls =
      let plain = Login.plain_response e s (Login.initial_response e (argument e rest)) in
      let login = Login.login_responses e s (Login.read_response e e.answers) in
      two_ways (text_eq mechanism (codes "PLAIN")) (text_eq mechanism (codes "LOGIN")) plain login _
        (plain_response-keeps _ tls) (login_responses-keeps _ tls) (unchanged-keeps _ refl refl)

  pub cmd_authenticate-keeps : (args : Text) → keeps (cmd_authenticate e s args) ≡ true
  unfolding cmd_authenticate
  cmd_authenticate-keeps args =
      may_log_in-keeps _ _
        (λ tls. with_argument-keeps _ _ _ (λ mechanism rest. by_mechanism-keeps _ _ tls))
