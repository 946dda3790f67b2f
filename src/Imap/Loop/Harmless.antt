-- ===== src/Imap/Loop/Harmless.antt =====
-- The commands that are not on the selected mailbox, but for DELETE, remove no message file of it.
use verta.Common.{
  Text, String, Bool, true, List, [], Option, none, some, ◌≡◌, refl, if◌then◌else◌, ◌||◌, not,
  text_eq, codes, ℕ,
}
use verta.Maildir.Folders.{DirPath, FolderError}
use verta.Maildir.Mailbox.{Mailbox}
use verta.Imap.Parsing.{Token, text, literal_text, group, token_string}
use verta.Imap.Session.{
  Env, Session, State, Outcome, Reply, reply_all, if_authd, if_selected, say, with_argument,
  is_selected,
}
use verta.Imap.Login as Login
use verta.Imap.Folders as Folders
use verta.Imap.Appending as Appending
use verta.Imap.Views as Views
use verta.Imap.Loop.Cases.{with_argument-cases, either}

abbrev pub Harmless : Outcome → Type 0
Harmless o = o.removed ≡ []

module _ (e : Env) (s : Session) where
  pub replies-Harmless : (t : Session) (rs : List Reply) → Harmless (reply_all e t rs)
  unfolding reply_all
  replies-Harmless t rs = refl

  missing-Harmless : Harmless (record (reply_all e s []) { crashed = true; quit = true })
  unfolding reply_all
  missing-Harmless = refl

  given-Harmless :
      (usage : String) (args : Text) (f : Token → Text → Outcome)
      → ((t : Token) (rest : Text) → Harmless (f t rest))
      → Harmless (with_argument e s usage args f)
  given-Harmless = with_argument-cases Harmless e s (replies-Harmless s) missing-Harmless

  either-Harmless :
      (b : Bool) (o p : Outcome) → Harmless o → Harmless p → Harmless (if b then o else p)
  either-Harmless = either Harmless e s (replies-Harmless s) missing-Harmless

  pub authd-Harmless : (o : Outcome) → Harmless o → Harmless (if_authd e s o)
  unfolding if_authd reply_all
  authd-Harmless o h = by_state s.state
    where
      by_state :
          (st : State)
          → Harmless (elim st [
            | State.not_authenticated ↦ say e s "NO not authenticated"
            | State.authenticated ↦ o
            | State.selected ↦ o
          ])
      by_state State.not_authenticated = refl
      by_state State.authenticated = h
      by_state State.selected = h

  pub selected-Harmless : (o : Outcome) → Harmless o → Harmless (if_selected e s o)
  unfolding if_selected reply_all
  selected-Harmless o h = by_state s.state
    where
      by_state :
          (st : State)
          → Harmless (elim st [
            | State.not_authenticated ↦ say e s "NO no mailbox selected"
            | State.authenticated ↦ say e s "NO no mailbox selected"
            | State.selected ↦ o
          ])
      by_state State.not_authenticated = refl
      by_state State.authenticated = refl
      by_state State.selected = h

  named-Harmless :
      (usage : String) (args : Text) (f : Text → Outcome)
      → ((name : Text) → Harmless (f name))
      → Harmless (Folders.with_name e s usage args f)
  unfolding Folders.with_name reply_all
  named-Harmless usage args f k = given-Harmless _ _ _ (λ t rest. k _)

  opened-Harmless :
      (name : Text) (failure : String) (f : Mailbox → Outcome)
      → ((mb : Mailbox) → Harmless (f mb))
      → Harmless (Folders.with_opened e s name failure f)
  unfolding Folders.with_opened Folders.opened reply_all
  opened-Harmless name failure f k = by_mailbox (Folders.open_mailbox e s name)
    where
      by_mailbox : (r : List DirPath × Option Mailbox) → Harmless (Folders.opened e s failure f r)
      by_mailbox (disk, none) = refl
      by_mailbox (disk, some mb) = k mb

  changed-Harmless :
      (good : String) (r : List DirPath × Option FolderError)
      → Harmless (Folders.changed e s good r)
  unfolding Folders.changed reply_all
  changed-Harmless good (disk, none) = refl
  changed-Harmless good (disk, some err) = refl

  pub cmd_noop-Harmless : Harmless (Views.cmd_noop e s)
  unfolding Views.cmd_noop reply_all
  cmd_noop-Harmless = either-Harmless (is_selected s.state) _ _ refl refl

  pub cmd_idle-Harmless : Harmless (Views.cmd_idle e s)
  unfolding Views.cmd_idle reply_all
  cmd_idle-Harmless = selected-Harmless _ refl

  pub cmd_unselect-Harmless : Harmless (Views.cmd_unselect e s)
  unfolding Views.cmd_unselect reply_all
  cmd_unselect-Harmless = selected-Harmless _ refl

  pub cmd_starttls-Harmless : Harmless (Login.cmd_starttls e s)
  unfolding Login.cmd_starttls reply_all
  cmd_starttls-Harmless = either-Harmless (not e.tls_available) _ _ refl (
      either-Harmless s.tls _ _ refl
        (either-Harmless (not e.reply_sent || not e.handshake_ok) _ _ refl refl))

  pub cmd_select-Harmless :
      (examine : Bool) (args : Text) → Harmless (Folders.cmd_select e s examine args)
  unfolding Folders.cmd_select Folders.select_named reply_all
  cmd_select-Harmless examine args =
      authd-Harmless _ (named-Harmless _ _ _ (λ name. opened-Harmless _ _ _ (λ mb. refl)))

  pub cmd_list-Harmless : (lsub : Bool) (args : Text) → Harmless (Folders.cmd_list e s lsub args)
  unfolding Folders.cmd_list Folders.list_folders reply_all
  cmd_list-Harmless lsub args = authd-Harmless _ (
      given-Harmless _ _ _ (λ reference rest.
        given-Harmless _ _ _
          (λ pat after. either-Harmless (text_eq (token_string pat) []) _ _ refl refl)))

  status_of-Harmless : (name : Text) (items : Token) → Harmless (Folders.status_of e s name items)
  unfolding Folders.status_of reply_all
  status_of-Harmless name (group items) = opened-Harmless _ _ _ (λ mb. refl)
  status_of-Harmless name (text t) = refl
  status_of-Harmless name (literal_text t) = refl

  pub cmd_status-Harmless : (args : Text) → Harmless (Folders.cmd_status e s args)
  unfolding Folders.cmd_status reply_all
  cmd_status-Harmless args = authd-Harmless _ (
      given-Harmless _ _ _
        (λ name rest. given-Harmless _ _ _ (λ items after. status_of-Harmless _ items)))

  pub cmd_create-Harmless : (args : Text) → Harmless (Folders.cmd_create e s args)
  unfolding Folders.cmd_create Folders.create_named reply_all
  cmd_create-Harmless args = authd-Harmless _ (named-Harmless _ _ _ (λ name. changed-Harmless _ _))

  pub cmd_subscribe-Harmless : (args : Text) → Harmless (Folders.cmd_subscribe e s args)
  unfolding Folders.cmd_subscribe Folders.subscribe_named reply_all
  cmd_subscribe-Harmless args =
      authd-Harmless _ (named-Harmless _ _ _ (λ name. opened-Harmless _ _ _ (λ mb. refl)))

  report_append-Harmless :
      (folder : Text) (r : Option (Mailbox × ℕ)) → Harmless (Appending.report_append e s folder r)
  unfolding Appending.report_append reply_all
  report_append-Harmless folder none = refl
  report_append-Harmless folder (some (mb, uid)) = refl

  append_read-Harmless :
      (name : Text) (a : Appending.Appended) (message : Option Text)
      → Harmless (Appending.append_read e s name a message)
  unfolding Appending.append_read Appending.append_to reply_all
  append_read-Harmless name a none = refl
  append_read-Harmless name a (some message) =
      opened-Harmless _ _ _ (λ mb. report_append-Harmless _ _)

  pub cmd_append-Harmless : (args : Text) → Harmless (Appending.cmd_append e s args)
  unfolding Appending.cmd_append reply_all
  cmd_append-Harmless args =
      authd-Harmless _ (given-Harmless _ _ _ (λ name rest. append_read-Harmless _ _ _))

  pub quota-Harmless :
      (args : Text) (usage : String) (f : Text → List Reply)
      → Harmless (if_authd e s (Folders.with_name e s usage args (λ name. reply_all e s (f name))))
  unfolding reply_all
  quota-Harmless args usage f =
      authd-Harmless (Folders.with_name e s usage args (λ name. reply_all e s (f name)))
        (named-Harmless usage args (λ name. reply_all e s (f name)) (λ name. refl))

  log_in-Harmless : (u : Text) (root : Option DirPath) → Harmless (Login.log_in e s u root)
  unfolding Login.log_in reply_all
  log_in-Harmless u none = refl
  log_in-Harmless u (some root) = refl

  authenticate-Harmless : (u p : Text) → Harmless (Login.authenticate e s u p)
  unfolding Login.authenticate reply_all
  authenticate-Harmless u p = log_in-Harmless u _

  may_log_in-Harmless :
      (refusal : String) (o : Outcome) → Harmless o → Harmless (Login.may_log_in e s refusal o)
  unfolding Login.may_log_in reply_all
  may_log_in-Harmless refusal o h =
      either-Harmless (not s.tls) _ _ refl
        (either-Harmless (not (Login.is_new_session s.state)) _ _ refl h)

  pub cmd_login-Harmless : (args : Text) → Harmless (Login.cmd_login e s args)
  unfolding Login.cmd_login reply_all
  cmd_login-Harmless args = may_log_in-Harmless _ _ (
      given-Harmless _ _ _
        (λ user rest. given-Harmless _ _ _ (λ pass after. authenticate-Harmless _ _)))

  plain_login-Harmless : (o : Option (Text × Text)) → Harmless (Login.plain_login e s o)
  unfolding Login.plain_login reply_all
  plain_login-Harmless none = refl
  plain_login-Harmless (some (u, p)) = authenticate-Harmless u p

  plain_response-Harmless : (a : Login.Answer) → Harmless (Login.plain_response e s a)
  unfolding Login.plain_response reply_all
  plain_response-Harmless (Login.Answer.refused why) = refl
  plain_response-Harmless (Login.Answer.answered raw lines) = plain_login-Harmless _

  password_response-Harmless :
      (u : Text) (a : Login.Answer) → Harmless (Login.password_response e s u a)
  unfolding Login.password_response reply_all
  password_response-Harmless u (Login.Answer.refused why) = refl
  password_response-Harmless u (Login.Answer.answered pass rest) = authenticate-Harmless u pass

  login_responses-Harmless : (a : Login.Answer) → Harmless (Login.login_responses e s a)
  unfolding Login.login_responses reply_all
  login_responses-Harmless (Login.Answer.refused why) = refl
  login_responses-Harmless (Login.Answer.answered user lines) = password_response-Harmless user _

  by_mechanism-Harmless : (mechanism rest : Text) → Harmless (Login.by_mechanism e s mechanism rest)
  unfolding Login.by_mechanism reply_all
  by_mechanism-Harmless mechanism rest =
      either-Harmless (text_eq mechanism (codes "PLAIN")) _ _ (plain_response-Harmless _)
        (either-Harmless (text_eq mechanism (codes "LOGIN")) _ _ (login_responses-Harmless _) refl)

  pub cmd_authenticate-Harmless : (args : Text) → Harmless (Login.cmd_authenticate e s args)
  unfolding Login.cmd_authenticate reply_all
  cmd_authenticate-Harmless args =
      may_log_in-Harmless _ _ (given-Harmless _ _ _ (λ mechanism rest. by_mechanism-Harmless _ _))
