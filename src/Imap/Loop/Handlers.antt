-- ===== src/Imap/Loop/Handlers.antt =====
-- Every command keeps the session sound.
use verta.Common.{
  ℕ, String, Text, Bool, true, false, List, [], ◌∷◌, Option, none, some, ◌≡◌, refl, arith,
  if◌then◌else◌, text_eq,
}
use verta.Maildir.Folders.{DirPath}
use verta.Maildir.Mailbox.{Mailbox}
use verta.Imap.Parsing.{Token, Parsed, Tokens, no_tokens, also, text, literal_text, group}
use verta.Imap.Views as Views
use verta.Imap.Session.{Env, Session, Outcome, Reply, reply_all, Scan}
use verta.Imap.Folders as Folders
use verta.Imap.Appending as Appending
use verta.Imap.Session.{is_selected}
use verta.Imap.Loop.{token_upper, token_string, Verb, perform, dispatch_uid, dispatch, step, run}
use verta.Imap.Views.{
  cmd_noop, cmd_close, cmd_unselect, cmd_fetch, cmd_search, cmd_idle, poll, poll_all, unselected,
}
use verta.Imap.Loop as Loop
use verta.Imap.Loop.Sound.{
  is_sound, keeps, reply_all-keeps, unchanged-keeps, if_authd-keeps, if_selected-keeps,
  with_argument-keeps,
}
use verta.Imap.Loop.Kept.{
  with_name-keeps, with_opened-keeps, changed-keeps, with_mailbox-keeps, set_mailbox_sound,
  poll_sound, after_append_sound,
}

pub if-keeps :
    (b : Bool) (o p : Outcome) → keeps o ≡ true → keeps p ≡ true → keeps (if b then o else p) ≡ true
if-keeps true o p h k = h
if-keeps false o p h k = k

-- A command that ends with a mailbox in view.
pub viewing-keeps :
    (o : Outcome) (mb : Mailbox)
    → o.session.tls ≡ true
    → o.session.view.mbox ≡ some mb
    → o.crashed ≡ false
    → keeps o ≡ true
unfolding keeps is_sound
viewing-keeps o mb tls there alive = ground (arith, tls, there, alive)

poll_all_sound :
    (s : Session) (scans : List (DirPath → Scan))
    → is_sound s ≡ true
    → is_sound (poll_all s scans).0 ≡ true
unfolding poll_all
poll_all_sound s [] h = h
poll_all_sound s (scan ∷ scans) h = poll_all_sound (poll s _).0 scans (poll_sound s h _)

module _ (e : Env) (s : Session) (h : is_sound s ≡ true) where
  pub cmd_noop-keeps : keeps (cmd_noop e s) ≡ true
  unfolding cmd_noop
  cmd_noop-keeps =
      if-keeps (is_selected s.state) _ _ (reply_all-keeps e _ (poll_sound s h _) _)
        (unchanged-keeps e s h _ refl refl)

  pub unselected-keeps :
      (o : Outcome) → s.tls ≡ true → o.session ≡ unselected s → o.crashed ≡ false → keeps o ≡ true
  unfolding keeps is_sound unselected
  unselected-keeps o tls same alive = rw (same, alive) (ground (arith, tls))

  pub cmd_close-keeps : keeps (cmd_close e s) ≡ true
  unfolding cmd_close
  cmd_close-keeps =
      if-keeps s.view.read_only _ _
        (if_selected-keeps e s h _ (λ tls there. unselected-keeps _ tls refl refl))
        (with_mailbox-keeps e s h _ (λ mb tls same. unselected-keeps _ tls refl refl))

  pub cmd_unselect-keeps : keeps (cmd_unselect e s) ≡ true
  unfolding cmd_unselect
  cmd_unselect-keeps = if_selected-keeps e s h _ (λ tls there. unselected-keeps _ tls refl refl)

  pub cmd_select-keeps :
      (examine : Bool) (args : Text) → keeps (Folders.cmd_select e s examine args) ≡ true
  unfolding Folders.cmd_select Folders.select_named
  cmd_select-keeps examine args = if_authd-keeps e s h _ (λ tls.
      with_name-keeps e s h _ _ _
        (λ name. with_opened-keeps e s h _ _ _ (λ mb. viewing-keeps _ mb tls refl refl)))

  pub cmd_list-keeps : (lsub : Bool) (args : Text) → keeps (Folders.cmd_list e s lsub args) ≡ true
  unfolding Folders.cmd_list Folders.list_folders
  cmd_list-keeps lsub args = if_authd-keeps e s h _ (λ tls.
      with_argument-keeps e s h _ _ _ (λ reference rest.
        with_argument-keeps e s h _ _ _ (λ pat after.
          if-keeps (text_eq (token_string pat) []) _ _ (unchanged-keeps e s h _ refl refl)
            (unchanged-keeps e s h _ refl refl))))

  pub status_of-keeps :
      (name : Text) (items : Token) → keeps (Folders.status_of e s name items) ≡ true
  unfolding Folders.status_of
  status_of-keeps name (group items) =
      with_opened-keeps e s h _ _ _ (λ mb. unchanged-keeps e s h _ refl refl)
  status_of-keeps name (text t) = unchanged-keeps e s h _ refl refl
  status_of-keeps name (literal_text t) = unchanged-keeps e s h _ refl refl

  pub cmd_status-keeps : (args : Text) → keeps (Folders.cmd_status e s args) ≡ true
  unfolding Folders.cmd_status
  cmd_status-keeps args = if_authd-keeps e s h _ (λ tls.
      with_argument-keeps e s h _ _ _
        (λ name rest. with_argument-keeps e s h _ _ _ (λ items after. status_of-keeps _ items)))

  pub cmd_create-keeps : (args : Text) → keeps (Folders.cmd_create e s args) ≡ true
  unfolding Folders.cmd_create Folders.create_named
  cmd_create-keeps args =
      if_authd-keeps e s h _ (λ tls. with_name-keeps e s h _ _ _ (λ name. changed-keeps e s h _ _))

  delete_named-keeps : (name : Text) → keeps (Folders.delete_named e s name) ≡ true
  unfolding Folders.delete_named keeps
  delete_named-keeps name = changed-keeps e s h _ _

  pub cmd_delete-keeps : (args : Text) → keeps (Folders.cmd_delete e s args) ≡ true
  unfolding Folders.cmd_delete
  cmd_delete-keeps args =
      if_authd-keeps e s h _ (λ tls. with_name-keeps e s h _ _ _ (λ name. delete_named-keeps name))

  pub cmd_subscribe-keeps : (args : Text) → keeps (Folders.cmd_subscribe e s args) ≡ true
  unfolding Folders.cmd_subscribe Folders.subscribe_named
  cmd_subscribe-keeps args = if_authd-keeps e s h _ (λ tls.
      with_name-keeps e s h _ _ _
        (λ name. with_opened-keeps e s h _ _ _ (λ mb. unchanged-keeps e s h _ refl refl)))

  pub report_append-keeps :
      (folder : Text) (r : Option (Mailbox × ℕ))
      → keeps (Appending.report_append e s folder r) ≡ true
  unfolding Appending.report_append Appending.nil_selected keeps is_sound
  report_append-keeps folder none = ground (arith, h)
  report_append-keeps folder (some (mb, uid)) = ground (arith, h, after_append_sound e s h folder)

  pub append_read-keeps :
      (name : Text) (a : Appending.Appended) (message : Option Text)
      → keeps (Appending.append_read e s name a message) ≡ true
  unfolding Appending.append_read Appending.append_to
  append_read-keeps name a none = unchanged-keeps e s h _ refl refl
  append_read-keeps name a (some message) =
      with_opened-keeps e s h _ _ _ (λ mb. report_append-keeps _ _)

  pub cmd_append-keeps : (args : Text) → keeps (Appending.cmd_append e s args) ≡ true
  unfolding Appending.cmd_append
  cmd_append-keeps args =
      if_authd-keeps e s h _
        (λ tls. with_argument-keeps e s h _ _ _ (λ name rest. append_read-keeps _ _ _))

  pub set_given-keeps :
      (f : List (ℕ × ℕ) → Outcome) (o : Option (List (ℕ × ℕ)))
      → ((set : List (ℕ × ℕ)) → keeps (f set) ≡ true)
      → keeps (Views.set_given e s f o) ≡ true
  unfolding Views.set_given
  set_given-keeps f none k = unchanged-keeps e s h _ refl refl
  set_given-keeps f (some set) k = k set

  pub cmd_fetch-keeps : (args : Text) (uid : Bool) → keeps (cmd_fetch e s args uid) ≡ true
  unfolding cmd_fetch Views.with_set Views.fetch_set
  cmd_fetch-keeps args uid = with_mailbox-keeps e s h _ (λ mb tls same.
      with_argument-keeps e s h _ _ _ (λ t rest. set_given-keeps _ _ (λ set.
        if-keeps (text_eq (Views.rest_of rest) []) _ _ (unchanged-keeps e s h _ refl refl)
          (reply_all-keeps e _ (set_mailbox_sound s h _) _))))

  pub search_tokens-keeps :
      (mb : Mailbox) (uid : Bool) (crit : Tokens)
      → keeps (Views.search_tokens e s mb uid crit) ≡ true
  unfolding Views.search_tokens
  search_tokens-keeps mb uid no_tokens = unchanged-keeps e s h _ refl refl
  search_tokens-keeps mb uid (also t ts) = unchanged-keeps e s h _ refl refl

  pub search_parsed-keeps :
      (mb : Mailbox) (uid : Bool) (p : Parsed Tokens)
      → keeps (Views.search_parsed e s mb uid p) ≡ true
  unfolding Views.search_parsed
  search_parsed-keeps mb uid Parsed.failed = unchanged-keeps e s h _ refl refl
  search_parsed-keeps mb uid Parsed.no_fuel = unchanged-keeps e s h _ refl refl
  search_parsed-keeps mb uid (Parsed.parsed crit rest) = search_tokens-keeps mb uid crit

  pub cmd_search-keeps : (args : Text) (uid : Bool) → keeps (cmd_search e s args uid) ≡ true
  unfolding cmd_search
  cmd_search-keeps args uid =
      with_mailbox-keeps e s h _ (λ mb tls same. search_parsed-keeps mb uid _)

  pub cmd_idle-keeps : keeps (cmd_idle e s) ≡ true
  unfolding cmd_idle
  cmd_idle-keeps =
      if_selected-keeps e s h _
        (λ tls there. reply_all-keeps e _ (poll_all_sound s e.idle_polls h) _)

  pub quota-keeps :
      (args : Text) (usage : String) (f : Text → List Reply)
      → keeps (Loop.if_authd e s (Loop.with_name e s usage args (λ name. reply_all e s (f name))))
        ≡ true
  quota-keeps args usage f =
      if_authd-keeps e s h _
        (λ tls. with_name-keeps e s h _ _ _ (λ name. reply_all-keeps e s h (f name)))
