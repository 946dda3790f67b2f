-- ===== src/Imap/Loop/Removing.antt =====
-- No command but DELETE loses a message of the selected mailbox.
use verta.Common.{
  not, text_eq, codes, trim_space, String, refl, if◌then◌else◌, Text, Bool, true, false, ◌||◌, List,
  [], ◌∷◌, some, All, ◌≡◌, sym, subst, inl, inr, if◌then◌else◌, ◌⊎◌,
}
use verta.Maildir.Mailbox.{Mailbox, expunge}
use verta.Imap.Commands as Commands
use verta.Imap.Commands.Moving.{expunge-accounted, All-map}
use verta.Imap.Loop.Accounts.{
  expected, flagged-expected, Accounts, cmd_expunge-Accounts, cmd_copy_move-Accounts,
  cmd_store-Accounts, chosen-All, if_any,
}
use verta.Imap.Loop.Cases.{
  with_mailbox-cases, cmd_fetch-cases, cmd_search-cases, with_argument-cases,
}
use verta.Imap.Parsing.{Token, token_upper, token_string}
use verta.Imap.Views as Views
use verta.Imap.Loop.Harmless.{
  Harmless, authd-Harmless, cmd_noop-Harmless, cmd_idle-Harmless, cmd_unselect-Harmless,
  cmd_starttls-Harmless, cmd_select-Harmless, cmd_list-Harmless, cmd_status-Harmless,
  cmd_create-Harmless, cmd_subscribe-Harmless, cmd_append-Harmless, quota-Harmless,
  cmd_login-Harmless, cmd_authenticate-Harmless,
}
use verta.Imap.Loop.{dispatch_uid, dispatch, step, verb, Verb, perform, takes_uid}
use verta.Maildir.Folders.{is_below, folder_dir, is_inbox, on_disk}
use verta.Imap.Commands.{normalize_mailbox}
use verta.Imap.Folders.{delete_named, cmd_delete, message_dir, deleted_messages, with_name}
use verta.Imap.Session.{
  messages_in, if_authd, with_argument, Env, Session, State, Reply, Outcome, reply_all, if_selected,
  with_mailbox, within_session, say,
}
use verta.Imap.Views.{cmd_fetch, cmd_close, unselected, fetch_set}

module _ (e : Env) (s : Session) where
  abbrev pub NoneLost : Outcome → Type 0
  NoneLost o = All (λ r. expected (messages_in s.view.mbox) o.copied r ≡ true) o.removed

  replies-NoneLost : (replies : List Reply) → NoneLost (reply_all e s replies)
  unfolding reply_all
  replies-NoneLost replies = tt

  missing-NoneLost : NoneLost (record (reply_all e s []) { crashed = true; quit = true })
  unfolding reply_all
  missing-NoneLost = tt

  view-NoneLost :
      (f : Mailbox → Commands.Outcome)
      → ((mb : Mailbox) → Accounts e.commands s.view (f mb))
      → NoneLost (with_mailbox e s (λ mb. within_session e s (f mb)))
  unfolding within_session
  view-NoneLost f k =
      with_mailbox-cases NoneLost e s replies-NoneLost missing-NoneLost _ (λ mb same. k mb)

  cmd_fetch-NoneLost : (args : Text) (uid : Bool) → NoneLost (cmd_fetch e s args uid)
  unfolding fetch_set
  cmd_fetch-NoneLost args uid =
      cmd_fetch-cases NoneLost e s replies-NoneLost missing-NoneLost args uid
        (λ mb set items same. tt)

  expunged-NoneLost :
      (mb : Mailbox) (replies : List Reply)
      → s.view.mbox ≡ some mb
      → NoneLost
          (record (reply_all e (unselected s) replies) { removed = (expunge e.commands.gone mb).2 })
  unfolding reply_all
  expunged-NoneLost mb replies there =
      subst (λ b. All (λ r. expected (messages_in b) [] r ≡ true) (expunge e.commands.gone mb).2)
        (sym there)
        (All-map _ _ _ (flagged-expected mb.messages []) (expunge-accounted e.commands.gone mb))

  by_access : (b : Bool) (o p : Outcome) → NoneLost o → NoneLost p → NoneLost (if b then o else p)
  by_access true o p h k = h
  by_access false o p h k = k

  selected-NoneLost : (o : Outcome) → NoneLost o → NoneLost (if_selected e s o)
  unfolding if_selected reply_all
  selected-NoneLost o h = by_state s.state
    where
      by_state :
          (st : State)
          → NoneLost (elim st [
            | State.not_authenticated ↦ say e s "NO no mailbox selected"
            | State.authenticated ↦ say e s "NO no mailbox selected"
            | State.selected ↦ o
          ])
      by_state State.not_authenticated = tt
      by_state State.authenticated = tt
      by_state State.selected = h

  cmd_close-NoneLost : NoneLost (cmd_close e s)
  unfolding cmd_close reply_all
  cmd_close-NoneLost = by_access s.view.read_only _ _ (selected-NoneLost _ tt) (
      with_mailbox-cases NoneLost e s replies-NoneLost missing-NoneLost _
        (λ mb same. expunged-NoneLost mb (Reply.line "OK CLOSE completed" ∷ []) same))

  Harmless-NoneLost : (o : Outcome) → Harmless o → NoneLost o
  Harmless-NoneLost o h =
      subst (All (λ r. expected (messages_in s.view.mbox) o.copied r ≡ true)) (sym h) tt

  -- The command was a DELETE, whose folder's directory holds the files that are removed.
  abbrev pub Deletes : Outcome → Type 0
  Deletes o =
      (name : Text) × (o ≡ delete_named e s name)
      × All (λ r. is_below (folder_dir s.root (normalize_mailbox name)) (message_dir s r) ≡ true)
          o.removed

  abbrev pub Spared : Outcome → Type 0
  Spared o = NoneLost o ⊎ Deletes o

  replies-Spared : (replies : List Reply) → Spared (reply_all e s replies)
  replies-Spared replies = inl (replies-NoneLost replies)

  given-Spared :
      (usage : String) (args : Text) (f : Token → Text → Outcome)
      → ((t : Token) (rest : Text) → Spared (f t rest))
      → Spared (with_argument e s usage args f)
  given-Spared = with_argument-cases Spared e s replies-Spared (inl missing-NoneLost)

  deleted_messages-All :
      (folder : Text)
      → All
          (λ r. is_below (folder_dir s.root folder) (message_dir s r) ≡ true)
          (deleted_messages e s folder)
  unfolding deleted_messages
  deleted_messages-All folder =
      if_any (λ r. is_below (folder_dir s.root folder) (message_dir s r) ≡ true)
        (is_inbox folder || not (on_disk (folder_dir s.root folder) e.disk)) _
        (chosen-All (λ r. is_below (folder_dir s.root folder) (message_dir s r)) e.commands.gone
          (messages_in s.view.mbox))

  delete_named-Spared : (name : Text) → Spared (delete_named e s name)
  delete_named-Spared name =
      inr (name, refl, unfold delete_named in deleted_messages-All (normalize_mailbox name))

  cmd_delete-Spared : (args : Text) → Spared (cmd_delete e s args)
  unfolding cmd_delete with_name if_authd
  cmd_delete-Spared args = by_state s.state
    where
      by_state :
          (st : State)
          → Spared (elim st [
            | State.not_authenticated ↦ say e s "NO not authenticated"
            | State.authenticated ↦
                with_name e s "BAD DELETE needs a mailbox name" args (delete_named e s)
            | State.selected ↦
                with_name e s "BAD DELETE needs a mailbox name" args (delete_named e s)
          ])
      by_state State.not_authenticated = replies-Spared (Reply.line "NO not authenticated" ∷ [])
      by_state State.authenticated =
          given-Spared _ _ _ (λ t rest. delete_named-Spared (token_string t))
      by_state State.selected = given-Spared _ _ _ (λ t rest. delete_named-Spared (token_string t))

  if-Spared : (b : Bool) (o p : Outcome) → Spared o → Spared p → Spared (if b then o else p)
  if-Spared true o p h k = h
  if-Spared false o p h k = k

  perform-Spared : (v : Verb) (args : Text) (uid : Bool) → Spared (perform e s v args uid)
  unfolding perform reply_all Views.cmd_get_quota_root Views.cmd_get_quota
  perform-Spared Verb.capability args uid = inl (tt)
  perform-Spared Verb.noop args uid =
      inl (Harmless-NoneLost (perform e s Verb.noop args uid) (cmd_noop-Harmless e s))
  perform-Spared Verb.logout args uid = inl (tt)
  perform-Spared Verb.starttls args uid =
      inl (Harmless-NoneLost (perform e s Verb.starttls args uid) (cmd_starttls-Harmless e s))
  perform-Spared Verb.login args uid =
      inl (Harmless-NoneLost (perform e s Verb.login args uid) (cmd_login-Harmless e s args))
  perform-Spared Verb.authenticate args uid = inl (
      Harmless-NoneLost (perform e s Verb.authenticate args uid)
        (cmd_authenticate-Harmless e s args))
  perform-Spared Verb.select args uid =
      inl
        (Harmless-NoneLost (perform e s Verb.select args uid) (cmd_select-Harmless e s false args))
  perform-Spared Verb.examine args uid =
      inl
        (Harmless-NoneLost (perform e s Verb.examine args uid) (cmd_select-Harmless e s true args))
  perform-Spared Verb.list args uid =
      inl (Harmless-NoneLost (perform e s Verb.list args uid) (cmd_list-Harmless e s false args))
  perform-Spared Verb.lsub args uid =
      inl (Harmless-NoneLost (perform e s Verb.lsub args uid) (cmd_list-Harmless e s true args))
  perform-Spared Verb.status args uid =
      inl (Harmless-NoneLost (perform e s Verb.status args uid) (cmd_status-Harmless e s args))
  perform-Spared Verb.create args uid =
      inl (Harmless-NoneLost (perform e s Verb.create args uid) (cmd_create-Harmless e s args))
  perform-Spared Verb.delete args uid = cmd_delete-Spared args
  perform-Spared Verb.subscribe args uid =
      inl
        (Harmless-NoneLost (perform e s Verb.subscribe args uid) (cmd_subscribe-Harmless e s args))
  perform-Spared Verb.namespace args uid = inl (tt)
  perform-Spared Verb.check args uid = inl (selected-NoneLost _ tt)
  perform-Spared Verb.close args uid = inl (cmd_close-NoneLost)
  perform-Spared Verb.unselect args uid =
      inl (Harmless-NoneLost (perform e s Verb.unselect args uid) (cmd_unselect-Harmless e s))
  perform-Spared Verb.expunge_verb args uid =
      inl (view-NoneLost _ (λ mb. cmd_expunge-Accounts e.commands s.view))
  perform-Spared Verb.append args uid =
      inl (Harmless-NoneLost (perform e s Verb.append args uid) (cmd_append-Harmless e s args))
  perform-Spared Verb.fetch args uid = inl (cmd_fetch-NoneLost args uid)
  perform-Spared Verb.store args uid =
      inl (view-NoneLost _ (λ mb. cmd_store-Accounts e.commands s.view args uid))
  perform-Spared Verb.search args uid =
      inl (cmd_search-cases NoneLost e s replies-NoneLost missing-NoneLost args uid)
  perform-Spared Verb.copy args uid =
      inl (view-NoneLost _ (λ mb. cmd_copy_move-Accounts e.commands s.view args uid false))
  perform-Spared Verb.move args uid =
      inl (view-NoneLost _ (λ mb. cmd_copy_move-Accounts e.commands s.view args uid true))
  perform-Spared Verb.idle args uid =
      inl (Harmless-NoneLost (perform e s Verb.idle args uid) (cmd_idle-Harmless e s))
  perform-Spared Verb.get_quota_root args uid =
      inl
        (Harmless-NoneLost (perform e s Verb.get_quota_root args uid) (quota-Harmless e s args _ _))
  perform-Spared Verb.get_quota args uid =
      inl (Harmless-NoneLost (perform e s Verb.get_quota args uid) (quota-Harmless e s args _ _))
  perform-Spared Verb.set_quota args uid =
      inl (Harmless-NoneLost (perform e s Verb.set_quota args uid) (authd-Harmless e s _ refl))
  perform-Spared (Verb.unknown cmd) args uid = inl (tt)

  dispatch_uid-Spared : (args : Text) → Spared (dispatch_uid e s args)
  unfolding dispatch_uid
  dispatch_uid-Spared args = given-Spared _ _ _ (λ sub rest.
      if-Spared (takes_uid (verb (token_upper sub))) _ _ (perform-Spared _ rest true)
        (replies-Spared (Reply.line "BAD UID does not apply" ∷ [])))

  dispatch-Spared : (l : Text) → Spared (dispatch e s l)
  unfolding dispatch
  dispatch-Spared l = given-Spared _ _ _ (λ tag rest. given-Spared _ _ _ (λ cmd args.
      if-Spared (text_eq (token_upper cmd) (codes "UID")) _ _ (dispatch_uid-Spared args)
        (perform-Spared _ args false)))

-- Whatever line a client sends, and whichever copies, renames and removals fail, one of two
-- holds. Either every message whose file the line's command removes from the selected mailbox has
-- the UID of a message that was flagged Deleted in it before the line, or of one that the command
-- copied. Or the command was a DELETE of a name, and the files that it removes from the selected
-- mailbox lie in or below the directory of that name's folder.
pub step-NoneLost :
    (e : Env) (s : Session) (l : Text)
    → All
        (λ r. expected (messages_in s.view.mbox) (step e s l).copied r ≡ true)
        (step e s l).removed
      ⊎ ((name : Text) × (step e s l ≡ delete_named e s name)
          × All
              (λ r. is_below (folder_dir s.root (normalize_mailbox name)) (message_dir s r) ≡ true)
              (step e s l).removed)
unfolding step
step-NoneLost e s l =
    if-Spared e s (text_eq (trim_space l) []) _ _ (replies-Spared e s []) (dispatch-Spared e s l)
