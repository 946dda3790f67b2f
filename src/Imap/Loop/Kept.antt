-- ===== src/Imap/Loop/Kept.antt =====
-- The commands on folders and on the selected mailbox keep the session sound.
use verta.Imap.Session.{is_selected}
use verta.Common.{
  ℕ, String, Text, Bool, true, false, List, [], Option, none, some, ◌≡◌, refl, arith, if◌then◌else◌,
  ap, ◌&&◌, text_eq,
}
use verta.Maildir.Folders.{DirPath, FolderError}
use verta.Maildir.Mailbox.{Mailbox}
use verta.Imap.Commands as Commands
use verta.Imap.Flagging as Flagging
use verta.Imap.Commands.Cases.{cmd_copy_move-cases, cmd_store-cases}
use verta.Imap.Views as Views
use verta.Imap.Session.{
  Env, Session, Outcome, on_mailbox, with_mailbox, within_session, Scan, loaded_mailbox,
  scanned_mailbox, set_mailbox,
}
use verta.Imap.Folders as Folders
use verta.Imap.Appending as Appending
use verta.Imap.Loop.Sound.{is_there, is_sound, keeps, if_selected-keeps, with_argument-keeps}

-- What the commands of Commands do to a mailbox leaves one.
module _ (e : Commands.Env) (s : Commands.Session) (there : is_there s.mbox ≡ true) where
  abbrev pub LeavesOne : Commands.Outcome → Type 0
  LeavesOne o = is_there o.session.mbox ≡ true

  pub cmd_expunge-there : LeavesOne (Commands.cmd_expunge e s)
  unfolding Commands.cmd_expunge Commands.expunge_with
  cmd_expunge-there = ground (arith, there)

  copy_set-there :
      (mb : Mailbox) (set : List (ℕ × ℕ)) (dst : Text) (uid_mode move : Bool)
      → LeavesOne (Commands.copy_set e s mb set dst uid_mode move)
  unfolding Commands.copy_set Commands.finish_move Commands.expunge_with
  copy_set-there mb set dst uid_mode move = ground (arith, there)

  pub cmd_copy_move-there :
      (args : Text) (uid_mode move : Bool)
      → LeavesOne (Commands.cmd_copy_move e s args uid_mode move)
  cmd_copy_move-there args uid_mode move =
      cmd_copy_move-cases LeavesOne e s (λ usage. there) args uid_mode move
        (λ mb set dst same. copy_set-there mb set dst uid_mode move)

  pub cmd_store-there :
      (args : Text) (uid_mode : Bool) → LeavesOne (Flagging.cmd_store e s args uid_mode)
  unfolding Flagging.store_set
  cmd_store-there args uid_mode =
      cmd_store-cases LeavesOne e s (λ usage. there) args uid_mode (λ mb set op flags same. refl)

module _ (s : Session) (h : is_sound s ≡ true) where
  pub set_mailbox_sound : (mb : Mailbox) → is_sound (set_mailbox s mb) ≡ true
  unfolding set_mailbox is_sound
  set_mailbox_sound mb = ground (arith, h)

  report_poll_sound :
      (mb : Mailbox) (o loaded : Option Mailbox)
      → is_sound (Views.report_poll s mb o loaded).0 ≡ true
  unfolding Views.report_poll
  report_poll_sound mb none loaded = h
  report_poll_sound mb (some mb') none = set_mailbox_sound mb'
  report_poll_sound mb (some mb') (some loaded) = set_mailbox_sound mb'

  poll_mailbox_sound :
      (o : Option Mailbox) (scan : Scan) → is_sound (Views.poll_mailbox s o scan).0 ≡ true
  unfolding Views.poll_mailbox
  poll_mailbox_sound none scan = h
  poll_mailbox_sound (some mb) scan =
      report_poll_sound mb (scanned_mailbox scan) (loaded_mailbox scan)

  pub poll_sound : (scan : Scan) → is_sound (Views.poll s scan).0 ≡ true
  unfolding Views.poll
  poll_sound scan = poll_mailbox_sound s.view.mbox scan

module _ (e : Env) (s : Session) (h : is_sound s ≡ true) where
  pub with_name-keeps :
      (usage : String) (args : Text) (f : Text → Outcome)
      → ((name : Text) → keeps (f name) ≡ true)
      → keeps (Folders.with_name e s usage args f) ≡ true
  unfolding Folders.with_name
  with_name-keeps usage args f k = with_argument-keeps e s h _ _ _ (λ t rest. k _)

  pub with_opened-keeps :
      (name : Text) (failure : String) (f : Mailbox → Outcome)
      → ((mb : Mailbox) → keeps (f mb) ≡ true)
      → keeps (Folders.with_opened e s name failure f) ≡ true
  unfolding Folders.with_opened Folders.opened keeps
  with_opened-keeps name failure f k = opened_outcome (Folders.open_mailbox e s name)
    where
      opened_outcome :
          (r : List DirPath × Option Mailbox) → keeps (Folders.opened e s failure f r) ≡ true
      opened_outcome (disk, none) = ground (arith, h)
      opened_outcome (disk, some mb) = k mb

  pub changed-keeps :
      (good : String) (r : List DirPath × Option FolderError)
      → keeps (Folders.changed e s good r) ≡ true
  unfolding Folders.changed keeps
  changed-keeps good (disk, none) = ground (arith, h)
  changed-keeps good (disk, some err) = ground (arith, h)

  pub with_mailbox-keeps :
      (f : Mailbox → Outcome)
      → ((mb : Mailbox) → s.tls ≡ true → s.view.mbox ≡ some mb → keeps (f mb) ≡ true)
      → keeps (with_mailbox e s f) ≡ true
  unfolding with_mailbox on_mailbox
  with_mailbox-keeps f k = if_selected-keeps e s h _ (λ tls there. on_it tls s.view.mbox refl there)
    where
      on_it :
          s.tls ≡ true
          → (o : Option Mailbox) → s.view.mbox ≡ o
          → is_there o ≡ true
          → keeps (on_mailbox e s f o) ≡ true
      on_it tls none same there = cc
      on_it tls (some mb) same there = k mb tls same

  pub after_append_sound : (folder : Text) → is_sound (Appending.after_append e s folder).0 ≡ true
  unfolding Appending.after_append Appending.refreshed
  after_append_sound folder = again (is_selected s.state && text_eq s.folder folder) _
    where
      again :
          (b : Bool) (o : Option Mailbox)
          → is_sound (if b then Appending.refreshed s o else (s, [])).0 ≡ true
      again false o = h
      again true none = h
      again true (some mb) = set_mailbox_sound s h mb

  pub within_session-keeps :
      (mb : Mailbox) (o : Commands.Outcome)
      → s.view.mbox ≡ some mb
      → (is_there s.view.mbox ≡ true → is_there o.session.mbox ≡ true)
      → keeps (within_session e s o) ≡ true
  unfolding within_session keeps is_sound
  within_session-keeps mb o same k =
      let there : is_there s.view.mbox ≡ true = ap is_there same in ground (arith, h, k there)
