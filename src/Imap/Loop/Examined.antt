-- ===== src/Imap/Loop/Examined.antt =====
-- A mailbox that EXAMINE opened is not changed.
use verta.Common.{
  ℕ, Text, Bool, true, false, List, [], ◌∷◌, Option, none, some, ◌≡◌, refl, arith, if◌then◌else◌,
  ap, ◌∙◌, sym,
}
use verta.Maildir.Mailbox.{Message, Mailbox}
use verta.Imap.Commands as Commands
use verta.Imap.Flagging as Flagging
use verta.Imap.Commands.Cases.{cmd_copy_move-cases, cmd_store-cases}
use verta.Imap.Searching.{Reader}
use verta.Imap.Fetching.{fetch_one, fetch_loop}
use verta.Imap.Session.{
  Env, Session, Reply, Outcome, reply_all, with_mailbox, within_session, set_mailbox,
}
use verta.Imap.Loop.Cases.{with_mailbox-cases, cmd_fetch-cases, cmd_search-cases}
use verta.Imap.Loop.{Verb, perform, takes_uid}
use verta.Imap.Views.{cmd_fetch, cmd_search, fetch_set}

-- A read-only FETCH leaves every message as it was.
fetch_loop-examined :
    (e : Commands.Env) (r : Reader) (spec : Text) (uid : Bool) (p : Message → Bool)
    (ms : List Message)
    → (fetch_loop e r spec uid true p ms).0 ≡ ms
unfolding fetch_loop fetch_one
fetch_loop-examined e r spec uid p [] = refl
fetch_loop-examined e r spec uid p (m ∷ ms) = ground (arith, fetch_loop-examined e r spec uid p ms)

module _ (e : Commands.Env) (s : Commands.Session) (ro : s.read_only ≡ true) where
  abbrev Still : Commands.Outcome → Type 0
  Still o = (o.session ≡ s) × (o.removed ≡ [])

  cmd_expunge-Still : Still (Commands.cmd_expunge e s)
  unfolding Commands.cmd_expunge
  cmd_expunge-Still = on_it s.mbox s.read_only ro
    where
      on_it :
          (o : Option Mailbox) (b : Bool)
          → b ≡ true
          → Still (elim o [
            | none ↦ Commands.say s "NO no mailbox selected"
            | some mb ↦
                if b
                then Commands.say s "NO mailbox is read-only"
                else Commands.expunge_with e s mb "OK EXPUNGE completed" "NO expunge failed" []
          ])
      on_it none b h = (refl, refl)
      on_it (some mb) true h = (refl, refl)
      on_it (some mb) false h = absurd (cc h)

  copy_set-Still :
      (mb : Mailbox) (set : List (ℕ × ℕ)) (dst : Text) (uid_mode move : Bool)
      → Still (Commands.copy_set e s mb set dst uid_mode move)
  unfolding Commands.copy_set
  copy_set-Still mb set dst uid_mode move = ground (arith, ro)

  cmd_copy_move-Still :
      (args : Text) (uid_mode move : Bool) → Still (Commands.cmd_copy_move e s args uid_mode move)
  cmd_copy_move-Still args uid_mode move =
      cmd_copy_move-cases Still e s (λ usage. (refl, refl)) args uid_mode move
        (λ mb set dst there. copy_set-Still mb set dst uid_mode move)

  cmd_store-Still : (args : Text) (uid_mode : Bool) → Still (Flagging.cmd_store e s args uid_mode)
  cmd_store-Still args uid_mode =
      cmd_store-cases Still e s (λ usage. (refl, refl)) args uid_mode
        (λ mb set op flags same. absurd (cc (ro, same)))

module _ (e : Env) (s : Session) (ro : s.view.read_only ≡ true) where
  abbrev pub Unchanged : Outcome → Type 0
  Unchanged o = (o.session ≡ s) × (o.removed ≡ [])

  within_session-Unchanged :
      (o : Commands.Outcome)
      → (o.session ≡ s.view) × (o.removed ≡ [])
      → Unchanged (within_session e s o)
  unfolding within_session
  within_session-Unchanged o still = (ap (λ v. record s { view = v }) still.0, still.1)

  replies-Unchanged : (replies : List Reply) → Unchanged (reply_all e s replies)
  unfolding reply_all
  replies-Unchanged replies = (refl, refl)

  missing-Unchanged : Unchanged (record (reply_all e s []) { crashed = true; quit = true })
  unfolding reply_all
  missing-Unchanged = (refl, refl)

  view-Unchanged :
      (f : Mailbox → Commands.Outcome)
      → ((mb : Mailbox) → ((f mb).session ≡ s.view) × ((f mb).removed ≡ []))
      → Unchanged (with_mailbox e s (λ mb. within_session e s (f mb)))
  view-Unchanged f k =
      with_mailbox-cases Unchanged e s replies-Unchanged missing-Unchanged _
        (λ mb same. within_session-Unchanged (f mb) (k mb))

  fetch_set-Unchanged :
      (mb : Mailbox) (set : List (ℕ × ℕ)) (items : Text) (uid : Bool)
      → s.view.mbox ≡ some mb
      → Unchanged (fetch_set e s mb set items uid)
  unfolding fetch_set set_mailbox reply_all
  fetch_set-Unchanged mb set items uid same =
      let p = Commands.is_chosen set uid (Commands.highest uid mb.messages) in
      let still =
        ap (λ (b : Bool). (fetch_loop e.commands e.reader items uid b p mb.messages).0) ro
        ∙ fetch_loop-examined e.commands e.reader items uid p mb.messages in
      (
        ap (λ ms. set_mailbox s (record mb { messages = ms })) still
            ∙ ap (λ o. record s { view = record s.view { mbox = o } }) (sym same),
        refl,
      )

  cmd_fetch-Unchanged : (args : Text) (uid : Bool) → Unchanged (cmd_fetch e s args uid)
  cmd_fetch-Unchanged args uid =
      cmd_fetch-cases Unchanged e s replies-Unchanged missing-Unchanged args uid
        (λ mb set items same. fetch_set-Unchanged mb set items uid same)

  cmd_search-Unchanged : (args : Text) (uid : Bool) → Unchanged (cmd_search e s args uid)
  cmd_search-Unchanged = cmd_search-cases Unchanged e s replies-Unchanged missing-Unchanged

-- Let the mailbox of a session have been opened by EXAMINE. FETCH, STORE, SEARCH, COPY, MOVE and
-- EXPUNGE, with UID before them or not and whatever their arguments, leave the session as it was,
-- with its messages and their flags, and remove no file.
pub perform-Unchanged :
    (e : Env) (s : Session) (v : Verb) (args : Text) (uid : Bool)
    → s.view.read_only ≡ true
    → takes_uid v ≡ true
    → ((perform e s v args uid).session ≡ s) × ((perform e s v args uid).removed ≡ [])
unfolding perform takes_uid
perform-Unchanged e s Verb.fetch args uid ro h = cmd_fetch-Unchanged e s ro args uid
perform-Unchanged e s Verb.store args uid ro h =
    view-Unchanged e s ro _ (λ mb. cmd_store-Still e.commands s.view ro args uid)
perform-Unchanged e s Verb.search args uid ro h = cmd_search-Unchanged e s ro args uid
perform-Unchanged e s Verb.copy args uid ro h =
    view-Unchanged e s ro _ (λ mb. cmd_copy_move-Still e.commands s.view ro args uid false)
perform-Unchanged e s Verb.move args uid ro h =
    view-Unchanged e s ro _ (λ mb. cmd_copy_move-Still e.commands s.view ro args uid true)
perform-Unchanged e s Verb.expunge_verb args uid ro h =
    view-Unchanged e s ro _ (λ mb. cmd_expunge-Still e.commands s.view ro)
perform-Unchanged e s v args uid ro h = absurd (cc h)
