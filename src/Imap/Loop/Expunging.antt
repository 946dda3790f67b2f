-- ===== src/Imap/Loop/Expunging.antt =====
-- UID EXPUNGE, which takes a set of UIDs.
use verta.Common.{arith, Text, codes, true, false, List, [], ◌++◌, some, ◌≡◌, refl, ℕ, ap, ◌∙◌}
use verta.Maildir.Mailbox.{Mailbox, expunge}
use verta.Maildir.Mailbox.Expunging.{expunge_lem, with_deleted}
use verta.Imap.Parsing.{token_upper, next}
use verta.Imap.Session.{
  Env, Session, selected, with_mailbox, on_mailbox, if_selected, within_session, with_argument,
}
use verta.Imap.Commands.{cmd_expunge, expunge_with}
use verta.Imap.Loop.{dispatch, dispatch_uid, perform, expunge_verb, verb}

-- UID EXPUNGE, whatever set of UIDs it has, does what EXPUNGE does.
uid_expunge-expunge :
    (e : Env) (s : Session) (args : Text)
    → dispatch e s (codes "a UID EXPUNGE " ++ args) ≡ perform e s expunge_verb [] false
unfolding dispatch dispatch_uid with_argument next verb perform with_mailbox token_upper
uid_expunge-expunge e s args = refl

expunge_removed :
    (e : Env) (s : Session) (mb : Mailbox)
    → s.state ≡ selected
    → s.view.mbox ≡ some mb
    → s.view.read_only ≡ false
    → (perform e s expunge_verb [] false).removed ≡ (expunge e.commands.gone mb).2
unfolding perform with_mailbox on_mailbox if_selected within_session cmd_expunge expunge_with
expunge_removed e s mb st there writable = ground (arith, st, there, writable)

-- Let a mailbox be selected that EXAMINE did not open, and an expunge of it succeed. UID EXPUNGE,
-- whatever set of UIDs follows it, removes every message flagged Deleted.
pub uid_expunge-removes :
    (e : Env) (s : Session) (args : Text) (mb : Mailbox) (seqs : List ℕ)
    → s.state ≡ selected
    → s.view.mbox ≡ some mb
    → s.view.read_only ≡ false
    → (expunge e.commands.gone mb).0 ≡ some seqs
    → (dispatch e s (codes "a UID EXPUNGE " ++ args)).removed ≡ with_deleted true mb.messages
uid_expunge-removes e s args mb seqs st there writable done =
    ap (λ o. o.removed) (uid_expunge-expunge e s args)
    ∙ expunge_removed e s mb st there writable
    ∙ (expunge_lem e.commands.gone mb seqs done).0
