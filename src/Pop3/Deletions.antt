-- ===== src/Pop3/Deletions.antt =====
-- What QUIT removes from the disk.
use verta.Common.{
  ◌∙◌, sym, ap, text_eq_iff, ℕ, ◌+◌, ◌≡◌, ◌≢◌, refl, Text, true, ◌||◌, if◌then◌else◌, List, [], ◌∷◌,
  none, some, length, arith, Option-cases, inl, inr, map,
}
use verta.Maildir.Flags.{FlagSet, has, add, deleted}
use verta.Maildir.Flags.FileNames.{has-add}
use verta.Maildir.Mailbox.{Message, Mailbox, set_flags, expunge}
use verta.Maildir.Mailbox.Expunging.{with_deleted, expunge_lem}
use verta.Pop3.Session.{not_removed, err, closing_deleted, Reply, Env, Session, Outcome, is_marked}
use verta.Pop3.Commands.{flag_marked, update, cmd_quit, end_session, cmd_pass, log_in}
use verta.Maildir.Mailbox.Expunging.{set_flags_same}

abbrev pub uids : List Message → List ℕ
uids = map (λ m. m.uid)

-- The messages, numbered from `i`, that are marked or have the Deleted flag already.
abbrev pub doomed : ℕ → List ℕ → List Message → List Message
doomed i del [] = []
doomed i del (m ∷ ms) =
    if is_marked del i || has m.flags deleted
    then m ∷ doomed (i + 1) del ms
    else doomed (i + 1) del ms

-- Every rename succeeds.
abbrev pub AllRename : Env → List Message → Type 0
AllRename e [] = Unit
AllRename e (m ∷ ms) = (e.rename_ok m ≡ true) × AllRename e ms

flagging_one :
    (e : Env) (m : Message)
    → e.rename_ok m ≡ true
    → (m' : Message) × (set_flags (e.rename_ok m) m (add m.flags deleted) ≡ some m')
      × (m'.uid ≡ m.uid)
      × (has m'.flags deleted ≡ true)
flagging_one e m h = elim (Option-cases (set_flags (e.rename_ok m) m (add m.flags deleted))) [
  | inl failed ↦ absurd (set_flags_total m (add m.flags deleted) (rw h at failed))
  | inr (m', set) ↦
      let (u, _, f) = set_flags_same (e.rename_ok m) m m' (add m.flags deleted) set in
      (m', set, u, ap (λ g. has g deleted) f ∙ has-add m.flags deleted deleted)
]
  where
    set_flags_total : (m : Message) (f : FlagSet) → set_flags true m f ≢ none
    set_flags_total m f e = unfold set_flags in ground (arith, e)

flagged_uids :
    (e : Env) (i : ℕ) (del : List ℕ) (ms : List Message)
    → AllRename e ms
    → uids (with_deleted true (flag_marked e i del ms).0) ≡ uids (doomed i del ms)
unfolding flag_marked
flagged_uids e i del [] h = refl
flagged_uids e i del (m ∷ ms) h =
    let (m', set, u, f) = flagging_one e m h.0 in
    ground (arith, set, u, f, flagged_uids e (i + 1) del ms h.1)

abbrev flagged_mailbox : Env → Session → Mailbox
flagged_mailbox e s = record {
  messages = (flag_marked e 1 s.del s.msgs).0;
  uid_validity = 0;
  uid_next = 0;
}

update_done :
    (e : Env) (s : Session) (r : Reply)
    → (update e s).replies ≡ r ∷ []
    → r ≢ err not_removed
    → (seqs : List ℕ) × ((expunge e.gone (flagged_mailbox e s)).0 ≡ some seqs)
      × ((update e s).removed ≡ (expunge e.gone (flagged_mailbox e s)).2)
unfolding update end_session
update_done e s r h n = elim (Option-cases (expunge e.gone (flagged_mailbox e s)).0) [
  | inl failed ↦ absurd (n (ground (arith, h, failed)))
  | inr (seqs, done) ↦ (seqs, done, ground (arith, done))
]

-- A QUIT of a logged-in session with marks that reports a number of deletions, and whose renames
-- succeed, removes from disk exactly the messages that are marked or that were flagged Deleted
-- before, in the order of the view.
pub quit_removes :
    (e : Env) (s : Session) (n : ℕ)
    → s.authd ≡ true
    → length s.del ≢ 0
    → AllRename e s.msgs
    → (cmd_quit e s).replies ≡ closing_deleted n ∷ []
    → uids (cmd_quit e s).removed ≡ uids (doomed 1 s.del s.msgs)
unfolding cmd_quit
quit_removes e s n a marked r done =
    let run : cmd_quit e s ≡ update e s = ground (arith, a, marked) in
    let (seqs, ok, removed) =
      update_done e s (closing_deleted n) (ap (λ (o : Outcome). o.replies) (sym run) ∙ done)
        (λ x. cc) in
    ap (λ (o : Outcome). uids o.removed) run
    ∙ (ap uids removed
        ∙ (ap uids (expunge_lem e.gone (flagged_mailbox e s) seqs ok).0
            ∙ flagged_uids e 1 s.del s.msgs r))

relogin_view :
    (e : Env) (s : Session) (arg root : Text) (msgs : List Message)
    → s.tls ≡ true
    → s.user ≢ []
    → e.authenticate s.user arg s.ip ≡ some root
    → e.open_mailbox root ≡ some msgs
    → ((cmd_pass e s arg).session.msgs ≡ msgs)
      × ((cmd_pass e s arg).session.del ≡ s.del)
      × ((cmd_pass e s arg).session.authd ≡ true)
unfolding cmd_pass log_in
relogin_view e s arg root msgs t u known opened =
    ground (arith, text_eq_iff s.user [], u, known, opened)

-- A PASS that logs in over TLS, in a session that has marks, keeps them: a QUIT after it that
-- reports deletions, and whose renames succeed, removes the messages of the newly opened mailbox
-- that have the numbers marked before, or that were flagged Deleted.
pub relogin_removes :
    (e e' : Env) (s : Session) (arg root : Text) (msgs : List Message) (n : ℕ)
    → s.tls ≡ true
    → s.user ≢ []
    → e.authenticate s.user arg s.ip ≡ some root
    → e.open_mailbox root ≡ some msgs
    → length s.del ≢ 0
    → AllRename e' msgs
    → (cmd_quit e' (cmd_pass e s arg).session).replies ≡ closing_deleted n ∷ []
    → uids (cmd_quit e' (cmd_pass e s arg).session).removed ≡ uids (doomed 1 s.del msgs)
relogin_removes e e' s arg root msgs n t u known opened marked r done =
    let (view, kept, a) = relogin_view e s arg root msgs t u known opened in
    quit_removes e' (cmd_pass e s arg).session n a (rw kept marked) (rw view r) done
    ∙ rw (view, kept)
