-- ===== src/Imap/Loop/Running.antt =====
-- Whatever a client sends, the session stays sound.
use verta.Common.{
  codes, trim_space, ◌≢◌, Text, Bool, true, false, not, List, [], ◌∷◌, ◌≡◌, refl, arith,
  if◌then◌else◌, All, ◌&&◌, ◌||◌, text_eq,
}
use verta.Imap.Views as Views
use verta.Imap.Session.{
  Env, Session, State, not_authenticated, authenticated, selected, Outcome, new_session,
}
use verta.Imap.Login.{is_new_session}
use verta.Imap.Session.{is_selected}
use verta.Imap.Loop.{token_upper, token_string, Verb, perform, dispatch_uid, dispatch, step, run}
use verta.Imap.Views.{
  cmd_noop, cmd_close, cmd_unselect, cmd_fetch, cmd_search, cmd_idle, poll, poll_all, unselected,
}
use verta.Imap.Loop as Loop
use verta.Imap.Loop.Sound.{
  is_there, is_sound, keeps, unchanged-keeps, if_authd-keeps, if_selected-keeps,
  with_argument-keeps, cmd_starttls-keeps, cmd_login-keeps, cmd_authenticate-keeps,
}
use verta.Imap.Loop.Kept.{
  with_mailbox-keeps, within_session-keeps, cmd_expunge-there, cmd_copy_move-there, cmd_store-there,
}
use verta.Imap.Loop.Handlers.{
  if-keeps, cmd_noop-keeps, cmd_close-keeps, cmd_unselect-keeps, cmd_select-keeps, cmd_list-keeps,
  cmd_status-keeps, cmd_create-keeps, cmd_delete-keeps, cmd_subscribe-keeps, cmd_append-keeps,
  cmd_fetch-keeps, cmd_search-keeps, cmd_idle-keeps, quota-keeps,
}

perform-keeps :
    (e : Env) (s : Session)
    → is_sound s ≡ true
    → (v : Verb) (args : Text) (uid : Bool) → keeps (perform e s v args uid) ≡ true
unfolding perform Views.cmd_get_quota_root Views.cmd_get_quota
perform-keeps e s h Verb.capability args uid = unchanged-keeps e s h _ refl refl
perform-keeps e s h Verb.noop args uid = cmd_noop-keeps e s h
perform-keeps e s h Verb.logout args uid = unchanged-keeps e s h _ refl refl
perform-keeps e s h Verb.starttls args uid = cmd_starttls-keeps e s h
perform-keeps e s h Verb.login args uid = cmd_login-keeps e s h args
perform-keeps e s h Verb.authenticate args uid = cmd_authenticate-keeps e s h args
perform-keeps e s h Verb.select args uid = cmd_select-keeps e s h false args
perform-keeps e s h Verb.examine args uid = cmd_select-keeps e s h true args
perform-keeps e s h Verb.list args uid = cmd_list-keeps e s h false args
perform-keeps e s h Verb.lsub args uid = cmd_list-keeps e s h true args
perform-keeps e s h Verb.status args uid = cmd_status-keeps e s h args
perform-keeps e s h Verb.create args uid = cmd_create-keeps e s h args
perform-keeps e s h Verb.delete args uid = cmd_delete-keeps e s h args
perform-keeps e s h Verb.subscribe args uid = cmd_subscribe-keeps e s h args
perform-keeps e s h Verb.namespace args uid = unchanged-keeps e s h _ refl refl
perform-keeps e s h Verb.check args uid =
    if_selected-keeps e s h _ (λ tls there. unchanged-keeps e s h _ refl refl)
perform-keeps e s h Verb.close args uid = cmd_close-keeps e s h
perform-keeps e s h Verb.unselect args uid = cmd_unselect-keeps e s h
perform-keeps e s h Verb.expunge_verb args uid =
    with_mailbox-keeps e s h _
      (λ mb tls same. within_session-keeps e s h mb _ same (cmd_expunge-there e.commands s.view))
perform-keeps e s h Verb.append args uid = cmd_append-keeps e s h args
perform-keeps e s h Verb.fetch args uid = cmd_fetch-keeps e s h args uid
perform-keeps e s h Verb.store args uid = with_mailbox-keeps e s h _ (λ mb tls same.
    within_session-keeps e s h mb _ same
      (λ there. cmd_store-there e.commands s.view there args uid))
perform-keeps e s h Verb.search args uid = cmd_search-keeps e s h args uid
perform-keeps e s h Verb.copy args uid = with_mailbox-keeps e s h _ (λ mb tls same.
    within_session-keeps e s h mb _ same
      (λ there. cmd_copy_move-there e.commands s.view there args uid false))
perform-keeps e s h Verb.move args uid = with_mailbox-keeps e s h _ (λ mb tls same.
    within_session-keeps e s h mb _ same
      (λ there. cmd_copy_move-there e.commands s.view there args uid true))
perform-keeps e s h Verb.idle args uid = cmd_idle-keeps e s h
perform-keeps e s h Verb.get_quota_root args uid = quota-keeps e s h args _ _
perform-keeps e s h Verb.get_quota args uid = quota-keeps e s h args _ _
perform-keeps e s h Verb.set_quota args uid =
    if_authd-keeps e s h _ (λ tls. unchanged-keeps e s h _ refl refl)
perform-keeps e s h (Verb.unknown cmd) args uid = unchanged-keeps e s h _ refl refl

module _ (e : Env) (s : Session) (h : is_sound s ≡ true) where
  dispatch_uid-keeps : (args : Text) → keeps (dispatch_uid e s args) ≡ true
  unfolding dispatch_uid
  dispatch_uid-keeps args = with_argument-keeps e s h _ _ _ (λ sub rest.
      if-keeps (Loop.takes_uid (Loop.verb (token_upper sub))) _ _ (perform-keeps e s h _ rest true)
        (unchanged-keeps e s h _ refl refl))

  dispatch-keeps : (l : Text) → keeps (dispatch e s l) ≡ true
  unfolding dispatch
  dispatch-keeps l = with_argument-keeps e s h _ _ _ (λ tag rest.
      with_argument-keeps e s h _ _ _ (λ cmd args.
        if-keeps (text_eq (token_upper cmd) (codes "UID")) _ _ (dispatch_uid-keeps args)
          (perform-keeps e s h _ args false)))

  step-keeps : (l : Text) → keeps (step e s l) ≡ true
  unfolding step
  step-keeps l =
      if-keeps (text_eq (trim_space l) []) _ _ (unchanged-keeps e s h _ refl refl)
        (dispatch-keeps l)

keeps-is_sound : (o : Outcome) → keeps o ≡ true → is_sound o.session ≡ true
unfolding keeps
keeps-is_sound o h = ground (arith, h)

run-keeps :
    (s : Session) (lines : List (Env × Text))
    → is_sound s ≡ true
    → All (λ o. keeps o ≡ true) (run s lines)
unfolding run
run-keeps s [] h = tt
run-keeps s ((e, l) ∷ lines) h =
    let now = step-keeps e s h l in
    let later = run-keeps (step e s l).session lines (keeps-is_sound (step e s l) now) in
    elim (step e s l).quit
      as (λ b.
        All (λ o. keeps o ≡ true)
          (if b then step e s l ∷ [] else step e s l ∷ run (step e s l).session lines)) [
            | true ↦ (now, tt)
            | false ↦ (now, later)
          ]

All-map :
    {P Q : Outcome → Type 0}
    → ((o : Outcome) → P o → Q o)
    → (os : List Outcome) → All P os
    → All Q os
All-map f [] h = tt
All-map f (o ∷ os) h = (f o h.0, All-map f os h.1)

-- Whoever is authenticated uses TLS, the mailbox of a session that has one selected is there, and the
-- server has not dereferenced a nil mailbox.
abbrev pub IsSafe : Outcome → Type 0
IsSafe o =
    (o.session.state ≢ not_authenticated → o.session.tls ≡ true)
    × (o.session.state ≡ selected → is_there o.session.view.mbox ≡ true)
    × (o.crashed ≡ false)

keeps-IsSafe : (o : Outcome) → keeps o ≡ true → IsSafe o
unfolding keeps is_sound
keeps-IsSafe o h = by_state o.session.state h
  where
    by_state :
        (st : State)
        → ((is_new_session st || o.session.tls)
            && (not (is_selected st) || is_there o.session.view.mbox)
            && not o.crashed)
          ≡ true
        → (st ≢ not_authenticated → o.session.tls ≡ true)
          × (st ≡ selected → is_there o.session.view.mbox ≡ true)
          × (o.crashed ≡ false)
    by_state not_authenticated k = (
      λ n. absurd (n refl),
      λ (q : not_authenticated ≡ selected). absurd (cc q),
      ground (arith, k),
    )
    by_state authenticated k =
        (λ n. ground (arith, k), λ (q : authenticated ≡ selected). absurd (cc q), ground (arith, k))
    by_state selected k = (λ n. ground (arith, k), λ q. ground (arith, k), ground (arith, k))

-- After every command of a new connection, whatever a client sends and whatever the accounts and
-- files do: whoever is authenticated uses TLS, a session that has a mailbox selected has it open,
-- and the server has not dereferenced a nil mailbox.
pub run-IsSafe : (tls : Bool) (lines : List (Env × Text)) → All IsSafe (run (new_session tls) lines)
unfolding is_sound new_session
run-IsSafe tls lines =
    All-map keeps-IsSafe (run (new_session tls) lines) (run-keeps (new_session tls) lines refl)
