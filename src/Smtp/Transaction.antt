-- ===== src/Smtp/Transaction.antt =====
-- Submission: mail is sent only by a user who has authenticated over TLS, under the user's address.
use verta.Common.{
  ◌≡◌, inl, inr, refl, Text, text_eq, text_eq_iff, Bool, true, false, Bool-cases, List, [], ◌∷◌,
  All, All-append, arith, length, leb,
}
use verta.Smtp.Session.{
  new_session, submission, Rcpt, Session, Env, Effect, enqueued, stored, forwarded, answer, hang_up,
  new_session,
}
use verta.Smtp.Commands.{
  try_credentials, authenticated, try_credentials, authenticated, cmd_helo, cmd_starttls, cmd_auth,
  cmd_mail, cmd_rcpt, check_rcpt, route_rcpt, routed_rcpt, add_rcpt, split_rcpt, parsed_rcpt,
  accept_sender, sized_sender, parsed_sender,
}
use verta.Smtp.Data.{cmd_data}
use verta.Smtp.Effects.{cmd_data-All}
use verta.Smtp.Loop.{
  Verb, helo, ehlo, starttls, mail, rcpt, data_verb, rset, noop, quit_verb, disabled, auth, help,
  unknown, dispatch, parse_line, step, run,
}
use verta.Smtp.Ownership.{is_own, Keeps, Fine, Fine-self, step-Fine}

-- The envelope sender of an effect.
abbrev pub sender_of : Effect → Text
sender_of (enqueued sender to msg) = sender
sender_of (stored sender mailbox folder seen flagged msg) = sender
sender_of (forwarded sender to msg) = sender

-- Sent by the session's user, who is logged in over TLS.
abbrev pub BySession : Session → Effect → Type 0
BySession s f = (sender_of f ≡ s.authed) × (text_eq s.authed [] ≡ false) × (s.tls ≡ true)

sent_own :
    (s : Session)
    → leb (length s.rcpts) 0 ≡ false
    → is_own s ≡ true
    → (s.sender ≡ s.authed) × (text_eq s.authed [] ≡ false) × (s.tls ≡ true)
sent_own s some_rcpts h = ground (arith, text_eq_iff s.sender s.authed)

All-may_queue : (P : Rcpt → Type 0) (rs : List Rcpt) → ((r : Rcpt) → P r) → All P rs
All-may_queue P [] h = tt
All-may_queue P (r ∷ rs) h = (h r, All-may_queue P rs h)

anything : (l : List Text) → All (λ (t : Text). Unit {0}) l
anything [] = tt
anything (t ∷ l) = (tt, anything l)

data-BySession :
    (e : Env) (s : Session) → is_own s ≡ true → All (BySession s) (cmd_data e s).effects
data-BySession e s h = elim (Bool-cases (leb (length s.rcpts) 0)) [
  | inl nobody ↦ unfold cmd_data answer in rw nobody tt
  | inr some_rcpts ↦
      let own : (s.sender ≡ s.authed) × (text_eq s.authed [] ≡ false) × (s.tls ≡ true) =
        sent_own s some_rcpts h in
      cmd_data-All e s (BySession s) (λ to. Unit {0}) (λ b m. anything _) (λ r m k. own)
        (λ b f x y m. own) (All-may_queue _ s.rcpts (λ r. (λ q m. own, anything r.plan.remote)))
]

dispatch-BySession :
    (e : Env) (s : Session) (v : Verb) (arg : Text)
    → is_own s ≡ true
    → All (BySession s) (dispatch e s v arg).effects
unfolding dispatch answer
dispatch-BySession e s helo arg h = unfold cmd_helo in ground arith
dispatch-BySession e s ehlo arg h = unfold cmd_helo in ground arith
dispatch-BySession e s starttls arg h = unfold cmd_starttls hang_up in ground arith
dispatch-BySession e s mail arg h =
    unfold cmd_mail accept_sender sized_sender parsed_sender in ground arith
dispatch-BySession e s rcpt arg h =
    unfold cmd_rcpt parsed_rcpt split_rcpt check_rcpt route_rcpt routed_rcpt add_rcpt in
    ground arith
dispatch-BySession e s data_verb arg h = data-BySession e s h
dispatch-BySession e s rset arg h = tt
dispatch-BySession e s noop arg h = tt
dispatch-BySession e s quit_verb arg h = tt
dispatch-BySession e s disabled arg h = tt
dispatch-BySession e s auth arg h = unfold cmd_auth try_credentials authenticated in ground arith
dispatch-BySession e s help arg h = tt
dispatch-BySession e s unknown arg h = tt

step-BySession :
    (e : Env) (s : Session) (l : Text) → is_own s ≡ true → All (BySession s) (step e s l).effects
unfolding step
step-BySession e s [] h = tt
step-BySession e s (c ∷ l) h =
    dispatch-BySession e s (parse_line (c ∷ l)).0 (parse_line (c ∷ l)).1 h

BySession-later :
    (s t : Session) (fs : List Effect) → Keeps s t → All (BySession s) fs → All (BySession t) fs
BySession-later s t [] k h = tt
BySession-later s t (f ∷ fs) k h = (
  (
    ground (arith, text_eq_iff t.authed s.authed),
    ground (arith, text_eq_iff t.authed s.authed),
    ground arith,
  ),
  BySession-later s t fs k h.1,
)

Keeps-trans : (s t u : Session) → Keeps s t → Keeps t u → Keeps s u
Keeps-trans s t u h k = ground (
  arith,
  text_eq_iff t.authed s.authed,
  text_eq_iff u.authed t.authed,
  text_eq_iff u.authed s.authed,
)

run-Fine :
    (s : Session) (lines : List (Env × Text))
    → All (λ p. p.0.set.mode ≡ submission) lines
    → is_own s ≡ true
    → Fine s (run s lines).0 × All (BySession (run s lines).0) (run s lines).1
unfolding run
run-Fine s [] m h = (Fine-self s h, tt)
run-Fine s ((e, l) ∷ lines) m h =
    let (own, keeps) = step-Fine e s l m.0 h in
    let ((later, later_keeps), by_later) = run-Fine (step e s l).session lines m.1 own in
    let by_now : All (BySession (step e s l).session) (step e s l).effects =
      BySession-later s (step e s l).session _ keeps (step-BySession e s l h) in
    elim (Bool-cases (step e s l).quit) [
      | inl ends ↦ rw ends ((own, keeps), by_now)
      | inr goes_on ↦ rw goes_on (
        (
          later,
          Keeps-trans s (step e s l).session (run (step e s l).session lines).0 keeps later_keeps,
        ),
        All-append _ (step e s l).effects _
            (BySession-later (step e s l).session (run (step e s l).session lines).0 _ later_keeps
              by_now)
            by_later,
      )
    ]

-- On a submission listener, whatever a client sends in a new session: everything that the session
-- queues, stores or forwards has as its envelope sender the user whom the session has
-- authenticated, over TLS; and at its end an open transaction is that user's.
pub run_authenticated :
    (ip : Text) (implicit_tls : Bool) (lines : List (Env × Text))
    → All (λ p. p.0.set.mode ≡ submission) lines
    → All
        (BySession (run (new_session ip implicit_tls) lines).0)
        (run (new_session ip implicit_tls) lines).1
      × (is_own (run (new_session ip implicit_tls) lines).0 ≡ true)
unfolding text_eq
run_authenticated ip implicit_tls lines m =
    let (fine, by_user) =
      run-Fine (new_session ip implicit_tls) lines m (unfold new_session in refl) in
    (by_user, fine.0)
