-- ===== src/Smtp/Relay.antt =====
-- Port 25 is no relay: an inbound session takes local recipients only, and forwards as they ask.
use mathlib.Core.Bool.{true≢false}
use verta.Common.{
  sym, ◌∙◌, codes, inl, inr, inr, inl, Bool-cases, ◌≡◌, refl, Text, Bool, true, false, List, [],
  ◌∷◌, Option, none, some, All, All-append, arith,
}
use verta.Smtp.Session.{
  Plan, inbound, is_submission, Rcpt, Session, Env, Effect, enqueued, stored, forwarded, Outcome,
  answer, hang_up, reset_transaction,
}
use verta.Smtp.Commands.{
  rcpt_address, split_rcpt, sized_sender, parsed_rcpt, parsed_sender, routed_rcpt, cmd_helo,
  cmd_starttls, cmd_auth, cmd_mail, cmd_rcpt, check_rcpt, route_rcpt, add_rcpt, try_credentials,
  authenticated, accept_sender,
}
use verta.Smtp.Parsing.{parse_path, split_addr}
use verta.Smtp.Effects.{data_session, cmd_data-All}
use verta.Smtp.Data.{cmd_data}
use verta.Smtp.Loop.{
  Verb, helo, ehlo, starttls, mail, rcpt, data_verb, rset, noop, quit_verb, disabled, auth, help,
  unknown, dispatch, parse_line, step, run,
}

-- What leaves the server is forwarded, to an address that satisfies Ok, and nothing is queued for a recipient.
abbrev pub Leaves : (Text → Type 0) → Effect → Type 0
Leaves Ok (enqueued sender to msg) = ⊥
Leaves Ok (stored sender mailbox folder seen flagged msg) = Unit
Leaves Ok (forwarded sender to msg) = Ok to

-- Every address that the plans of local addresses and the filters forward to satisfies Ok.
abbrev pub ForwardsTo : (Text → Type 0) → Env → Type 0
ForwardsTo Ok e =
    ((addr local domain : Text) (plan : Plan)
      → split_addr addr ≡ some (local, domain)
      → e.is_local_domain domain ≡ true
      → e.route addr ≡ some plan
      → All Ok plan.remote)
    × ((box msg : Text) → All Ok (e.filter box msg).forward_to)

-- A local recipient, whose plan forwards to such addresses.
abbrev pub IsLocal : (Text → Type 0) → Rcpt → Type 0
IsLocal Ok r = (r.remote ≡ false) × All Ok r.plan.remote

module _ (Ok : Text → Type 0) where
  abbrev AllLocal : Session → Type 0
  AllLocal s = All (IsLocal Ok) s.rcpts

  nobody : (s : Session) → AllLocal (reset_transaction s)
  unfolding reset_transaction
  nobody s = tt

  may_send :
      (P : Effect → Type 0) (sender : Text) (rs : List Rcpt)
      → All (IsLocal Ok) rs
      → All
          (λ r.
            (r.remote ≡ true → (m : Text) → P (enqueued sender r.addr m)) × All Ok r.plan.remote)
          rs
  may_send P sender [] h = tt
  may_send P sender (r ∷ rs) h =
      ((λ e. absurd (true≢false (sym e ∙ h.0.0)), h.0.1), may_send P sender rs h.1)

  -- The recipients are local, and what left is as it may.
  abbrev Stays : Outcome → Type 0
  Stays o = AllLocal o.session × All (Leaves Ok) o.effects

  cmd_data-Stays : (e : Env) (s : Session) → ForwardsTo Ok e → AllLocal s → Stays (cmd_data e s)
  cmd_data-Stays e s f h = (
    elim (data_session e s) [ inl same ↦ rw same h | inr reset ↦ rw reset (nobody s) ],
    cmd_data-All e s (Leaves Ok) Ok f.1 (λ r m k. k) (λ b d x y m. tt)
        (may_send (Leaves Ok) s.sender s.rcpts h),
  )

  add_rcpt-Stays : (s : Session) (r : Rcpt) → IsLocal Ok r → AllLocal s → Stays (add_rcpt s r)
  unfolding add_rcpt answer
  add_rcpt-Stays s r e h = (All-append _ s.rcpts (r ∷ []) h (e, tt), tt)

  routed_rcpt-Stays :
      (s : Session) (a d : Text) (o : Option Plan)
      → ((plan : Plan) → o ≡ some plan → All Ok plan.remote)
      → AllLocal s
      → Stays (routed_rcpt s a d o)
  unfolding routed_rcpt answer
  routed_rcpt-Stays s a d none f h = (h, tt)
  routed_rcpt-Stays s a d (some plan) f h = add_rcpt-Stays s _ (refl, f plan refl) h

  check_rcpt-Stays :
      (e : Env) (s : Session) (a l d : Text)
      → ForwardsTo Ok e
      → split_addr a ≡ some (l, d)
      → e.set.mode ≡ inbound
      → AllLocal s
      → Stays (check_rcpt e s a d)
  unfolding check_rcpt route_rcpt answer is_submission
  check_rcpt-Stays e s a l d f p i h = elim (Bool-cases (e.is_local_domain d)) [
    | inl here ↦
        ground
          (arith, here, routed_rcpt-Stays s a d (e.route a) (λ plan q. f.0 a l d plan p here q) h)
    | inr away ↦ ground (arith, i, away, h)
  ]

  parsed_rcpt-Stays :
      (e : Env) (s : Session) (o : Option (Text × List Text))
      → ForwardsTo Ok e
      → e.set.mode ≡ inbound
      → AllLocal s
      → Stays (parsed_rcpt e s o)
  unfolding parsed_rcpt answer
  parsed_rcpt-Stays e s none f i h = (h, tt)
  parsed_rcpt-Stays e s (some (addr, params)) f i h = go (split_addr (rcpt_address e addr)) refl
    where
      go :
          (o : Option (Text × Text))
          → split_addr (rcpt_address e addr) ≡ o
          → Stays (split_rcpt e s (rcpt_address e addr) o)
      go none p = unfold split_rcpt in (h, tt)
      go (some (local, domain)) p =
          unfold split_rcpt in check_rcpt-Stays e s (rcpt_address e addr) local domain f p i h

  cmd_rcpt-Stays :
      (e : Env) (s : Session) (arg : Text)
      → ForwardsTo Ok e
      → e.set.mode ≡ inbound
      → AllLocal s
      → Stays (cmd_rcpt e s arg)
  unfolding cmd_rcpt answer
  cmd_rcpt-Stays e s arg f i h =
      ground (arith, parsed_rcpt-Stays e s (parse_path arg (codes "TO:")) f i h)

  cmd_mail-Stays : (e : Env) (s : Session) (arg : Text) → AllLocal s → Stays (cmd_mail e s arg)
  unfolding cmd_mail answer parsed_sender sized_sender accept_sender
  cmd_mail-Stays e s arg h = ground arith

  cmd_auth-Stays : (e : Env) (s : Session) (arg : Text) → AllLocal s → Stays (cmd_auth e s arg)
  unfolding cmd_auth answer try_credentials authenticated
  cmd_auth-Stays e s arg h = ground arith

  cmd_helo-Stays :
      (e : Env) (s : Session) (arg : Text) (x : Bool) → AllLocal s → Stays (cmd_helo e s arg x)
  unfolding cmd_helo answer reset_transaction
  cmd_helo-Stays e s arg x h = ground arith

  cmd_starttls-Stays : (e : Env) (s : Session) → AllLocal s → Stays (cmd_starttls e s)
  unfolding cmd_starttls answer hang_up reset_transaction
  cmd_starttls-Stays e s h = ground arith

  dispatch-Stays :
      (e : Env) (s : Session) (v : Verb) (arg : Text)
      → ForwardsTo Ok e
      → e.set.mode ≡ inbound
      → AllLocal s
      → Stays (dispatch e s v arg)
  unfolding dispatch answer reset_transaction
  dispatch-Stays e s helo arg f i h = cmd_helo-Stays e s arg false h
  dispatch-Stays e s ehlo arg f i h = cmd_helo-Stays e s arg true h
  dispatch-Stays e s starttls arg f i h = cmd_starttls-Stays e s h
  dispatch-Stays e s mail arg f i h = cmd_mail-Stays e s arg h
  dispatch-Stays e s rcpt arg f i h = cmd_rcpt-Stays e s arg f i h
  dispatch-Stays e s data_verb arg f i h = cmd_data-Stays e s f h
  dispatch-Stays e s rset arg f i h = (tt, tt)
  dispatch-Stays e s noop arg f i h = (h, tt)
  dispatch-Stays e s quit_verb arg f i h = (h, tt)
  dispatch-Stays e s disabled arg f i h = (h, tt)
  dispatch-Stays e s auth arg f i h = cmd_auth-Stays e s arg h
  dispatch-Stays e s help arg f i h = (h, tt)
  dispatch-Stays e s unknown arg f i h = (h, tt)

  step-Stays :
      (e : Env) (s : Session) (l : Text)
      → ForwardsTo Ok e
      → e.set.mode ≡ inbound
      → AllLocal s
      → Stays (step e s l)
  unfolding step
  step-Stays e s [] f i h = (h, tt)
  step-Stays e s (c ∷ l) f i h =
      dispatch-Stays e s (parse_line (c ∷ l)).0 (parse_line (c ∷ l)).1 f i h

  run-Stays :
      (s : Session) (lines : List (Env × Text))
      → All (λ p. p.0.set.mode ≡ inbound) lines
      → All (λ p. ForwardsTo Ok p.0) lines
      → All (IsLocal Ok) s.rcpts
      → All (IsLocal Ok) (run s lines).0.rcpts × All (Leaves Ok) (run s lines).1
  unfolding run
  run-Stays s [] i f h = (h, tt)
  run-Stays s ((e, l) ∷ lines) i f h =
      let (rcpts, effects) = step-Stays e s l f.0 i.0 h in
      let (later_rcpts, later_effects) = run-Stays (step e s l).session lines i.1 f.1 rcpts in
      elim (Bool-cases (step e s l).quit) [
        | inl ends ↦ rw ends (rcpts, effects)
        | inr goes_on ↦
            rw goes_on (later_rcpts, All-append _ (step e s l).effects _ effects later_effects)
      ]

  none_remote : (rs : List Rcpt) → All (IsLocal Ok) rs → All (λ r. r.remote ≡ false) rs
  none_remote [] h = tt
  none_remote (r ∷ rs) h = (h.0.0, none_remote rs h.1)

  -- Let a listener be inbound, and a condition hold of every address that the plans of local
  -- addresses and the users' filters forward to, and that the plans of a session's recipients,
  -- which are all local, forward to. Whatever the client sends: every recipient stays local, no
  -- message is queued for a recipient of its own at another server, and a message is forwarded
  -- only to addresses of which the condition holds.
  pub run_no_relay :
      (s : Session) (lines : List (Env × Text))
      → All (λ p. p.0.set.mode ≡ inbound) lines
      → All (λ p. ForwardsTo Ok p.0) lines
      → All (IsLocal Ok) s.rcpts
      → All (λ r. r.remote ≡ false) (run s lines).0.rcpts × All (Leaves Ok) (run s lines).1
  run_no_relay s lines i f h =
      let (rcpts, effects) = run-Stays s lines i f h in (none_remote _ rcpts, effects)
