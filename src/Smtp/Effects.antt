-- ===== src/Smtp/Effects.antt =====
-- What DATA does: to the session, and, for a property of the effects, to the outside.
use verta.Common.{
  if◌then◌else◌, ◌≡◌, ◌⊎◌, inl, inr, refl, Text, Bool, true, false, Bool-cases, List, [], ◌∷◌,
  Option, none, some, All, All-append, arith,
}
use verta.Smtp.Parsing.{ensure_crlf}
use verta.Smtp.Session.{
  is_submission, Rcpt, Session, Env, Effect, enqueued, stored, forwarded, Outcome, answer, hang_up,
  reset_transaction, ScreenAction, screen_accept, screen_quarantine, screen_reject,
}
use verta.Smtp.Data.{
  final_folder, nothing, forward, forward_all, deliver_local, deliver_locals, deliver_remotes,
  deliver_plan, both, deliver_rcpt, deliver_all, all_effects, deliver_message, screened,
  accept_body, take_message, read_message, check_rules, check_reputation, cmd_data,
}

-- The session is as it was, or its transaction is over.
abbrev pub EndsIn : Session → Outcome → Type 0
EndsIn s o = (o.session ≡ s) ⊎ (o.session ≡ reset_transaction s)

message_session :
    (e : Env) (s : Session) (spam : Bool) (m : Text) → EndsIn s (deliver_message e s spam m)
unfolding deliver_message
message_session e s spam m = inr refl

screened_session :
    (e : Env) (s : Session) (body : Text) (a : ScreenAction) (r h : Text)
    → EndsIn s (screened e s body a r h)
unfolding screened
screened_session e s body screen_reject r h = inr refl
screened_session e s body screen_quarantine r h = message_session e s true _
screened_session e s body screen_accept r h = message_session e s false _

body_session : (e : Env) (s : Session) (body : Text) → EndsIn s (accept_body e s body)
unfolding accept_body
body_session e s body = elim (Bool-cases (is_submission e.set.mode)) [
  | inl sub ↦ rw sub (message_session e s false _)
  | inr inb ↦ rw inb (screened_session e s body _ _ _)
]

take_session : (e : Env) (s : Session) (m : Option Text) → EndsIn s (take_message e s m)
unfolding take_message hang_up
take_session e s none = inl refl
take_session e s (some m) = ground (arith, body_session e s (ensure_crlf m))

rules_session : (e : Env) (s : Session) → EndsIn s (check_rules e s)
unfolding check_rules answer read_message hang_up
rules_session e s = ground (arith, take_session e s e.message)

reputation_session : (e : Env) (s : Session) (o : Option Text) → EndsIn s (check_reputation e s o)
unfolding check_reputation answer
reputation_session e s none = rules_session e s
reputation_session e s (some reason) = inl refl

pub data_session : (e : Env) (s : Session) → EndsIn s (cmd_data e s)
unfolding cmd_data answer
data_session e s = ground (arith, rules_session e s, reputation_session e s (e.refusal s.authed))

-- A property of all that may be forwarded, stored and queued holds of all the effects. What may be
-- forwarded to are the addresses that satisfy Ok, as those do that filters and plans forward to.
module _ (e : Env) (s : Session) (P : Effect → Type 0) (Ok : Text → Type 0)
    (filtered : (b m : Text) → All Ok (e.filter b m).forward_to)
    (forwards : (r m : Text) → Ok r → P (forwarded s.sender r m))
    (stores : (b f : Text) (x y : Bool) (m : Text) → P (stored s.sender b f x y m)) where
  forward-All : (d r m : Text) → Ok r → All P (forward e s d r m).1
  unfolding forward
  forward-All d r m k = elim (Bool-cases e.has_forward) [
    | inl has ↦ elim (Bool-cases (e.forward_ok d r)) [
      | inl ok ↦ rw (has, ok) (forwards r m k, tt)
      | inr error ↦ rw (has, error) tt
    ]
    | inr unset ↦ rw unset tt
  ]

  forward_all-All :
      (d : Text) (fs : List Text) (m : Text) → All Ok fs → All P (forward_all e s d fs m)
  unfolding forward_all
  forward_all-All d [] m k = tt
  forward_all-All d (f ∷ fs) m k =
      All-append P (forward e s d f m).1 _ (forward-All d f m k.0) (forward_all-All d fs m k.1)

  deliver_local-All :
      (d : Text) (spam : Bool) (m box : Text) → All P (deliver_local e s d spam m box).effects
  unfolding deliver_local
  deliver_local-All d spam m box = ground (
    arith,
    stores box (final_folder spam (e.filter box m)) (e.filter box m).seen (e.filter box m).flagged
        m,
    forward_all-All d (e.filter box m).forward_to m (filtered box m),
  )

  deliver_locals-All :
      (d : Text) (spam : Bool) (m : Text) (boxes : List Text)
      → All P (deliver_locals e s d spam m boxes).effects
  unfolding deliver_locals both
  deliver_locals-All d spam m [] = tt
  deliver_locals-All d spam m (b ∷ boxes) =
      All-append P (deliver_local e s d spam m b).effects _ (deliver_local-All d spam m b)
        (deliver_locals-All d spam m boxes)

  one_remote-All :
      (d r m : Text) (ok : Bool)
      → Ok r
      → All P
          (if ok
            then record nothing { delivered = true; effects = (forward e s d r m).1 }
            else record nothing { failed = true }).effects
  one_remote-All d r m true k = forward-All d r m k
  one_remote-All d r m false k = tt

  deliver_remotes-All :
      (d m : Text) (rs : List Text) → All Ok rs → All P (deliver_remotes e s d m rs).effects
  unfolding deliver_remotes both
  deliver_remotes-All d m [] k = tt
  deliver_remotes-All d m (r ∷ rs) k =
      All-append P _ _ (one_remote-All d r m (forward e s d r m).0 k.0)
        (deliver_remotes-All d m rs k.1)

  abbrev pub MaySend : Rcpt → Type 0
  MaySend r = (r.remote ≡ true → (m : Text) → P (enqueued s.sender r.addr m)) × All Ok r.plan.remote

  abbrev pub MayQueue : List Rcpt → Type 0
  MayQueue = All MaySend

  deliver_rcpt-All :
      (spam : Bool) (m : Text) (r : Rcpt) → MaySend r → All P (deliver_rcpt e s spam m r).1
  unfolding deliver_rcpt deliver_plan both
  deliver_rcpt-All spam m r q = elim (Bool-cases r.remote) [
    | inl remote ↦ elim (Bool-cases (e.enqueue_ok r.addr)) [
      | inl ok ↦ rw (remote, ok) (q.0 remote m, tt)
      | inr error ↦ rw (remote, error) tt
    ]
    | inr local ↦ rw local (
        All-append P (deliver_locals e s r.domain spam m r.plan.local).effects _
          (deliver_locals-All r.domain spam m r.plan.local)
          (deliver_remotes-All r.domain m r.plan.remote q.1))
  ]

  deliver_all-All :
      (spam : Bool) (m : Text) (rs : List Rcpt)
      → MayQueue rs
      → All P (all_effects (deliver_all e s spam m rs))
  unfolding deliver_all all_effects
  deliver_all-All spam m [] h = tt
  deliver_all-All spam m (r ∷ rs) h =
      All-append P (deliver_rcpt e s spam m r).1 _ (deliver_rcpt-All spam m r h.0)
        (deliver_all-All spam m rs h.1)

  deliver_message-All :
      (spam : Bool) (m : Text) → MayQueue s.rcpts → All P (deliver_message e s spam m).effects
  unfolding deliver_message
  deliver_message-All spam m h = deliver_all-All spam m s.rcpts h

  screened-All :
      (body : Text) (a : ScreenAction) (r hs : Text)
      → MayQueue s.rcpts
      → All P (screened e s body a r hs).effects
  unfolding screened
  screened-All body screen_reject r hs h = tt
  screened-All body screen_quarantine r hs h = deliver_message-All true _ h
  screened-All body screen_accept r hs h = deliver_message-All false _ h

  accept_body-All : (body : Text) → MayQueue s.rcpts → All P (accept_body e s body).effects
  unfolding accept_body
  accept_body-All body h = elim (Bool-cases (is_submission e.set.mode)) [
    | inl sub ↦ rw sub (deliver_message-All false _ h)
    | inr inb ↦ rw inb (screened-All body _ _ _ h)
  ]

  take_message-All : (m : Option Text) → MayQueue s.rcpts → All P (take_message e s m).effects
  unfolding take_message hang_up
  take_message-All none h = tt
  take_message-All (some m) h = ground (arith, accept_body-All (ensure_crlf m) h)

  check_rules-All : MayQueue s.rcpts → All P (check_rules e s).effects
  unfolding check_rules answer read_message hang_up
  check_rules-All h = ground (arith, take_message-All e.message h)

  check_reputation-All :
      (o : Option Text) → MayQueue s.rcpts → All P (check_reputation e s o).effects
  unfolding check_reputation answer
  check_reputation-All none h = check_rules-All h
  check_reputation-All (some reason) h = tt

  pub cmd_data-All : MayQueue s.rcpts → All P (cmd_data e s).effects
  unfolding cmd_data answer
  cmd_data-All h = ground (arith, check_rules-All h, check_reputation-All (e.refusal s.authed) h)
