-- ===== src/Smtp/Answered.antt =====
-- A message that is not acknowledged has not been delivered to anyone.
use verta.Common.{
  ◌≡◌, ◌⊎◌, inl, inr, refl, Text, Bool, true, false, Bool-cases, List, [], ◌∷◌, Option, none, some,
  arith, if◌then◌else◌, ltb, leb, length, not, map,
}
use verta.Smtp.Parsing.{ensure_crlf}
use verta.Smtp.Session.{
  Rcpt, Session, Env, Effect, Outcome, Reply, line, answer, hang_up, is_submission, ScreenAction,
  screen_accept, screen_quarantine, screen_reject,
}
use verta.Smtp.Data.{
  Tally, nothing, both, forward, deliver_local, deliver_locals, deliver_remotes, deliver_plan,
  verdict, deliver_rcpt, deliver_all, is_accepted, some_result, all_effects, closing_reply,
  deliver_message, screened, accept_body, take_message, read_message, check_rules, check_reputation,
  cmd_data,
}

-- Something was delivered, or nothing left.
abbrev IsDone : Tally → Type 0
IsDone t = (t.delivered ≡ true) ⊎ (t.effects ≡ [])

both-IsDone : (a b : Tally) → IsDone a → IsDone b → IsDone (both a b)
unfolding both
both-IsDone a b (inl h) k = inl (ground (arith, h))
both-IsDone a b (inr h) (inl k) = inl (ground (arith, k))
both-IsDone a b (inr h) (inr k) = inr (rw (h, k) refl)

module _ (e : Env) (s : Session) (spam : Bool) (msg : Text) where
  deliver_local-IsDone : (d box : Text) → IsDone (deliver_local e s d spam msg box)
  unfolding deliver_local
  deliver_local-IsDone d box = ground arith

  deliver_locals-IsDone :
      (d : Text) (boxes : List Text) → IsDone (deliver_locals e s d spam msg boxes)
  unfolding deliver_locals
  deliver_locals-IsDone d [] = inr refl
  deliver_locals-IsDone d (b ∷ boxes) =
      both-IsDone _ _ (deliver_local-IsDone d b) (deliver_locals-IsDone d boxes)

  one_remote-IsDone :
      (sent : Bool × List Effect)
      → IsDone (
          if sent.0
          then record nothing { delivered = true; effects = sent.1 }
          else record nothing { failed = true })
  one_remote-IsDone (true, effects) = inl refl
  one_remote-IsDone (false, effects) = inr refl

  deliver_remotes-IsDone : (d : Text) (rs : List Text) → IsDone (deliver_remotes e s d msg rs)
  unfolding deliver_remotes
  deliver_remotes-IsDone d [] = inr refl
  deliver_remotes-IsDone d (r ∷ rs) =
      both-IsDone _ _ (one_remote-IsDone (forward e s d r msg)) (deliver_remotes-IsDone d rs)

  deliver_plan-IsDone : (r : Rcpt) → IsDone (deliver_plan e s r spam msg)
  unfolding deliver_plan
  deliver_plan-IsDone r =
      both-IsDone _ _ (deliver_locals-IsDone r.domain r.plan.local)
        (deliver_remotes-IsDone r.domain r.plan.remote)

  deliver_rcpt-accepted :
      (r : Rcpt)
      → (is_accepted (deliver_rcpt e s spam msg r).0 ≡ true)
        ⊎ ((deliver_rcpt e s spam msg r).1 ≡ [])
  unfolding deliver_rcpt is_accepted verdict
  deliver_rcpt-accepted r = ground (arith, deliver_plan-IsDone r)

  deliver_all-accepted :
      (rs : List Rcpt)
      → (some_result is_accepted (deliver_all e s spam msg rs) ≡ true)
        ⊎ (all_effects (deliver_all e s spam msg rs) ≡ [])
  unfolding deliver_all some_result all_effects
  deliver_all-accepted [] = inr refl
  deliver_all-accepted (r ∷ rs) = elim (deliver_rcpt-accepted r) [
    | inl taken ↦ inl (ground (arith, taken))
    | inr none_first ↦ elim (deliver_all-accepted rs) [
      | inl taken ↦ inl (ground (arith, taken))
      | inr none_later ↦ inr (rw (none_first, none_later) refl)
    ]
  ]

abbrev acknowledged : List Reply
acknowledged =
    line "354 end data with <CRLF>.<CRLF>" ∷ line "250 2.0.0 OK message accepted for delivery" ∷ []

-- Nothing left, or the message was acknowledged.
abbrev pub IsAnswered : Outcome → Type 0
IsAnswered o = (o.effects ≡ []) ⊎ (o.replies ≡ acknowledged)

message-IsAnswered :
    (e : Env) (s : Session) (spam : Bool) (m : Text) → IsAnswered (deliver_message e s spam m)
unfolding deliver_message closing_reply
message-IsAnswered e s spam m = elim (deliver_all-accepted e s spam m s.rcpts) [
  | inl taken ↦ inr (rw (deliver_message, taken) refl)
  | inr silent ↦ inl silent
]

screened-IsAnswered :
    (e : Env) (s : Session) (body : Text) (a : ScreenAction) (r h : Text)
    → IsAnswered (screened e s body a r h)
unfolding screened
screened-IsAnswered e s body screen_reject r h = inl refl
screened-IsAnswered e s body screen_quarantine r h = message-IsAnswered e s true _
screened-IsAnswered e s body screen_accept r h = message-IsAnswered e s false _

body-IsAnswered : (e : Env) (s : Session) (body : Text) → IsAnswered (accept_body e s body)
unfolding accept_body
body-IsAnswered e s body = elim (Bool-cases (is_submission e.set.mode)) [
  | inl sub ↦ rw sub (message-IsAnswered e s false _)
  | inr inb ↦ rw inb (screened-IsAnswered e s body _ _ _)
]

-- What holds of both branches holds of the test.
either_way :
    (b : Bool) (o p : Outcome) → IsAnswered o → IsAnswered p → IsAnswered (if b then o else p)
either_way true o p h k = h
either_way false o p h k = k

take-IsAnswered : (e : Env) (s : Session) (m : Option Text) → IsAnswered (take_message e s m)
unfolding take_message hang_up
take-IsAnswered e s none = inl refl
take-IsAnswered e s (some m) =
    either_way (ltb e.set.max_size (length m)) _ _
      (either_way (not e.rest_read) _ _ (inl refl) (inl refl)) (body-IsAnswered e s (ensure_crlf m))

rules-IsAnswered : (e : Env) (s : Session) → IsAnswered (check_rules e s)
unfolding check_rules answer read_message hang_up
rules-IsAnswered e s =
    either_way (not (e.rule_msg_allowed (map (λ r. r.addr) s.rcpts))) _ _ (inl refl)
      (either_way (not e.reply_sent) _ _ (inl refl) (take-IsAnswered e s e.message))

reputation-IsAnswered :
    (e : Env) (s : Session) (o : Option Text) → IsAnswered (check_reputation e s o)
unfolding check_reputation answer
reputation-IsAnswered e s none = rules-IsAnswered e s
reputation-IsAnswered e s (some reason) = inl refl

-- DATA stores, queues and forwards nothing, unless it is answered with 354 and then 250: a client
-- that is told to try again has had nothing delivered to any recipient.
pub cmd_data-IsAnswered :
    (e : Env) (s : Session)
    → ((cmd_data e s).effects ≡ [])
      ⊎ ((cmd_data e s).replies
          ≡ line "354 end data with <CRLF>.<CRLF>"
            ∷ line "250 2.0.0 OK message accepted for delivery"
            ∷ [])
unfolding cmd_data answer
cmd_data-IsAnswered e s = either_way (leb (length s.rcpts) 0) _ _ (inl refl) (
    either_way (not (is_submission e.set.mode)) _ _
      (either_way (not (e.in_msg_allowed s.ip)) _ _ (inl refl) (rules-IsAnswered e s))
      (either_way (not (e.out_msg_allowed s.authed)) _ _ (inl refl)
        (reputation-IsAnswered e s (e.refusal s.authed))))
