-- ===== src/Smtp/Data.antt =====
-- DATA of internal/smtp/session.go: the trace header, and the delivery to each recipient.
use verta.Common.{
  Text, codes, Bool, true, false, ◌||◌, not, if◌then◌else◌, List, [], ◌∷◌, ◌++◌, Option, none, some,
  leb, ltb, length, text_eq, map,
}
use verta.Smtp.Parsing.{split_addr, ensure_crlf}
use verta.Smtp.Session.{
  Filtered, Rcpt, Session, ScreenAction, screen_accept, screen_quarantine, screen_reject, Env,
  Reply, line, line_with, too_large, Effect, enqueued, stored, forwarded, Outcome, answer, hang_up,
  reset_transaction, is_submission,
}

-- The protocol that the trace header names.
unfoldable pub protocol_name : Session → Text
protocol_name s =
    if not (text_eq s.authed [])
    then codes "ESMTPSA"
    else if s.tls
    then codes "ESMTPS"
    else codes "ESMTP"

-- The recipient is named only if there is just one.
unfoldable pub for_clause : List Rcpt → Text
for_clause (r ∷ []) = 13 ∷ 10 ∷ 9 ∷ (codes "for <" ++ r.addr ++ codes ">")
for_clause [] = []
for_clause (r ∷ q ∷ rs) = []

unfoldable pub assemble : Env → Session → Text → Text → Text
unfolding for_clause protocol_name
assemble e s body extra =
    extra
    ++ codes "Received: from "
    ++ s.helo
    ++ codes " ("
    ++ e.mask_ip s.ip
    ++ codes ")"
    ++ (13 ∷ 10 ∷ 9 ∷ codes "by ")
    ++ e.set.hostname
    ++ codes " (Verta) with "
    ++ protocol_name s
    ++ for_clause s.rcpts
    ++ codes ";"
    ++ (13 ∷ 10 ∷ 9 ∷ e.date)
    ++ (13 ∷ 10 ∷ body)

-- What the deliveries of one plan came to: something accepted, something over quota, some error.
pub record Tally : Type 0 where
  pub delivered : Bool
  pub over_quota : Bool
  pub failed : Bool
  pub effects : List Effect

unfoldable pub both : Tally → Tally → Tally
both a b = record {
  delivered = a.delivered || b.delivered;
  over_quota = a.over_quota || b.over_quota;
  failed = a.failed || b.failed;
  effects = a.effects ++ b.effects;
}

abbrev pub nothing : Tally
nothing = record { delivered = false; over_quota = false; failed = false; effects = [] }

-- `forward`: with no hook it does nothing, and succeeds.
unfoldable pub forward : Env → Session → Text → Text → Text → Bool × List Effect
forward e s domain rcpt msg =
    if not e.has_forward
    then (true, [])
    else if e.forward_ok domain rcpt
    then (true, forwarded s.sender rcpt msg ∷ [])
    else (false, [])

-- The forwards that a filter asks for: their errors are dropped.
unfoldable pub forward_all : Env → Session → Text → List Text → Text → List Effect
forward_all e s domain [] msg = []
forward_all e s domain (f ∷ fs) msg = (forward e s domain f msg).1 ++ forward_all e s domain fs msg

-- A quarantine wins over a folder rule.
unfoldable pub final_folder : Bool → Filtered → Text
final_folder spam out = if spam || out.junk then codes "Spam" else out.folder

-- One mailbox of a plan.
unfoldable pub deliver_local : Env → Session → Text → Bool → Text → Text → Tally
deliver_local e s domain spam msg mailbox =
    let out = e.filter mailbox msg in
    if out.discard
    then record nothing { delivered = true }
    else if not (e.quota_ok mailbox (length msg))
    then record nothing { over_quota = true }
    else if not (e.store_ok mailbox)
    then record nothing { failed = true }
    else record nothing {
      delivered = true;
      effects =
          stored s.sender mailbox (final_folder spam out) out.seen out.flagged msg
          ∷ forward_all e s domain out.forward_to msg;
    }

unfoldable pub deliver_locals : Env → Session → Text → Bool → Text → List Text → Tally
deliver_locals e s domain spam msg [] = nothing
deliver_locals e s domain spam msg (m ∷ ms) =
    both (deliver_local e s domain spam msg m) (deliver_locals e s domain spam msg ms)

unfoldable pub deliver_remotes : Env → Session → Text → Text → List Text → Tally
deliver_remotes e s domain msg [] = nothing
deliver_remotes e s domain msg (r ∷ rs) =
    let sent = forward e s domain r msg in
    both
      (if sent.0
        then record nothing { delivered = true; effects = sent.1 }
        else record nothing { failed = true })
      (deliver_remotes e s domain msg rs)

-- The error of a recipient's delivery.
pub data Delivery : Type 0 where
  accepted over_quota failed : Delivery

-- An error counts only if nothing was delivered; one that is not the quota's counts first.
unfoldable pub verdict : Tally → Delivery
verdict t =
    if t.delivered
    then accepted
    else if t.failed
    then failed
    else if t.over_quota
    then over_quota
    else accepted

unfoldable pub deliver_plan : Env → Session → Rcpt → Bool → Text → Tally
deliver_plan e s r spam msg =
    both (deliver_locals e s r.domain spam msg r.plan.local)
      (deliver_remotes e s r.domain msg r.plan.remote)

-- One recipient of a message.
unfoldable pub deliver_rcpt : Env → Session → Bool → Text → Rcpt → Delivery × List Effect
deliver_rcpt e s spam msg r =
    if r.remote
    then (if e.enqueue_ok r.addr
        then (accepted, enqueued s.sender r.addr msg ∷ [])
        else (failed, []))
    else (verdict (deliver_plan e s r spam msg), (deliver_plan e s r spam msg).effects)

unfoldable pub deliver_all : Env → Session → Bool → Text → List Rcpt → List (Delivery × List Effect)
deliver_all e s spam msg [] = []
deliver_all e s spam msg (r ∷ rs) = deliver_rcpt e s spam msg r ∷ deliver_all e s spam msg rs

unfoldable pub is_accepted : Delivery → Bool
is_accepted accepted = true
is_accepted over_quota = false
is_accepted failed = false

unfoldable pub is_over_quota : Delivery → Bool
is_over_quota over_quota = true
is_over_quota accepted = false
is_over_quota failed = false

unfoldable pub some_result : (Delivery → Bool) → List (Delivery × List Effect) → Bool
some_result p [] = false
some_result p (r ∷ rs) = p r.0 || some_result p rs

unfoldable pub all_effects : List (Delivery × List Effect) → List Effect
all_effects [] = []
all_effects (r ∷ rs) = r.1 ++ all_effects rs

-- The reply to a message whose deliveries are done.
unfoldable pub closing_reply : List (Delivery × List Effect) → Reply
closing_reply results =
    if some_result is_accepted results
    then line "250 2.0.0 OK message accepted for delivery"
    else if some_result is_over_quota results
    then line "452 4.2.2 over quota, try again later"
    else line "451 4.3.0 delivery failed, try again later"

unfoldable pub deliver_message : Env → Session → Bool → Text → Outcome
deliver_message e s spam msg =
    let results = deliver_all e s spam msg s.rcpts in
    record {
      session = reset_transaction s;
      replies = line "354 end data with <CRLF>.<CRLF>" ∷ closing_reply results ∷ [];
      quit = false;
      effects = all_effects results;
    }

-- On submission the message is signed, where the sender's domain has a key.
unfoldable pub sign_message : Env → Session → Text → Text
sign_message e s msg =
    if is_submission e.set.mode
    then (elim (split_addr s.sender) [
      | none ↦ msg
      | some (local, domain) ↦ elim (e.sign domain msg) [ none ↦ msg | some signed ↦ signed ]
    ])
    else msg

-- What follows the verdict of the screening, its reason and its headers.
unfoldable pub screened : Env → Session → Text → ScreenAction → Text → Text → Outcome
screened e s body screen_reject reason headers = record {
  session = reset_transaction s;
  replies = line "354 end data with <CRLF>.<CRLF>" ∷ line_with "550 5.7.1" reason ∷ [];
  quit = false;
  effects = [];
}
screened e s body screen_quarantine reason headers =
    deliver_message e s true (sign_message e s (assemble e s body headers))
screened e s body screen_accept reason headers =
    deliver_message e s false (sign_message e s (assemble e s body headers))

unfoldable pub accept_body : Env → Session → Text → Outcome
accept_body e s body =
    if is_submission e.set.mode
    then deliver_message e s false (sign_message e s (assemble e s body []))
    else let r = e.screen s.ip s.helo s.sender body in screened e s body r.action r.reason r.headers

-- The client's message, if it arrived.
unfoldable pub take_message : Env → Session → Option Text → Outcome
take_message e s none = hang_up s
take_message e s (some m) =
    if ltb e.set.max_size (length m)
    then (if not e.rest_read then hang_up s else record {
      session = reset_transaction s;
      replies = line "354 end data with <CRLF>.<CRLF>" ∷ too_large e.set.max_size ∷ [];
      quit = false;
      effects = [];
    })
    else accept_body e s (ensure_crlf m)

unfoldable pub read_message : Env → Session → Outcome
read_message e s = if not e.reply_sent then hang_up s else take_message e s e.message

-- The custom rules come after the limits of the listener.
unfoldable pub check_rules : Env → Session → Outcome
check_rules e s =
    if not (e.rule_msg_allowed (map (λ r. r.addr) s.rcpts))
    then answer s (line "452 4.4.5 message rate limit exceeded, try again later")
    else read_message e s

unfoldable pub check_reputation : Env → Session → Option Text → Outcome
check_reputation e s (some reason) = answer s (line_with "450 4.7.1" reason)
check_reputation e s none = check_rules e s

unfoldable pub cmd_data : Env → Session → Outcome
cmd_data e s =
    if leb (length s.rcpts) 0
    then answer s (line "503 5.5.1 need RCPT before DATA")
    else if not (is_submission e.set.mode)
    then (if not (e.in_msg_allowed s.ip)
        then record (answer s (line "421 4.7.0 too many messages, closing connection")) {
          quit = true;
        }
        else check_rules e s)
    else if not (e.out_msg_allowed s.authed)
    then answer s (line "452 4.2.1 sending quota exceeded, try again later")
    else check_reputation e s (e.refusal s.authed)
