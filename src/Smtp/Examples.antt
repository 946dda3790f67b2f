-- ===== src/Smtp/Examples.antt =====
-- Runs of an SMTP session, and the theorems of the component at concrete sessions.
use verta.Common.{
  sym, ◌⊎◌, subst, ◌≡◌, refl, Text, codes, text_eq, true, false, not, List, [], ◌∷◌, none, some,
  All,
}
use verta.Smtp.Session.{
  Plan, Mode, inbound, submission, Rcpt, Session, Env, auth_ok, screen_accept, line, new_session,
}
use verta.Smtp.Loop.{run}
use verta.Smtp.Relay.{run_no_relay, Leaves, ForwardsTo}
use verta.Smtp.Ownership.{is_own}
use verta.Smtp.Transaction.{run_authenticated, BySession}
use verta.Smtp.Answered.{cmd_data-IsAnswered}
use verta.Smtp.Data.{cmd_data}

-- One domain is local; every check lets pass; what is stored in mailbox "full" fails.
abbrev pub env : Mode → Env
env mode = record {
  set = record {
    hostname = codes "mx";
    max_size = 100;
    max_recipients = 9;
    mode = mode;
    has_tls = true;
  };
  is_local_domain = λ d. text_eq d (codes "here");
  route = λ a. some (record { local = a ∷ []; remote = [] });
  postmaster = [];
  has_authenticate = true;
  authenticate = λ u p ip. auth_ok;
  in_rcpt_allowed = λ ip. true;
  in_msg_allowed = λ ip. true;
  out_rcpt_allowed = λ u. true;
  out_msg_allowed = λ u. true;
  rule_rcpt_allowed = λ a d. true;
  rule_msg_allowed = λ rs. true;
  refusal = λ u. none;
  screen = λ ip h f m. record { action = screen_accept; reason = []; headers = [] };
  sign = λ d m. none;
  filter = λ b m. record {
    discard = false;
    folder = [];
    junk = false;
    seen = false;
    flagged = false;
    forward_to = [];
  };
  quota_ok = λ b n. true;
  store_ok = λ b. not (text_eq b (codes "full"));
  has_forward = false;
  forward_ok = λ d r. true;
  enqueue_ok = λ r. true;
  mask_ip = λ ip. ip;
  date = [];
  runes = λ t. t;
  base64 = λ t. some t;
  reply_sent = true;
  handshake_ok = true;
  next_lines = codes "bob@here" ∷ codes "secret" ∷ [];
  message = some (codes "hi");
  rest_read = true;
}

-- Mail for a local address is forwarded to bob@away.
abbrev forwarding : Env
forwarding = record (env inbound) {
  route = λ a. some (record { local = a ∷ []; remote = codes "bob@away" ∷ [] });
  has_forward = true;
}

abbrev relay_lines : List (Env × Text)
relay_lines =
    (forwarding, codes "HELO c")
    ∷ (forwarding, codes "MAIL FROM:<a@b>")
    ∷ (forwarding, codes "RCPT TO:<x@away>")
    ∷ (forwarding, codes "RCPT TO:<al@here>")
    ∷ (forwarding, codes "DATA")
    ∷ []

abbrev IsBob : Text → Type 0
IsBob to = to ≡ codes "bob@away"

forwarding-ForwardsTo : ForwardsTo IsBob forwarding
forwarding-ForwardsTo = (
  λ addr local domain plan p here q.
      let e : plan ≡ record { local = addr ∷ []; remote = codes "bob@away" ∷ [] } = cc in
      subst (λ (x : Plan). All IsBob x.remote) (sym e) (refl, tt),
  λ box msg. tt,
)

run_no_relay_example :
    All (λ r. r.remote ≡ false) (run (new_session [] false) relay_lines).0.rcpts
    × All (Leaves IsBob) (run (new_session [] false) relay_lines).1
unfolding new_session
run_no_relay_example =
    run_no_relay IsBob (new_session [] false) relay_lines (refl, (refl, (refl, (refl, (refl, tt)))))
      (
        forwarding-ForwardsTo,
        (
          forwarding-ForwardsTo,
          (forwarding-ForwardsTo, (forwarding-ForwardsTo, (forwarding-ForwardsTo, tt))),
        ),
      )
      tt

abbrev submission_lines : List (Env × Text)
submission_lines =
    (env submission, codes "EHLO c")
    ∷ (env submission, codes "AUTH LOGIN")
    ∷ (env submission, codes "MAIL FROM:<bob@here>")
    ∷ (env submission, codes "RCPT TO:<x@away>")
    ∷ (env submission, codes "DATA")
    ∷ []

run_authenticated_example :
    All
      (BySession (run (new_session [] true) submission_lines).0)
      (run (new_session [] true) submission_lines).1
    × (is_own (run (new_session [] true) submission_lines).0 ≡ true)
run_authenticated_example =
    run_authenticated [] true submission_lines (refl, (refl, (refl, (refl, (refl, tt)))))

abbrev to_box : Text → Rcpt
to_box box = record {
  addr = box;
  remote = false;
  domain = codes "here";
  plan = record { local = box ∷ []; remote = [] };
}

abbrev two_boxes : Session
two_boxes = record {
  ip = [];
  helo = codes "c";
  tls = false;
  authed = [];
  sender = codes "a@b";
  from_set = true;
  rcpts = to_box (codes "al") ∷ to_box (codes "full") ∷ [];
}

cmd_data-IsAnswered_example :
    ((cmd_data (env inbound) two_boxes).effects ≡ [])
    ⊎ ((cmd_data (env inbound) two_boxes).replies
        ≡ line "354 end data with <CRLF>.<CRLF>"
          ∷ line "250 2.0.0 OK message accepted for delivery"
          ∷ [])
cmd_data-IsAnswered_example = cmd_data-IsAnswered (env inbound) two_boxes

-- One bare LF, and one after a CR.
abbrev two_lines : Text
two_lines = b'a' ∷ 10 ∷ b'b' ∷ 13 ∷ 10 ∷ []
