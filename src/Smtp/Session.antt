-- ===== src/Smtp/Session.antt =====
-- The session of internal/smtp/session.go, its backend and its replies. What the server asks of its
-- environment while it runs a command is a record of answers: the settings, the backend's hooks, the
-- limiters, the client's further lines and what the network does. The text of a reply that is built
-- from parts is kept as its parts.
use verta.Common.{ℕ, String, Text, Bool, true, false, List, [], ◌∷◌, Option}

pub data Mode : Type 0 where
  inbound submission : Mode

pub record Settings : Type 0 where
  pub hostname : Text
  pub max_size : ℕ
  pub max_recipients : ℕ
  pub mode : Mode
  pub has_tls : Bool

-- What a mailbox's filters decide (filter.Outcome).
pub record Filtered : Type 0 where
  pub discard : Bool
  pub folder : Text
  pub junk : Bool
  pub seen : Bool
  pub flagged : Bool
  pub forward_to : List Text

-- The delivery plan of a local address: mailboxes, and addresses to forward to.
pub record Plan : Type 0 where
  pub local : List Text
  pub remote : List Text

pub record Rcpt : Type 0 where
  pub addr : Text
  pub remote : Bool
  pub domain : Text
  pub plan : Plan

pub record Session : Type 0 where
  pub ip : Text
  pub helo : Text
  pub tls : Bool
  pub authed : Text
  pub sender : Text
  pub from_set : Bool
  pub rcpts : List Rcpt

pub data AuthAnswer : Type 0 where
  auth_ok auth_locked auth_invalid : AuthAnswer

pub data ScreenAction : Type 0 where
  screen_accept screen_quarantine screen_reject : ScreenAction

pub record ScreenResult : Type 0 where
  pub action : ScreenAction
  pub reason : Text
  pub headers : Text

-- A hook that is nil answers as the source does without it: no quota, screening or reputation check.
pub record Env : Type 0 where
  pub set : Settings
  pub is_local_domain : Text → Bool
  pub route : Text → Option Plan
  pub postmaster : Text
  pub has_authenticate : Bool
  pub authenticate : Text → Text → Text → AuthAnswer
  pub in_rcpt_allowed : Text → Bool
  pub in_msg_allowed : Text → Bool
  pub out_rcpt_allowed : Text → Bool
  pub out_msg_allowed : Text → Bool
  pub rule_rcpt_allowed : Text → Text → Bool
  pub rule_msg_allowed : List Text → Bool
  pub refusal : Text → Option Text
  pub screen : Text → Text → Text → Text → ScreenResult
  pub sign : Text → Text → Option Text
  pub filter : Text → Text → Filtered
  pub quota_ok : Text → ℕ → Bool
  pub store_ok : Text → Bool
  pub has_forward : Bool
  pub forward_ok : Text → Text → Bool
  pub enqueue_ok : Text → Bool
  pub mask_ip : Text → Text
  pub date : Text
  pub runes : Text → List ℕ
  pub base64 : Text → Option Text
  pub reply_sent : Bool
  pub handshake_ok : Bool
  pub next_lines : List Text
  pub message : Option Text
  pub rest_read : Bool

pub data Reply : Type 0 where
  line : String → Reply
  line_with : String → Text → Reply
  too_large size_limit : ℕ → Reply

-- What a command did to the outside, its envelope sender first: a message queued toward another
-- server, stored in a mailbox's folder with its flags, or forwarded.
pub data Effect : Type 0 where
  enqueued : Text → Text → Text → Effect
  stored : Text → Text → Text → Bool → Bool → Text → Effect
  forwarded : Text → Text → Text → Effect

pub record Outcome : Type 0 where
  pub session : Session
  pub replies : List Reply
  pub quit : Bool
  pub effects : List Effect

unfoldable pub answer : Session → Reply → Outcome
answer s r = record { session = s; replies = r ∷ []; quit = false; effects = [] }

unfoldable pub hang_up : Session → Outcome
hang_up s = record { session = s; replies = []; quit = true; effects = [] }

unfoldable pub new_session : Text → Bool → Session
new_session ip implicit_tls = record {
  ip = ip;
  helo = [];
  tls = implicit_tls;
  authed = [];
  sender = [];
  from_set = false;
  rcpts = [];
}

unfoldable pub reset_transaction : Session → Session
reset_transaction s = record s { sender = []; from_set = false; rcpts = [] }

unfoldable pub is_submission : Mode → Bool
is_submission inbound = false
is_submission submission = true
