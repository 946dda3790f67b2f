-- ===== src/Ratelimit/Bundles.antt =====
-- Inbound and Outbound of internal/ratelimit/ratelimit.go; none of them allows everything.
use verta.Common.{ℕ, Text, Bool, true, Option, none, some}
use verta.Ratelimit.{Limiter, new_limiter, allow, minute, hour}

pub record Inbound : Type 0 where
  pub conns : Limiter
  pub msgs : Limiter
  pub rcpts : Limiter

unfoldable pub new_inbound : ℕ → ℕ → ℕ → Inbound
unfolding new_limiter
new_inbound conns_per_min msgs_per_min rcpts_per_min = record {
  conns = new_limiter conns_per_min minute;
  msgs = new_limiter msgs_per_min minute;
  rcpts = new_limiter rcpts_per_min minute;
}

unfoldable pub conn_allowed : Option Inbound → Text → ℕ → Option Inbound × Bool
unfolding allow
conn_allowed none ip now = (none, true)
conn_allowed (some i) ip now =
    (some (record i { conns = (allow i.conns ip now).0 }), (allow i.conns ip now).1)

unfoldable pub in_msg_allowed : Option Inbound → Text → ℕ → Option Inbound × Bool
unfolding allow
in_msg_allowed none ip now = (none, true)
in_msg_allowed (some i) ip now =
    (some (record i { msgs = (allow i.msgs ip now).0 }), (allow i.msgs ip now).1)

unfoldable pub in_rcpt_allowed : Option Inbound → Text → ℕ → Option Inbound × Bool
unfolding allow
in_rcpt_allowed none ip now = (none, true)
in_rcpt_allowed (some i) ip now =
    (some (record i { rcpts = (allow i.rcpts ip now).0 }), (allow i.rcpts ip now).1)

pub record Outbound : Type 0 where
  pub msgs : Limiter
  pub rcpts : Limiter

unfoldable pub new_outbound : ℕ → ℕ → Outbound
unfolding new_limiter
new_outbound msgs_per_hour rcpts_per_hour = record {
  msgs = new_limiter msgs_per_hour hour;
  rcpts = new_limiter rcpts_per_hour hour;
}

unfoldable pub out_msg_allowed : Option Outbound → Text → ℕ → Option Outbound × Bool
unfolding allow
out_msg_allowed none user now = (none, true)
out_msg_allowed (some o) user now =
    (some (record o { msgs = (allow o.msgs user now).0 }), (allow o.msgs user now).1)

unfoldable pub out_rcpt_allowed : Option Outbound → Text → ℕ → Option Outbound × Bool
unfolding allow
out_rcpt_allowed none user now = (none, true)
out_rcpt_allowed (some o) user now =
    (some (record o { rcpts = (allow o.rcpts user now).0 }), (allow o.rcpts user now).1)
