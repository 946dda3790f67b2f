-- ===== src/Ratelimit/Governor.antt =====
-- internal/ratelimit/governor.go: the limits of the configured rules. Go ranges over a map in no fixed
-- order, so the order of the dimensions is an argument of the operations that range over them.
pub mod Keys
use verta.Common.{
  ◌==◌, ℕ, Text, codes, Dict, lookup, insert, Bool, true, false, ◌||◌, if◌then◌else◌, text_eq,
  Option, none, some, List, [], ◌∷◌, any, ltb,
}
use verta.Ratelimit.{Limiter, new_limiter, allow, hour}

pub data Dimension : Type 0 where
  by_ip by_sender_domain by_sender_mailbox by_recipient by_recipient_domain other : Dimension

-- A rule. Its window, messages and recipients are not below 0.
pub record GovRule : Type 0 where
  pub by : Text
  pub value : Text
  pub direction : Text
  pub window : ℕ
  pub messages : ℕ
  pub recipients : ℕ

pub record Values : Type 0 where
  pub ip : Text
  pub sender_mailbox : Text
  pub sender_domain : Text
  pub recipient : Text
  pub recipient_domain : Text

unfoldable pub dimension : Text → Dimension
unfolding text_eq
dimension d =
    if text_eq d (codes "ip")
    then by_ip
    else if text_eq d (codes "sender_domain")
    then by_sender_domain
    else if text_eq d (codes "sender_mailbox")
    then by_sender_mailbox
    else if text_eq d (codes "recipient")
    then by_recipient
    else if text_eq d (codes "recipient_domain")
    then by_recipient_domain
    else other

unfoldable pub get : Values → Dimension → Text
get v by_ip = v.ip
get v by_sender_domain = v.sender_domain
get v by_sender_mailbox = v.sender_mailbox
get v by_recipient = v.recipient
get v by_recipient_domain = v.recipient_domain
get v other = []

pub record Keyed : Type 0 where
  pub generic : Option Limiter
  pub over : Dict Limiter

-- A call for a value that is not empty.
unfoldable pub count : Keyed → Text → ℕ → Keyed × Bool
unfolding lookup insert allow
count k value now = elim (lookup value k.over) [
  | some l ↦ (record k { over = insert value (allow l value now).0 k.over }, (allow l value now).1)
  | none ↦ elim k.generic [
    | some l ↦ (record k { generic = some (allow l value now).0 }, (allow l value now).1)
    | none ↦ (k, true)
  ]
]

-- keyed.allow
unfoldable pub allow_keyed : Option Keyed → Text → ℕ → Option Keyed × Bool
unfolding count text_eq
allow_keyed none value now = (none, true)
allow_keyed (some k) value now =
    if text_eq value [] then (some k, true) else (some (count k value now).0, (count k value now).1)

pub record DimCounters : Type 0 where
  pub msgs : Option Keyed
  pub rcpts : Option Keyed

-- dims[direction][dimension]
abbrev pub Governor : Type 0
Governor = Dict (Dict DimCounters)

abbrev pub no_keyed : Keyed
no_keyed = record { generic = none; over = [] }

abbrev pub keyed_or_new : Option Keyed → Keyed
keyed_or_new none = no_keyed
keyed_or_new (some k) = k

abbrev pub counters_or_new : Option DimCounters → DimCounters
counters_or_new none = record { msgs = none; rcpts = none }
counters_or_new (some dc) = dc

unfoldable pub add_limit : Option Keyed → Text → ℕ → ℕ → Option Keyed
unfolding new_limiter insert text_eq
add_limit k value limit window =
    let keyed = keyed_or_new k in
    if text_eq value []
    then some (record keyed { generic = some (new_limiter limit window) })
    else some (record keyed { over = insert value (new_limiter limit window) keyed.over })

-- The counters of a dimension with a rule's limits; a limit of 0 is none.
unfoldable pub compile : GovRule → DimCounters → DimCounters
unfolding add_limit
compile r dc =
    let window = if r.window == 0 then hour else r.window in
    record {
      msgs = if ltb 0 r.messages then add_limit dc.msgs r.value r.messages window else dc.msgs;
      rcpts =
          if ltb 0 r.recipients then add_limit dc.rcpts r.value r.recipients window else dc.rcpts;
    }

-- A rule in one direction; a direction that is not known is ignored.
unfoldable pub add_rule : GovRule → Governor → Text → Governor
unfolding compile lookup insert
add_rule r g dir = elim (lookup dir g) [
  | none ↦ g
  | some by_dim ↦
      insert dir (insert r.by (compile r (counters_or_new (lookup r.by by_dim))) by_dim) g
]

unfoldable pub add_rules : List GovRule → Governor → Governor
unfolding add_rule text_eq
add_rules [] g = g
add_rules (r ∷ rules) g = add_rules rules (
    if text_eq r.direction []
    then add_rule r (add_rule r g (codes "inbound")) (codes "outbound")
    else add_rule r g r.direction)

-- NewGovernor: none where there are no rules.
unfoldable pub new_governor : List GovRule → Option Governor
unfolding add_rules
new_governor [] = none
new_governor (r ∷ rules) =
    some (add_rules (r ∷ rules) ((codes "inbound", []) ∷ (codes "outbound", []) ∷ []))

-- One token from each dimension in turn, up to the first that denies; it is named.
unfoldable pub take_rcpts :
    List Text → Values → ℕ → Dict DimCounters → Dict DimCounters × Option Text
unfolding lookup insert allow_keyed get dimension
take_rcpts [] v now m = (m, none)
take_rcpts (dim ∷ order) v now m = elim (lookup dim m) [
  | none ↦ take_rcpts order v now m
  | some dc ↦
      let answer = allow_keyed dc.rcpts (get v (dimension dim)) now in
      let taken = insert dim (record dc { rcpts = answer.0 }) m in
      elim answer.1 [ true ↦ take_rcpts order v now taken | false ↦ (taken, some dim) ]
]

-- RcptAllowed, with the dimension that denied.
unfoldable pub rcpt_allowed :
    List Text → Option Governor → Text → Values → ℕ → Option Governor × Option Text
unfolding take_rcpts insert lookup
rcpt_allowed order none dir v now = (none, none)
rcpt_allowed order (some g) dir v now = elim (lookup dir g) [
  | none ↦ (some g, none)
  | some m ↦ let answer = take_rcpts order v now m in (some (insert dir answer.0 g), answer.1)
]

-- One token for each value that was not seen yet, up to the first that is denied.
unfoldable pub take_distinct : List Text → List Text → ℕ → Option Keyed → Option Keyed × Bool
unfolding allow_keyed text_eq
take_distinct seen [] now k = (k, true)
take_distinct seen (value ∷ values) now k = elim (any (text_eq value) seen) [
  | true ↦ take_distinct seen values now k
  | false ↦
      let answer = allow_keyed k value now in
      elim answer.1 [
        | true ↦ take_distinct (value ∷ seen) values now answer.0
        | false ↦ (answer.0, false)
      ]
]

-- A dimension's share of a message: the recipients come as pairs of their address and domain.
unfoldable pub take_msg :
    Dimension → Values → List Text → List Text → ℕ → Option Keyed → Option Keyed × Bool
unfolding take_distinct allow_keyed get
take_msg by_recipient v addrs domains now k = take_distinct [] addrs now k
take_msg by_recipient_domain v addrs domains now k = take_distinct [] domains now k
take_msg other v addrs domains now k = (k, true)
take_msg dim v addrs domains now k = allow_keyed k (get v dim) now

unfoldable pub take_msgs :
    List Text
    → Values
    → List Text
    → List Text
    → ℕ
    → Dict DimCounters
    → Dict DimCounters × Option Text
unfolding take_msg lookup insert dimension
take_msgs [] v addrs domains now m = (m, none)
take_msgs (dim ∷ order) v addrs domains now m = elim (lookup dim m) [
  | none ↦ take_msgs order v addrs domains now m
  | some dc ↦
      let answer = take_msg (dimension dim) v addrs domains now dc.msgs in
      let taken = insert dim (record dc { msgs = answer.0 }) m in
      elim answer.1 [ true ↦ take_msgs order v addrs domains now taken | false ↦ (taken, some dim) ]
]

-- MsgAllowed; the addresses and domains of the recipients are what rcptOf makes of them.
unfoldable pub msg_allowed :
    List Text
    → Option Governor
    → Text
    → Values
    → List Text
    → List Text
    → ℕ
    → Option Governor × Option Text
unfolding take_msgs insert lookup
msg_allowed order none dir v addrs domains now = (none, none)
msg_allowed order (some g) dir v addrs domains now = elim (lookup dir g) [
  | none ↦ (some g, none)
  | some m ↦
      let answer = take_msgs order v addrs domains now m in (some (insert dir answer.0 g), answer.1)
]
