-- ===== src/Queue/Transport.antt =====
-- internal/queue/transport.go and bounce.go: the MX walk, one SMTP transaction and the start of a
-- bounce. The DNS answer and the replies of the remote server (net/smtp) are arguments.
use verta.Common.{
  ℕ, Text, Bool, if◌then◌else◌, List, [], ◌∷◌, ◌++◌, Option, none, some, ltb, leb, ◌&&◌, ◌==◌,
  text_eq, codes, cut, take, sort_by, map,
}
use verta.Queue.Store.{Envelope}
use verta.Queue.Scheduler.{Outcome, delivered, permanent, transient}

-- An error of net/smtp: a textproto.Error with its code, or another one.
pub data SendError : Type 0 where
  protocol : ℕ → Text → SendError
  other : Text → SendError

unfoldable pub classify : SendError → Outcome
classify (other text) = transient text
classify (protocol code text) =
    if leb 500 code && ltb code 600 then permanent code text else transient text

-- Quit's error is returned as it is, so it stays transient whatever its code.
unfoldable pub unclassified : SendError → Outcome
unclassified (other text) = transient text
unclassified (protocol code text) = transient text

-- The calls of one transaction, each with its error, if it fails.
pub record Dialogue : Type 0 where
  pub dial : Option SendError
  pub greeting : Option SendError
  pub hello : Option SendError
  pub offers_starttls : Bool
  pub starttls : Option SendError
  pub mail : Option SendError
  pub rcpt : Option SendError
  pub data_cmd : Option SendError
  pub body : Option SendError
  pub end_of_data : Option SendError
  pub quit : Option SendError

-- The classified errors of the calls before QUIT, in their order.
unfoldable pub first_error : List (Option SendError) → Option SendError
first_error [] = none
first_error (none ∷ calls) = first_error calls
first_error (some e ∷ calls) = some e

unfoldable pub tls_error : Dialogue → Option SendError
tls_error d = if d.offers_starttls then d.starttls else none

unfoldable pub try_send : Dialogue → Outcome
unfolding first_error classify
try_send d = elim d.dial [
  | some e ↦ unclassified e
  | none ↦
      elim (first_error (
        d.greeting
        ∷ d.hello
        ∷ tls_error d
        ∷ d.mail
        ∷ d.rcpt
        ∷ d.data_cmd
        ∷ d.body
        ∷ d.end_of_data
        ∷ [])) [
          | some e ↦ classify e
          | none ↦ elim d.quit [ none ↦ delivered | some e ↦ unclassified e ]
        ]
]

-- The EHLO name: the chosen one, or the server's.
unfoldable pub ehlo_name : Text → Text → Text
ehlo_name hostname [] = hostname
ehlo_name hostname (c ∷ helo) = c ∷ helo

unfoldable pub trim_dot : Text → Text
trim_dot [] = []
trim_dot (c ∷ []) = if c == 46 then [] else c ∷ []
trim_dot (c ∷ d ∷ h) = c ∷ trim_dot (d ∷ h)

pub record Mx : Type 0 where
  pub host : Text
  pub pref : ℕ

-- The hosts to try; no records, or a failed lookup, is the domain itself.
unfoldable pub mx_hosts : Option (List Mx) → Text → List Text
mx_hosts none domain = domain ∷ []
mx_hosts (some []) domain = domain ∷ []
mx_hosts (some (m ∷ mxs)) domain = map (λ x. trim_dot x.host) (sort_by (λ x. x.pref) [] (m ∷ mxs))

-- The loop of Deliver over the hosts, with the last error.
unfoldable pub walk : (Text → Outcome) → Text → List Text → Outcome
walk send last [] = transient last
walk send last (h ∷ hosts) = elim (send h) [
  | delivered ↦ delivered
  | permanent code text ↦ permanent code text
  | transient text ↦ walk send text hosts
]

unfoldable pub deliver : (Text → Outcome) → Option (List Mx) → Text → Outcome
deliver send lookup_mx domain =
    walk send (codes "no MX hosts for " ++ domain) (mx_hosts lookup_mx domain)

abbrev pub max_original_headers : ℕ
max_original_headers = 8192

abbrev pub blank_line : Text
blank_line = 13 ∷ 10 ∷ 13 ∷ 10 ∷ []

unfoldable pub original_headers : Text → Text
original_headers content =
    take max_original_headers
      (elim (cut blank_line content) [ none ↦ content | some (head, rest) ↦ head ])

-- The addressed part of a bounce: who gets it, whom it could not reach, and the headers it carries.
pub record Bounce : Type 0 where
  pub to : Text
  pub final_recipient : Text
  pub headers : Text

unfoldable pub build_bounce : Envelope → Option Bounce
build_bounce e =
    if text_eq e.sender []
    then none
    else some
        record { to = e.sender; final_recipient = e.rcpt; headers = original_headers e.content }
