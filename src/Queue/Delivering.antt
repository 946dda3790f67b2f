-- ===== src/Queue/Delivering.antt =====
-- The retry delays, the walk over the MX hosts, one transaction, and the bounces.
use verta.Common.{
  ltb, zero, Bool-cases, ℕ, suc, ◌*◌, ◌≤◌, ◌≡◌, ◌≢◌, ◌↔◌, refl, sym, ap, ◌∙◌, ◌⊎◌, inl, inr, Text,
  codes, text_eq, text_eq_iff, List, [], ◌∷◌, ◌++◌, Option, none, some, All, min, length, arith,
  take, drop,
}
use verta.Queue.Hosts.{InOrder, mx_hosts-InOrder}
use verta.Queue.Store.{Envelope}
use verta.Queue.Scheduler.{Outcome, delivered, permanent, transient, minute, four_hours, backoff}
use verta.Queue.Transport.{
  SendError, protocol, other, classify, unclassified, Dialogue, first_error, tls_error, try_send,
  walk, deliver, mx_hosts, Mx, original_headers, Bounce, build_bounce, max_original_headers,
}

backoff_capped : (attempts : ℕ) → 9 ≤ attempts → backoff attempts ≡ four_hours
unfolding backoff
backoff_capped n h = elim (Bool-cases (ltb 9 n)) [
  | inl more ↦ rw more
  | inr same ↦ let nine : n ≡ 9 = ground arith in rw nine
]

capped : {a b : ℕ} → a ≡ four_hours → b ≡ four_hours → a ≡ min (2 * b) four_hours
capped h k = rw (h, k)

-- The delay after the first attempt is a minute, and that after each further one is twice the
-- delay before it, but at most four hours.
pub backoff_lem :
    (attempts : ℕ)
    → (backoff 1 ≡ minute)
      × (backoff (suc (suc attempts)) ≡ min (2 * backoff (suc attempts)) four_hours)
unfolding backoff
backoff_lem zero = (refl, refl)
backoff_lem (suc zero) = (refl, refl)
backoff_lem (suc (suc zero)) = (refl, refl)
backoff_lem (suc (suc (suc zero))) = (refl, refl)
backoff_lem (suc (suc (suc (suc zero)))) = (refl, refl)
backoff_lem (suc (suc (suc (suc (suc zero))))) = (refl, refl)
backoff_lem (suc (suc (suc (suc (suc (suc zero)))))) = (refl, refl)
backoff_lem (suc (suc (suc (suc (suc (suc (suc zero))))))) = (refl, refl)
backoff_lem (suc (suc (suc (suc (suc (suc (suc (suc n)))))))) = (
  refl,
  capped
      (backoff_capped (suc (suc (suc (suc (suc (suc (suc (suc (suc (suc n)))))))))) (omega arith))
      (backoff_capped (suc (suc (suc (suc (suc (suc (suc (suc (suc n))))))))) (omega arith)),
)

-- The hosts that were asked before the answering one gave no definitive answer.
abbrev pub IsTransient : Outcome → Type 0
IsTransient o = (text : Text) × (o ≡ transient text)

-- The first host whose answer is definitive gave this one.
abbrev pub AnsweredBy : (Text → Outcome) → List Text → Outcome → Type 0
AnsweredBy send hosts o =
    (before : List Text) × (h : Text) × (after : List Text) × (hosts ≡ before ++ h ∷ after)
    × All (λ x. IsTransient (send x)) before
    × (send h ≡ o)

next_host :
    (send : Text → Outcome) (h : Text) (hosts : List Text) (o : Outcome)
    → IsTransient (send h)
    → AnsweredBy send hosts o
    → AnsweredBy send (h ∷ hosts) o
next_host send h hosts o t (before, x, after, eq, all, d) =
    (h ∷ before, x, after, ap (λ xs. h ∷ xs) eq, (t, all), d)

walk_answered :
    (send : Text → Outcome) (last : Text) (hosts : List Text) (o : Outcome)
    → (IsTransient o → ⊥)
    → walk send last hosts ≡ o
    → AnsweredBy send hosts o
unfolding walk
walk_answered send last [] o n = λ e. absurd (n (last, sym e))
walk_answered send last (h ∷ hosts) o n =
    go (λ text. walk_answered send text hosts o n) (send h) refl
  where
    go :
        ((text : Text) → walk send text hosts ≡ o → AnsweredBy send hosts o)
        → (a : Outcome) → send h ≡ a
        → walk send last (h ∷ hosts) ≡ o
        → AnsweredBy send (h ∷ hosts) o
    go ih delivered d e = ([], h, hosts, refl, tt, d ∙ rw (d, walk) at e)
    go ih (permanent code text) d e = ([], h, hosts, refl, tt, d ∙ rw (d, walk) at e)
    go ih (transient text) d e = next_host send h hosts o (text, d) (ih text (rw (d, walk) at e))

answered_walk :
    (send : Text → Outcome) (last : Text) (before : List Text) (h : Text) (after : List Text)
    (o : Outcome)
    → (IsTransient o → ⊥)
    → All (λ x. IsTransient (send x)) before
    → send h ≡ o
    → walk send last (before ++ h ∷ after) ≡ o
unfolding walk
answered_walk send last [] h after delivered n a d = rw d
answered_walk send last [] h after (permanent code text) n a d = rw d
answered_walk send last [] h after (transient text) n a d = absurd (n (text, refl))
answered_walk send last (b ∷ before) h after o n ((text, t), a) d =
    rw t (answered_walk send text before h after o n a d)

-- There is an order of the hosts of the MX records, each less the dot that it may end in,
-- ascending in the records' preference, or the domain itself if there is no record, such that a
-- delivery ends with a given answer that is not transient exactly if some host gave it and every
-- host before it in that order gave a transient one.
pub deliver_iff :
    (send : Text → Outcome) (lookup_mx : Option (List Mx)) (domain : Text) (o : Outcome)
    → (IsTransient o → ⊥)
    → (hosts : List Text) × InOrder lookup_mx domain hosts
      × ((deliver send lookup_mx domain ≡ o) ↔ AnsweredBy send hosts o)
unfolding deliver
deliver_iff send lookup_mx domain o n = (
  mx_hosts lookup_mx domain,
  mx_hosts-InOrder lookup_mx domain,
  (
    λ e. walk_answered send (codes "no MX hosts for " ++ domain) (mx_hosts lookup_mx domain) o n e,
    λ (before, h, after, eq, a, d).
        rw eq (answered_walk send (codes "no MX hosts for " ++ domain) before h after o n a d),
  ),
)

-- No call of the transaction failed.
abbrev pub IsClean : Dialogue → Type 0
IsClean d =
    (d.dial ≡ none)
    × (d.greeting ≡ none)
    × (d.hello ≡ none)
    × (tls_error d ≡ none)
    × (d.mail ≡ none)
    × (d.rcpt ≡ none)
    × (d.data_cmd ≡ none)
    × (d.body ≡ none)
    × (d.end_of_data ≡ none)

classify_fails : (e : SendError) → classify e ≡ delivered → ⊥
unfolding classify
classify_fails (protocol code text) h = ground arith
classify_fails (other text) h = cc

unclassified_fails : (e : SendError) → unclassified e ≡ delivered → ⊥
unfolding unclassified
unclassified_fails (protocol code text) h = cc
unclassified_fails (other text) h = cc

-- A transaction counts as delivered exactly if no call failed, QUIT included.
pub try_send_iff : (d : Dialogue) → (try_send d ≡ delivered) ↔ (IsClean d × (d.quit ≡ none))
unfolding try_send first_error
try_send_iff d = grind (arith, classify_fails, unclassified_fails)

unclassified-IsTransient : (e : SendError) → IsTransient (unclassified e)
unfolding unclassified
unclassified-IsTransient (protocol code text) = (text, refl)
unclassified-IsTransient (other text) = (text, refl)

quit_fails :
    (d : Dialogue) (e : SendError) → IsClean d → d.quit ≡ some e → try_send d ≡ unclassified e
unfolding try_send first_error
quit_fails d e c q = ground arith

-- If every call of a transaction succeeds up to the end of the message and QUIT then fails, the
-- walk goes on to the next host as if the message had not been taken.
pub quit_resends :
    (d : Dialogue) (e : SendError) (send : Text → Outcome) (h : Text) (hosts : List Text)
    (last : Text)
    → IsClean d
    → d.quit ≡ some e
    → send h ≡ try_send d
    → (text : Text) × (walk send last (h ∷ hosts) ≡ walk send text hosts)
unfolding walk
quit_resends d e send h hosts last c q s =
    let (text, t) = unclassified-IsTransient e in (text, rw (s ∙ (quit_fails d e c q ∙ t), walk))

take_split : (n : ℕ) (t : Text) → (length (take n t) ≤ n) × (t ≡ take n t ++ drop n t)
take_split zero t = (omega arith, refl)
take_split (suc n) [] = (omega arith, refl)
take_split (suc n) (c ∷ t) =
    let (short, parts) = take_split n t in (omega (arith, short), ap (λ x. c ∷ x) parts)

-- A message with the null sender is never bounced; any other bounce goes to the sender of the
-- message, names its recipient, and carries at most 8192 bytes of it.
pub build_bounce_lem :
    (e : Envelope)
    → ((build_bounce e ≡ none) × (e.sender ≡ []))
      ⊎ ((b : Bounce) × (build_bounce e ≡ some b)
          × (e.sender ≢ [])
          × (b.to ≡ e.sender)
          × (b.final_recipient ≡ e.rcpt)
          × (length b.headers ≤ max_original_headers))
unfolding build_bounce original_headers
build_bounce_lem e = elim (Bool-cases (text_eq e.sender [])) [
  | inl null ↦ inl (rw null, (text_eq_iff e.sender []).0 null)
  | inr from ↦ inr (
    record { to = e.sender; final_recipient = e.rcpt; headers = original_headers e.content },
    rw from,
    λ n. ground (arith, text_eq_iff e.sender []),
    refl,
    refl,
    (take_split max_original_headers _).0,
  )
]
