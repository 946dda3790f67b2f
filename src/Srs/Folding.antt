-- ===== src/Srs/Folding.antt =====
-- A bounce to a rewritten address that reaches cmdRcpt of internal/smtp/session.go, which puts every
-- address into lower case before internal/routing/routing.go hands it to internal/srs/srs.go.
use verta.Common.{
  ℕ, ◌/◌, ◌%◌, ◌+◌, ◌≡◌, ◌≢◌, refl, sym, ap, ◌∙◌, Text, codes, false, ◌&&◌, ◌||◌, if◌then◌else◌, [],
  ◌∷◌, ◌++◌, some, none, leb, take, to_lower, has_byte, text_eq, upper_byte, lower_byte, trim_space,
  has_byte-to_lower, to_lower-append, to_lower_idem, arith,
}
use verta.Srs.{split, timestamp, timestamp_valid, sign, forward, reverse, is_srs}
use verta.Srs.RoundTrip.{
  forward_form, sign-clean, reverse-five_parts, five_parts, timestamp-has_byte,
  timestamp_valid-timestamp,
}
use verta.Smtp.Session.{Env}
use verta.Smtp.Commands.{rcpt_address}

upper_byte-lower_byte : (c : ℕ) → upper_byte (lower_byte c) ≡ upper_byte c
unfolding upper_byte lower_byte
upper_byte-lower_byte c = ground arith

timestamp_valid-to_lower :
    (stamp : Text) (now : ℕ) → timestamp_valid (to_lower stamp) now ≡ timestamp_valid stamp now
unfolding timestamp_valid to_lower
timestamp_valid-to_lower [] now = refl
timestamp_valid-to_lower (a ∷ []) now = refl
timestamp_valid-to_lower (a ∷ b ∷ []) now =
    rw (upper_byte-lower_byte a, upper_byte-lower_byte b) refl
timestamp_valid-to_lower (a ∷ b ∷ c ∷ s) now = refl

to_lower-joined : (s t : Text) → to_lower (s ++ b'=' ∷ t) ≡ to_lower s ++ b'=' ∷ to_lower t
unfolding to_lower
to_lower-joined s t = to_lower-append s (b'=' ∷ t)

to_lower-five_parts :
    (scheme hash stamp domain local : Text)
    → to_lower (five_parts scheme hash stamp domain local)
      ≡ five_parts
          (to_lower scheme)
          (to_lower hash)
          (to_lower stamp)
          (to_lower domain)
          (to_lower local)
to_lower-five_parts scheme hash stamp domain local =
    rw
      (
        to_lower-joined scheme (hash ++ b'=' ∷ (stamp ++ b'=' ∷ (domain ++ b'=' ∷ local))),
        to_lower-joined hash (stamp ++ b'=' ∷ (domain ++ b'=' ∷ local)),
        to_lower-joined stamp (domain ++ b'=' ∷ local),
        to_lower-joined domain local,
      )
      refl

to_lower_fold :
    (stamp domain local : Text)
    → to_lower (to_lower stamp ++ to_lower domain ++ to_lower local)
      ≡ to_lower (stamp ++ domain ++ local)
to_lower_fold stamp domain local =
    ap to_lower (
      sym (
        to_lower-append (stamp ++ domain) local
        ∙ ap (λ l. l ++ to_lower local) (to_lower-append stamp domain)))
    ∙ to_lower_idem (stamp ++ domain ++ local)

no_separator : (s : Text) → has_byte b'=' s ≡ false → has_byte b'=' (to_lower s) ≡ false
no_separator s h = has_byte-to_lower b'=' s refl ∙ h

to_lower-non_empty : (s : Text) → s ≢ [] → to_lower s ≢ []
unfolding to_lower
to_lower-non_empty [] h = h
to_lower-non_empty (c ∷ s) h = cc

-- An address that begins with an S is no bare postmaster.
rcpt_address-rewritten :
    (env : Env) (rest : Text)
    → trim_space (b'S' ∷ rest) ≡ b'S' ∷ rest
    → rcpt_address env (b'S' ∷ rest) ≡ to_lower (b'S' ∷ rest)
unfolding rcpt_address to_lower text_eq
rcpt_address-rewritten env rest h = rw (rcpt_address, h) refl

module _ (mac : Text → Text → Text) (secret : Text) where
  sign-to_lower :
      (stamp domain local : Text)
      → sign mac secret (to_lower stamp) (to_lower domain) (to_lower local)
        ≡ sign mac secret stamp domain local
  unfolding sign
  sign-to_lower stamp domain local =
      ap (λ message. take 4 (mac secret message)) (to_lower_fold stamp domain local)

  -- What RCPT makes of a rewritten address: each of its parts in lower case.
  rcpt_address_form :
      (env : Env) (now : ℕ) (forward_domain sender local domain : Text)
      → split sender ≡ some (local, domain)
      → trim_space (forward mac secret now forward_domain sender)
        ≡ forward mac secret now forward_domain sender
      → rcpt_address env (forward mac secret now forward_domain sender)
        ≡ five_parts
            (codes "srs0")
            (to_lower (sign mac secret (timestamp now) domain local))
            (to_lower (timestamp now))
            (to_lower domain)
            (to_lower local)
          ++ b'@' ∷ to_lower forward_domain
  unfolding to_lower
  rcpt_address_form env now forward_domain sender local domain s trimmed =
      let hash = sign mac secret (timestamp now) domain local in
      let form = forward_form mac secret now forward_domain sender local domain s in
      ap (rcpt_address env) form
      ∙ rcpt_address-rewritten env
          (five_parts (codes "RS0") hash (timestamp now) domain local ++ b'@' ∷ forward_domain)
          (sym (ap trim_space form) ∙ trimmed ∙ form)
      ∙ to_lower-append (five_parts (codes "SRS0") hash (timestamp now) domain local)
          (b'@' ∷ forward_domain)
      ∙ ap (λ l. l ++ b'@' ∷ to_lower forward_domain)
          (to_lower-five_parts (codes "SRS0") hash (timestamp now) domain local)

  -- Let the hash and the sender's domain be without "=", and the forwarding domain be non-empty
  -- and without "@". If the client names a rewritten address, from which no white space is cut,
  -- at a later time, then what RCPT makes of it is reversed, to the sender in lower case, exactly
  -- if the hash has no letter in upper case and the number of days since modulo 1024 is at most
  -- 21 or is 1023; otherwise it is refused.
  pub reverse-rcpt_address :
      (env : Env) (now later age : ℕ) (forward_domain sender local domain : Text)
      → split sender ≡ some (local, domain)
      → has_byte b'=' domain ≡ false
      → ((message : Text) → has_byte b'=' (take 4 (mac secret message)) ≡ false)
      → has_byte b'@' forward_domain ≡ false
      → forward_domain ≢ []
      → later / 86400 ≡ now / 86400 + age
      → trim_space (forward mac secret now forward_domain sender)
        ≡ forward mac secret now forward_domain sender
      → reverse mac secret later (rcpt_address env (forward mac secret now forward_domain sender))
        ≡ (if text_eq
                (sign mac secret (timestamp now) domain local)
                (to_lower (sign mac secret (timestamp now) domain local))
              && (leb (age % 1024) 21 || leb 1023 (age % 1024))
            then some (to_lower local ++ b'@' ∷ to_lower domain)
            else none)
  unfolding is_srs
  reverse-rcpt_address env now later age forward_domain sender local domain s d clean at ne days
        trimmed =
      let hash = sign mac secret (timestamp now) domain local in
      let stamp = timestamp now in
      rw
        (
          rcpt_address_form env now forward_domain sender local domain s trimmed,
          reverse-five_parts mac secret later b's' (codes "rs0") (to_lower hash) (to_lower stamp)
              (to_lower domain) (to_lower local) (to_lower forward_domain) refl refl
              (no_separator hash (sign-clean mac secret clean stamp domain local))
              (no_separator stamp (timestamp-has_byte now)) (no_separator domain d)
              (has_byte-to_lower b'@' forward_domain refl ∙ at)
              (to_lower-non_empty forward_domain ne),
          sign-to_lower stamp domain local,
          timestamp_valid-to_lower stamp later,
          timestamp_valid-timestamp now later age days,
        )
        refl
