-- ===== src/Srs/Examples.antt =====
-- A bounce to a rewritten address, and the theorems of the component at concrete addresses.
use verta.Common.{
  cut, split_n, text_eq, trim_space, ℕ, ◌*◌, ◌≡◌, refl, Text, codes, true, some, none,
}
use verta.Smtp.Session.{inbound}
use verta.Smtp.Examples.{env}
use verta.Smtp.Commands.{rcpt_address}
use verta.Srs.{
  split, forward, reverse, sign, timestamp, fresh_day, stamp_letter, index_byte, srs_local, is_srs,
  reverse_parts,
}
use verta.Srs.RoundTrip.{reverse-forward}
use verta.Srs.Folding.{reverse-rcpt_address}
use verta.Srs.Signed.{Signed, reverse-Signed}

abbrev key : Text
key = codes "key"

-- The hash has letters in upper case.
abbrev mac : Text → Text → Text
mac secret message = codes "qWeR"

abbrev sender : Text
sender = codes "news@Brand.com"

-- The day 20000 and a day within three weeks of it.
abbrev sent : ℕ
sent = 86400 * 20000

abbrev bounced : ℕ
bounced = 86400 * 20020

forward_run : forward mac key sent (codes "here") sender ≡ codes "SRS0=qWeR=RA=brand.com=news@here"
unfolding forward split sign srs_local timestamp stamp_letter
forward_run = refl

reverse-forward_example :
    reverse mac key bounced (forward mac key sent (codes "here") sender)
    ≡ some (codes "news@brand.com")
reverse-forward_example =
    reverse-forward mac key sent bounced 20 (codes "here") sender (codes "news") (codes "brand.com")
      (unfold split in refl) refl (λ message. refl) refl (λ e. cc) refl

reverse-rcpt_address_example :
    reverse mac key bounced
      (rcpt_address (env inbound) (forward mac key sent (codes "here") sender))
    ≡ none
unfolding split trim_space srs_local sign timestamp text_eq
reverse-rcpt_address_example =
    reverse-rcpt_address mac key (env inbound) sent bounced 20 (codes "here") sender (codes "news")
      (codes "brand.com") (unfold split in refl) refl (λ message. refl) refl (λ e. cc) refl
      (unfold forward in refl)

reverse-Signed_example :
    (local : Text) × (domain : Text) × (split (codes "SRS0=qWeR=RA=brand.com=news@here")
      ≡ some (local, domain))
    × (is_srs local ≡ true)
    × Signed mac key bounced local (codes "news@brand.com")
unfolding split is_srs reverse_parts split_n cut fresh_day index_byte
reverse-Signed_example =
    reverse-Signed mac key bounced (codes "SRS0=qWeR=RA=brand.com=news@here")
      (codes "news@brand.com") (unfold reverse in refl)
