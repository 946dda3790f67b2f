-- ===== src/Srs/RoundTrip.antt =====
-- What internal/srs/srs.go makes of an address that it rewrote itself.
use verta.Common.{
  text_eq, ℕ, ◌/◌, ◌%◌, ◌+◌, ◌-◌, ◌*◌, ◌<◌, ◌≡◌, ◌≢◌, refl, ap, ◌∙◌, Text, codes, Bool, true, false,
  ◌&&◌, ◌||◌, not, ◌==◌, if◌then◌else◌, [], ◌∷◌, ◌++◌, none, some, leb, take, to_lower, has_byte,
  upper_byte, split_last-append, split_n-append, arith, text_eq_refl, zero, suc, split_n,
}
use verta.Srs.{
  fresh_day, split, stamp_letter, timestamp, index_byte, timestamp_valid, srs_local, sign, forward,
  reverse_parts, reverse, is_srs, ts_alphabet,
}

-- A test that holds below a bound.
abbrev pub holds_below : (ℕ → Bool) → ℕ → Bool
holds_below p zero = true
holds_below p (suc n) = p n && holds_below p n

pub below-holds : (p : ℕ → Bool) (n i : ℕ) → holds_below p n ≡ true → i < n → p i ≡ true
below-holds p zero i h lt = ground (arith, lt)
below-holds p (suc n) i h lt = ground (arith, below-holds p n i)

abbrev pub letter_reads : ℕ → Bool
letter_reads i = elim (index_byte ts_alphabet (upper_byte (stamp_letter i))) [
  | none ↦ false
  | some j ↦ j == i && not (stamp_letter i == b'=')
]

letters_read : holds_below letter_reads 32 ≡ true
unfolding index_byte upper_byte stamp_letter
letters_read = refl

-- What a letter of a timestamp reads as, and that it is no separator.
pub letter_read :
    (i : ℕ)
    → i < 32
    → (index_byte ts_alphabet (upper_byte (stamp_letter i)) ≡ some i)
      × ((stamp_letter i == b'=') ≡ false)
letter_read i lt =
    let test : letter_reads i ≡ true = below-holds letter_reads 32 i letters_read lt in
    ground (arith, test)

pub timestamp-has_byte : (now : ℕ) → has_byte b'=' (timestamp now) ≡ false
unfolding timestamp
timestamp-has_byte now = ground (
  arith,
  letter_read (now / 86400 % 1024 / 32 % 32) (omega arith),
  letter_read (now / 86400 % 1024 % 32) (omega arith),
)

-- A timestamp is accepted for three weeks, and on the day before it, again after every 1024 days.
pub timestamp_valid-timestamp :
    (now later age : ℕ)
    → later / 86400 ≡ now / 86400 + age
    → timestamp_valid (timestamp now) later ≡ (leb (age % 1024) 21 || leb 1023 (age % 1024))
unfolding timestamp timestamp_valid fresh_day
timestamp_valid-timestamp now later age h =
    let days = now / 86400 % 1024 in
    let high = letter_read (days / 32 % 32) (omega arith) in
    let low = letter_read (days % 32) (omega arith) in
    let back : (later / 86400 % 1024 + 1024 - (days / 32 % 32 * 32 + days % 32)) % 1024
        ≡ age % 1024 =
      omega arith in
    rw (high.0, low.0, back) refl

-- A local part of five parts, of which the scheme is the first.
abbrev pub five_parts : Text → Text → Text → Text → Text → Text
five_parts scheme hash stamp domain local =
    scheme ++ b'=' ∷ (hash ++ b'=' ∷ (stamp ++ b'=' ∷ (domain ++ b'=' ∷ local)))

-- The parts that such a local part is taken apart into are those that it was made of.
pub split_n-five_parts :
    (scheme hash stamp domain local : Text)
    → has_byte b'=' scheme ≡ false
    → has_byte b'=' hash ≡ false
    → has_byte b'=' stamp ≡ false
    → has_byte b'=' domain ≡ false
    → split_n 5 b'=' (five_parts scheme hash stamp domain local)
      ≡ scheme ∷ hash ∷ stamp ∷ domain ∷ local ∷ []
unfolding split_n
split_n-five_parts scheme hash stamp domain local s h k d =
    split_n-append 3 b'=' scheme (hash ++ b'=' ∷ (stamp ++ b'=' ∷ (domain ++ b'=' ∷ local))) s
    ∙ ap (λ l. scheme ∷ l)
        (split_n-append 2 b'=' hash (stamp ++ b'=' ∷ (domain ++ b'=' ∷ local)) h
          ∙ ap (λ l. hash ∷ l)
              (split_n-append 1 b'=' stamp (domain ++ b'=' ∷ local) k
                ∙ ap (λ l. stamp ∷ l) (split_n-append 0 b'=' domain local d)))

-- An address put together from a local part and a domain, neither empty, is taken apart again.
pub split-append :
    (c : ℕ) (local domain : Text)
    → has_byte b'@' domain ≡ false
    → domain ≢ []
    → split (c ∷ local ++ b'@' ∷ domain) ≡ some (c ∷ local, to_lower domain)
unfolding split
split-append c local [] h ne = absurd (ne refl)
split-append c local (x ∷ domain) h ne =
    rw (split, split_last-append b'@' (c ∷ local) (x ∷ domain) h) refl

module _ (mac : Text → Text → Text) (secret : Text) where
  pub forward_form :
      (now : ℕ) (forward_domain sender local domain : Text)
      → split sender ≡ some (local, domain)
      → forward mac secret now forward_domain sender
        ≡ five_parts
            (codes "SRS0")
            (sign mac secret (timestamp now) domain local)
            (timestamp now)
            domain
            local
          ++ b'@' ∷ forward_domain
  unfolding forward srs_local
  forward_form now forward_domain sender local domain s = rw (forward, s) refl

  -- The scheme is a text that begins with the byte c.
  pub reverse-five_parts :
      (now c : ℕ) (scheme hash stamp domain local mail_domain : Text)
      → is_srs (five_parts (c ∷ scheme) hash stamp domain local) ≡ true
      → has_byte b'=' (c ∷ scheme) ≡ false
      → has_byte b'=' hash ≡ false
      → has_byte b'=' stamp ≡ false
      → has_byte b'=' domain ≡ false
      → has_byte b'@' mail_domain ≡ false
      → mail_domain ≢ []
      → reverse mac secret now
          (five_parts (c ∷ scheme) hash stamp domain local ++ b'@' ∷ mail_domain)
        ≡ (if text_eq (sign mac secret stamp domain local) hash && timestamp_valid stamp now
            then some (local ++ b'@' ∷ domain)
            else none)
  unfolding reverse reverse_parts
  reverse-five_parts now c scheme hash stamp domain local mail_domain srs w h k d at ne =
      rw
        (
          reverse,
          split-append c _ mail_domain at ne,
          srs,
          split_n-five_parts (c ∷ scheme) hash stamp domain local w h k d,
        )
        refl

  pub sign-clean :
      ((message : Text) → has_byte b'=' (take 4 (mac secret message)) ≡ false)
      → (stamp domain local : Text) → has_byte b'=' (sign mac secret stamp domain local) ≡ false
  unfolding sign
  sign-clean clean stamp domain local = clean _

  -- Let the hash and the sender's domain be without "=", and the forwarding domain be non-empty
  -- and without "@". An address that a sender was rewritten to is reversed at a later time, to
  -- the sender with its domain in lower case, if the number of days since modulo 1024 is at most
  -- 21 or is 1023, and is refused at every other later time.
  pub reverse-forward :
      (now later age : ℕ) (forward_domain sender local domain : Text)
      → split sender ≡ some (local, domain)
      → has_byte b'=' domain ≡ false
      → ((message : Text) → has_byte b'=' (take 4 (mac secret message)) ≡ false)
      → has_byte b'@' forward_domain ≡ false
      → forward_domain ≢ []
      → later / 86400 ≡ now / 86400 + age
      → reverse mac secret later (forward mac secret now forward_domain sender) ≡ (
          if leb (age % 1024) 21 || leb 1023 (age % 1024)
          then some (local ++ b'@' ∷ domain)
          else none)
  unfolding is_srs
  reverse-forward now later age forward_domain sender local domain s d clean at ne days =
      let hash = sign mac secret (timestamp now) domain local in
      rw
        (
          forward_form now forward_domain sender local domain s,
          reverse-five_parts later b'S' (codes "RS0") hash (timestamp now) domain local
              forward_domain refl refl (sign-clean clean (timestamp now) domain local)
              (timestamp-has_byte now) d at ne,
          text_eq_refl hash,
          timestamp_valid-timestamp now later age days,
        )
        refl
