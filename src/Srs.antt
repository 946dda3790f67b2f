-- ===== src/Srs.antt =====
-- internal/srs/srs.go: the Sender Rewriting Scheme. The text of the Base64 of the HMAC-SHA1 of a
-- message under a secret is a parameter, `mac`; times are seconds since the Unix epoch.
pub mod RoundTrip
pub mod Folding
pub mod Signed
mod Examples
use verta.Common.{
  ℕ, ◌/◌, ◌%◌, ◌+◌, ◌-◌, ◌*◌, Text, codes, Bool, true, false, ◌&&◌, ◌||◌, not, ◌==◌, if◌then◌else◌,
  List, [], ◌∷◌, ◌++◌, Option, none, some, leb, take, length, text_eq, to_lower, to_upper,
  has_prefix, split_last, split_n, get_elem?, upper_byte,
}

abbrev pub ts_alphabet : Text
ts_alphabet = codes "ABCDEFGHIJKLMNOPQRSTUVWXYZ234567"

abbrev pub ts_mod : ℕ
ts_mod = 1024

abbrev pub max_age_days : ℕ
max_age_days = 21

unfoldable pub is_srs : Text → Bool
unfolding has_prefix to_upper
is_srs local = has_prefix (codes "SRS0=") (to_upper local)

-- Local part and domain in lower case; neither may be empty.
unfoldable pub split : Text → Option (Text × Text)
unfolding split_last to_lower
split addr = elim (split_last b'@' addr) [
  | none ↦ none
  | some ([], domain) ↦ none
  | some (local, []) ↦ none
  | some (local, domain) ↦ some (local, to_lower domain)
]

-- A letter of the timestamp; the index is below 32.
unfoldable pub stamp_letter : ℕ → ℕ
stamp_letter i = elim (get_elem? ts_alphabet i) [ none ↦ 0 | some letter ↦ letter ]

-- Today as two letters: days since the epoch, modulo 1024.
unfoldable pub timestamp : ℕ → Text
timestamp now =
    let days = now / 86400 % ts_mod in stamp_letter (days / 32 % 32) ∷ stamp_letter (days % 32) ∷ []

-- strings.IndexByte
unfoldable pub index_byte : Text → ℕ → Option ℕ
index_byte [] b = none
index_byte (c ∷ s) b =
    let later = index_byte s b in
    if c == b then some 0 else elim later [ none ↦ none | some i ↦ some (i + 1) ]

-- Whether a day that was read is at most three weeks old, or the next day: the two digits of the day,
-- in base 32, and the time.
unfoldable pub fresh_day : Option ℕ → Option ℕ → ℕ → Bool
fresh_day (some hi) (some lo) now =
    let age = (now / 86400 % ts_mod + ts_mod - (hi * 32 + lo)) % ts_mod in
    leb age max_age_days || leb (ts_mod - 1) age
fresh_day _ _ now = false

unfoldable pub timestamp_valid : Text → ℕ → Bool
timestamp_valid (first ∷ second ∷ []) now =
    fresh_day (index_byte ts_alphabet (upper_byte first))
      (index_byte ts_alphabet (upper_byte second)) now
timestamp_valid _ now = false

-- The text that the hash, the timestamp and the original address are written into.
unfoldable pub srs_local : Text → Text → Text → Text → Text
srs_local hash stamp domain local =
    codes "SRS0" ++ b'=' ∷ (hash ++ b'=' ∷ (stamp ++ b'=' ∷ (domain ++ b'=' ∷ local)))

module _ (mac : Text → Text → Text) where
  unfoldable pub sign : Text → Text → Text → Text → Text
  sign secret stamp domain local = take 4 (mac secret (to_lower (stamp ++ domain ++ local)))

  unfoldable pub forward : Text → ℕ → Text → Text → Text
  forward secret now forward_domain sender = elim (split sender) [
    | none ↦ sender
    | some (local, domain) ↦
        srs_local (sign secret (timestamp now) domain local) (timestamp now) domain local
        ++ b'@' ∷ forward_domain
  ]

  -- The original sender, from the five parts of the local part.
  unfoldable pub reverse_parts : Text → ℕ → List Text → Option Text
  unfolding sign timestamp_valid text_eq
  reverse_parts secret now (scheme ∷ hash ∷ stamp ∷ domain ∷ local ∷ []) =
      if text_eq (sign secret stamp domain local) hash && timestamp_valid stamp now
      then some (local ++ b'@' ∷ domain)
      else none
  reverse_parts secret now _ = none

  unfoldable pub reverse : Text → ℕ → Text → Option Text
  reverse secret now srs_address = elim (split srs_address) [
    | none ↦ none
    | some (local, domain) ↦
        if is_srs local then reverse_parts secret now (split_n 5 b'=' local) else none
  ]
