-- ===== src/Srs/Signed.antt =====
-- What Reverse of internal/srs/srs.go accepts.
use verta.Common.{
  ℕ, ◌≡◌, refl, Text, true, List, [], ◌∷◌, ◌++◌, some, text_eq, arith, split_n, Bool-cases,
  Option-cases, text_eq_iff, inl, inr,
}
use verta.Srs.{split, timestamp_valid, sign, reverse_parts, reverse, is_srs}

-- A local part that was signed under a secret and is still valid, and the sender that it stands for.
pub record Signed (mac : Text → Text → Text) (secret : Text) (now : ℕ) (local sender : Text)
    : Type 0 where
  pub scheme : Text
  pub stamp : Text
  pub domain : Text
  pub original : Text
  pub parts :
      split_n 5 b'=' local
      ≡ scheme ∷ sign mac secret stamp domain original ∷ stamp ∷ domain ∷ original ∷ []
  pub fresh : timestamp_valid stamp now ≡ true
  pub stands_for : sender ≡ original ++ b'@' ∷ domain

module _ (mac : Text → Text → Text) (secret : Text) (now : ℕ) where
  reverse_parts-Signed :
      (local sender : Text) (parts : List Text)
      → split_n 5 b'=' local ≡ parts
      → reverse_parts mac secret now parts ≡ some sender
      → Signed mac secret now local sender
  unfolding reverse_parts
  reverse_parts-Signed local sender [] p h = cc
  reverse_parts-Signed local sender (a ∷ []) p h = cc
  reverse_parts-Signed local sender (a ∷ b ∷ []) p h = cc
  reverse_parts-Signed local sender (a ∷ b ∷ c ∷ []) p h = cc
  reverse_parts-Signed local sender (a ∷ b ∷ c ∷ d ∷ []) p h = cc
  reverse_parts-Signed local sender (a ∷ b ∷ c ∷ d ∷ f ∷ g ∷ l) p h = cc
  reverse_parts-Signed local sender (scheme ∷ hash ∷ stamp ∷ domain ∷ original ∷ []) p h =
      elim (Bool-cases (text_eq (sign mac secret stamp domain original) hash)) [
        | inr refused ↦ ground (arith, h, refused)
        | inl same ↦ elim (Bool-cases (timestamp_valid stamp now)) [
          | inr refused ↦ ground (arith, h, same, refused)
          | inl fresh ↦
              let e = (text_eq_iff (sign mac secret stamp domain original) hash).0 same in
              record {
                scheme = scheme;
                stamp = stamp;
                domain = domain;
                original = original;
                parts = rw e p;
                fresh = fresh;
                stands_for = ground (arith, h, same, fresh);
              }
        ]
      ]

  -- An address that is reversed has a local part that begins with SRS0= in some case and whose
  -- hash is the signature of its timestamp and original address under the secret; its timestamp
  -- is still valid, and the sender that comes out is that original address.
  pub reverse-Signed :
      (srs_address sender : Text)
      → reverse mac secret now srs_address ≡ some sender
      → (local : Text) × (domain : Text) × (split srs_address ≡ some (local, domain))
        × (is_srs local ≡ true)
        × Signed mac secret now local sender
  unfolding reverse
  reverse-Signed srs_address sender h = elim (Option-cases (split srs_address)) [
    | inl refused ↦ ground (arith, h, refused)
    | inr ((local, domain), apart) ↦ elim (Bool-cases (is_srs local)) [
      | inr refused ↦ ground (arith, h, apart, refused)
      | inl srs ↦ (
        local,
        domain,
        apart,
        srs,
        reverse_parts-Signed local sender (split_n 5 b'=' local) refl
            (rw (reverse, apart, srs) at h),
      )
    ]
  ]
