-- ===== src/Storage/Emails.antt =====
-- The addresses of internal/storage/resolver.go: what Split gives, and whose mailbox is found.
use verta.Common.{
  starts_solid-reverse, ℕ, codes, Text, ◌&&◌, true, false, inl, inr, ◌≡◌, ◌≢◌, refl, sym, ap, ◌∙◌,
  List, [], ◌∷◌, ◌++◌, Option, none, some, text_eq, to_lower, trim_space, split_last, has_byte,
  starts_solid, trim_space-solid, trim_space_self, split_last_parts, split_last-append,
  to_lower-append, has_byte-to_lower, arith, Bool-cases, Option-cases, ℤ, reverse, not, lower_byte,
  is_space,
}
use mathlib.Core.Path.{subst₂}
use mathlib.Core.List.{reverse-cons}
use verta.Config.{Domain, Config}
use verta.Storage.{
  Mailbox, split, resolve, resolve_in, system_mailbox, virtual_mailbox, fill_owner,
  find_mailbox_user, has_users,
}

-- A local part and a domain that no trimming and no other "@" takes apart differently.
abbrev pub Whole : Text → Text → Type 0
Whole local domain =
    (starts_solid local ≡ true)
    × (starts_solid (reverse domain) ≡ true)
    × (has_byte b'@' domain ≡ false)

pub starts_solid-to_lower : (s : Text) → starts_solid s ≡ true → starts_solid (to_lower s) ≡ true
unfolding to_lower lower_byte is_space
starts_solid-to_lower [] h = h
starts_solid-to_lower (c ∷ s) h = ground (arith, h)

reverse-to_lower : (s : Text) → reverse (to_lower s) ≡ to_lower (reverse s)
unfolding to_lower
reverse-to_lower [] = refl
reverse-to_lower (c ∷ s) =
    reverse-cons (lower_byte c) (to_lower s)
    ∙ ap (λ l. l ++ lower_byte c ∷ []) (reverse-to_lower s)
    ∙ sym (to_lower-append (reverse s) (c ∷ []))
    ∙ ap to_lower (sym (reverse-cons c s))

pub Whole-to_lower : (local domain : Text) → Whole local domain → Whole (to_lower local) domain
Whole-to_lower local domain w = (starts_solid-to_lower local w.0, w.1, w.2)

cons-not_nil : {c : ℕ} {s : Text} → c ∷ s ≢ []
cons-not_nil = λ e. cc

-- The two parts that an address is split into.
pub split-Whole :
    (email local domain : Text) → split email ≡ some (local, domain) → Whole local domain
unfolding split
split-Whole email local domain h = elim (Option-cases (split_last b'@' (trim_space email))) [
  | inl missing ↦ ground (arith, rw (split, missing) at h)
  | inr ((u, v), e) ↦ parts u v e
]
  where
    parts : (u v : Text) → split_last b'@' (trim_space email) ≡ some (u, v) → Whole local domain
    parts [] v e = ground (arith, rw (split, e) at h)
    parts (c ∷ u) [] e = ground (arith, rw (split, e) at h)
    parts (c ∷ u) (x ∷ v) e =
        let same : (c ∷ u ≡ local) × (to_lower (x ∷ v) ≡ domain) =
          ground (arith, rw (split, e) at h) in
        let cut_here = split_last_parts b'@' (trim_space email) (c ∷ u) (x ∷ v) e in
        let solid = trim_space-solid email (λ empty. cons-not_nil (sym cut_here.0 ∙ empty)) in
        subst₂ Whole same.0 same.1 (
          ap starts_solid (sym cut_here.0) ∙ solid.0,
          ap starts_solid (reverse-to_lower (x ∷ v))
              ∙ starts_solid-to_lower (reverse (x ∷ v)) (
                  sym (starts_solid-reverse b'@' (c ∷ u) (x ∷ v) cons-not_nil)
                  ∙ ap (λ l. starts_solid (reverse l)) (sym cut_here.0)
                  ∙ solid.1),
          has_byte-to_lower b'@' (x ∷ v) refl ∙ cut_here.1,
        )

-- An address that is put together from such parts is split into them.
pub split-append :
    (local domain : Text)
    → Whole local domain
    → split (local ++ b'@' ∷ domain) ≡ some (local, to_lower domain)
unfolding split
split-append [] domain w = ground (arith, w.0)
split-append (c ∷ local) [] w = ground (arith, w.1)
split-append (c ∷ local) (x ∷ domain) w =
    rw
      (
        split,
        trim_space_self (c ∷ local ++ b'@' ∷ x ∷ domain) w.0
            (starts_solid-reverse b'@' (c ∷ local) (x ∷ domain) cons-not_nil ∙ w.1),
        split_last-append b'@' (c ∷ local) (x ∷ domain) w.2,
      )
      refl

abbrev email_or : Text → Option Mailbox → Text
email_or addr none = addr
email_or addr (some mb) = mb.email

module _ (account : Text → Option (ℤ × ℤ)) where
  fill_owner-email : (mb : Mailbox) (name : Text) → (fill_owner account mb name).email ≡ mb.email
  unfolding fill_owner
  fill_owner-email mb name = elim (Option-cases (account name)) [
    | inl unknown ↦ rw (fill_owner, unknown) refl
    | inr (owner, known) ↦ rw (fill_owner, known) refl
  ]

  virtual_mailbox-email :
      (cfg : Config) (addr : Text) (mb : Mailbox)
      → virtual_mailbox account cfg addr ≡ some mb
      → mb.email ≡ addr
  unfolding virtual_mailbox
  virtual_mailbox-email cfg addr mb h = elim (Option-cases (find_mailbox_user addr cfg.users)) [
    | inl missing ↦ ground (arith, rw (virtual_mailbox, missing) at h)
    | inr (u, found) ↦ ap (λ o. email_or addr o) (sym (rw (virtual_mailbox, found) at h))
  ]

  system_mailbox-email :
      (cfg : Config) (d : Domain) (local domain addr : Text) (mb : Mailbox)
      → system_mailbox account cfg d local domain addr ≡ some mb
      → mb.email ≡ addr
  unfolding system_mailbox
  system_mailbox-email cfg d local domain addr mb h =
      elim (Option-cases (find_mailbox_user addr cfg.users)) [
        | inr (u, found) ↦
            ap (λ o. email_or addr o) (sym (rw (system_mailbox, found) at h))
            ∙ fill_owner-email _ d.storage.user
        | inl missing ↦
            elim (Bool-cases (not (has_users domain cfg.users) && text_eq local d.storage.user)) [
              | inl bound ↦
                  ap (λ o. email_or addr o) (sym (rw (system_mailbox, missing, bound) at h))
                  ∙ fill_owner-email _ d.storage.user
              | inr unbound ↦ ground (arith, rw (system_mailbox, missing, unbound) at h)
            ]
      ]

  resolve_in-email :
      (cfg : Config) (domains : List Domain) (local domain addr : Text) (mb : Mailbox)
      → resolve_in account cfg domains local domain addr ≡ some mb
      → mb.email ≡ addr
  unfolding resolve_in
  resolve_in-email cfg [] local domain addr mb h = cc
  resolve_in-email cfg (d ∷ domains) local domain addr mb h =
      elim (Bool-cases (text_eq d.name domain)) [
        | inr other ↦
            resolve_in-email cfg domains local domain addr mb (rw (resolve_in, other) at h)
        | inl found ↦ elim (Bool-cases (text_eq d.storage.kind (codes "system_user"))) [
          | inl system ↦
              system_mailbox-email cfg d local domain addr mb (rw (resolve_in, found, system) at h)
          | inr virtual ↦ virtual_mailbox-email cfg addr mb (rw (resolve_in, found, virtual) at h)
        ]
      ]

  -- The mailbox of an address is named by the address in lower case.
  pub resolve-email :
      (cfg : Config) (local domain : Text) (mb : Mailbox)
      → Whole local domain
      → resolve account cfg (local ++ b'@' ∷ domain) ≡ some mb
      → mb.email ≡ to_lower (local ++ b'@' ∷ domain)
  unfolding resolve
  resolve-email cfg local domain mb w h =
      let e : resolve_in account cfg cfg.domains (to_lower local) (to_lower domain)
            (to_lower local ++ b'@' ∷ to_lower domain)
          ≡ some mb =
        rw (resolve, split-append local domain w) at h in
      resolve_in-email cfg cfg.domains (to_lower local) (to_lower domain) _ mb e
      ∙ sym (to_lower-append local (b'@' ∷ domain))
