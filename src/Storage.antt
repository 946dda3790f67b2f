-- ===== src/Storage.antt =====
-- internal/storage/resolver.go: the mailbox of an address. The user database of the system, the user
-- and group identifiers of an account where both are numbers, is a parameter; none of them is found
-- on a system other than Linux.
pub mod Emails
use verta.Common.{
  Text, codes, Bool, false, ◌&&◌, not, ◌||◌, if◌then◌else◌, List, [], ◌∷◌, ◌++◌, Option, none, some,
  text_eq, to_lower, trim_space, split_last, ℤ, negsuc,
}
use verta.Config.{Domain, User, Config, expand_home, maildir_path}

pub record Mailbox : Type 0 where
  pub email : Text
  pub dir : Text
  pub uid : ℤ
  pub gid : ℤ

-- Local part and domain in lower case; neither may be empty.
unfoldable pub split : Text → Option (Text × Text)
unfolding split_last trim_space to_lower
split email = elim (split_last b'@' (trim_space email)) [
  | none ↦ none
  | some ([], domain) ↦ none
  | some (local, []) ↦ none
  | some (local, domain) ↦ some (local, to_lower domain)
]

-- Whether the text is an address in the domain.
unfoldable pub in_domain : Text → Option (Text × Text) → Bool
unfolding text_eq
in_domain domain none = false
in_domain domain (some (local, d)) = text_eq d domain

unfoldable pub find_mailbox_user : Text → List User → Option User
unfolding text_eq
find_mailbox_user addr [] = none
find_mailbox_user addr (u ∷ users) =
    if text_eq u.email addr then some u else find_mailbox_user addr users

unfoldable pub has_users : Text → List User → Bool
unfolding in_domain
has_users domain [] = false
has_users domain (u ∷ users) = in_domain domain (split u.email) || has_users domain users

module _ (account : Text → Option (ℤ × ℤ)) where
  unfoldable pub fill_owner : Mailbox → Text → Mailbox
  fill_owner mb name = elim (account name) [
    | none ↦ mb
    | some (uid, gid) ↦ record mb { uid = uid; gid = gid }
  ]

  -- The mailbox of an address in a domain of a system user.
  unfoldable pub system_mailbox : Config → Domain → Text → Text → Text → Option Mailbox
  unfolding fill_owner find_mailbox_user has_users expand_home maildir_path text_eq
  system_mailbox cfg d local domain addr = elim (find_mailbox_user addr cfg.users) [
    | some u ↦ some (
        fill_owner
          (record {
            email = addr;
            dir = expand_home d.storage u.maildir;
            uid = negsuc 0;
            gid = negsuc 0;
          })
          d.storage.user)
    | none ↦
        if not (has_users domain cfg.users) && text_eq local d.storage.user
        then some (
            fill_owner
              (record {
                email = addr;
                dir = maildir_path d.storage;
                uid = negsuc 0;
                gid = negsuc 0;
              })
              d.storage.user)
        else none
  ]

  unfoldable pub virtual_mailbox : Config → Text → Option Mailbox
  unfolding find_mailbox_user
  virtual_mailbox cfg addr = elim (find_mailbox_user addr cfg.users) [
    | none ↦ none
    | some u ↦ some (record { email = addr; dir = u.maildir; uid = negsuc 0; gid = negsuc 0 })
  ]

  -- The mailbox in the first domain of that name.
  unfoldable pub resolve_in : Config → List Domain → Text → Text → Text → Option Mailbox
  unfolding system_mailbox virtual_mailbox text_eq
  resolve_in cfg [] local domain addr = none
  resolve_in cfg (d ∷ domains) local domain addr =
      let later = resolve_in cfg domains local domain addr in
      if not (text_eq d.name domain)
      then later
      else if text_eq d.storage.kind (codes "system_user")
      then system_mailbox cfg d local domain addr
      else virtual_mailbox cfg addr

  unfoldable pub resolve : Config → Text → Option Mailbox
  unfolding resolve_in split
  resolve cfg email = elim (split email) [
    | none ↦ none
    | some (local, domain) ↦
        resolve_in cfg cfg.domains (to_lower local) domain (to_lower local ++ b'@' ∷ domain)
  ]
