-- ===== src/Routing.antt =====
-- internal/routing/routing.go: from the address of a recipient to the mailboxes to store into and the
-- addresses to relay to. The HMAC of internal/srs, the user database of internal/storage and the time
-- are parameters.
mod Walking
mod Reaching
mod Once
mod Examples
use verta.Common.{
  ℕ, zero, suc, Text, Bool, true, false, ◌&&◌, not, ◌||◌, if◌then◌else◌, List, [], ◌∷◌, ◌++◌,
  Option, none, some, text_eq, to_lower, trim_space, any, lookup, ℤ,
}
use verta.Config.{Domain, User, Config, keeps_local_copy}
use verta.Filter.{Rule}
use verta.Storage.{Mailbox}
use verta.Storage
use verta.Srs

-- maxDepth is 10: that many steps may follow the first address.
abbrev pub max_depth : ℕ
max_depth = 10

pub record Local : Type 0 where
  pub mailbox : Mailbox
  pub filters : List Rule

pub record Plan : Type 0 where
  pub local : List Local
  pub remote : List Text
  pub found : Bool

-- The addresses seen, and the plan so far.
pub record Resolver : Type 0 where
  pub seen : List Text
  pub local : List Local
  pub remote : List Text

unfoldable pub find_domain : List Domain → Text → Option Domain
unfolding text_eq
find_domain [] name = none
find_domain (d ∷ domains) name = if text_eq d.name name then some d else find_domain domains name

-- strings.EqualFold on ASCII.
unfoldable pub find_user : List User → Text → Option User
unfolding text_eq to_lower
find_user [] email = none
find_user (u ∷ users) email =
    if text_eq (to_lower u.email) (to_lower email) then some u else find_user users email

unfoldable pub filters_of : Option User → List Rule
filters_of none = []
filters_of (some u) = u.filters

-- Whether the user's mailbox, if the address has a user, stores the message.
unfoldable pub stores : Option User → Bool
unfolding keeps_local_copy
stores none = true
stores (some u) = keeps_local_copy u || (elim u.forward_to [ [] ↦ true | _ ∷ _ ↦ false ])

abbrev pub add_remote : Resolver → Text → Resolver
add_remote r addr = record r { remote = r.remote ++ addr ∷ [] }

abbrev pub add_local : Resolver → Local → Resolver
add_local r l = record r { local = r.local ++ l ∷ [] }

-- The address that a target names; without an "@" it is a local part in the domain that refers to it.
unfoldable pub target_address : Text → Text → Option (Text × Text)
unfolding trim_space to_lower Storage.split
target_address t same_domain = elim (trim_space t) [
  | [] ↦ none
  | c ∷ rest ↦ elim (Storage.split (c ∷ rest)) [
    | none ↦ some (to_lower (c ∷ rest), same_domain)
    | some (local, domain) ↦ some (to_lower local, domain)
  ]
]

-- `go` resolves an address one step deeper.
unfoldable pub target : (Text → Text → Resolver → Resolver) → Text → Text → Resolver → Resolver
unfolding target_address
target go t same_domain r = elim (target_address t same_domain) [
  | none ↦ r
  | some (local, domain) ↦ go local domain r
]

unfoldable pub targets :
    (Text → Text → Resolver → Resolver) → List Text → Text → Resolver → Resolver
unfolding target
targets go [] same_domain r = r
targets go (t ∷ ts) same_domain r = targets go ts same_domain (target go t same_domain r)

-- The targets of an alias; none if there is no such alias.
unfoldable pub alias_targets : Domain → Text → List Text
unfolding lookup to_lower
alias_targets d local = elim (lookup (to_lower local) d.aliases) [ none ↦ [] | some ts ↦ ts ]

module _ (mac : Text → Text → Text) (account : Text → Option (ℤ × ℤ)) (now : ℕ) (cfg : Config) where
  -- An address with a mailbox.
  unfoldable pub visit_mailbox :
      (Text → Text → Resolver → Resolver) → Option User → Mailbox → Text → Resolver → Resolver
  unfolding stores filters_of targets
  visit_mailbox go u mb domain r =
      let kept =
        if stores u then add_local r (record { mailbox = mb; filters = filters_of u }) else r in
      elim u [ none ↦ kept | some user ↦ targets go user.forward_to domain kept ]

  -- A bounce that comes back to an address that was rewritten.
  unfoldable pub visit_bounce : Text → Resolver → Resolver
  unfolding Srs.reverse
  visit_bounce addr r = elim (Srs.reverse mac cfg.srs_secret now addr) [
    | none ↦ r
    | some original ↦ add_remote r original
  ]

  -- An address in one of the domains that has no mailbox.
  unfoldable pub visit_other :
      (Text → Text → Resolver → Resolver) → Domain → Text → Text → Text → Resolver → Resolver
  unfolding alias_targets targets visit_bounce text_eq Srs.is_srs
  visit_other go d local domain addr r = elim (alias_targets d local) [
    | t ∷ ts ↦ targets go (t ∷ ts) domain r
    | [] ↦
        if not (text_eq cfg.srs_secret []) && Srs.is_srs local
        then visit_bounce addr r
        else targets go d.catch_all domain r
  ]

  -- An address that was not seen before.
  unfoldable pub visit : (Text → Text → Resolver → Resolver) → Text → Text → Resolver → Resolver
  unfolding find_domain find_user Storage.resolve visit_mailbox visit_other
  visit go local domain r =
      let addr = local ++ b'@' ∷ domain in
      elim (find_domain cfg.domains domain) [
        | none ↦ add_remote r addr
        | some d ↦ elim (Storage.resolve account cfg addr) [
          | some mb ↦ visit_mailbox go (find_user cfg.users addr) mb domain r
          | none ↦ visit_other go d local domain addr r
        ]
      ]

  -- The number counts the steps that are left, this one among them: maxDepth + 1 - depth.
  unfoldable pub resolve_at : ℕ → Text → Text → Resolver → Resolver
  unfolding visit text_eq to_lower
  resolve_at zero local domain r = r
  resolve_at (suc n) local domain r =
      let key = to_lower (local ++ b'@' ∷ domain) in
      elim (any (text_eq key) r.seen) [
        | true ↦ r
        | false ↦ visit (resolve_at n) local domain (record r { seen = key ∷ r.seen })
      ]

  abbrev pub no_plan : Plan
  no_plan = record { local = []; remote = []; found = false }

  abbrev pub plan_of : Resolver → Plan
  plan_of r = record {
    local = r.local;
    remote = r.remote;
    found =
        (elim r.local [ [] ↦ false | _ ∷ _ ↦ true ])
        || (elim r.remote [ [] ↦ false | _ ∷ _ ↦ true ]);
  }

  unfoldable pub resolve : Text → Plan
  unfolding resolve_at find_domain Storage.split
  resolve email = elim (Storage.split email) [
    | none ↦ no_plan
    | some (local, domain) ↦ elim (find_domain cfg.domains domain) [
      | none ↦ no_plan
      | some d ↦
          plan_of (
            resolve_at (suc max_depth) local domain (record { seen = []; local = []; remote = [] }))
    ]
  ]
