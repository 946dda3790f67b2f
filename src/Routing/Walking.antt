-- ===== src/Routing/Walking.antt =====
-- Induction over the addresses that internal/routing/routing.go resolves: what each step keeps, the
-- whole resolution keeps.
use verta.Common.{
  ℕ, zero, suc, Text, Bool, false, ◌&&◌, not, inl, inr, ◌≡◌, refl, ap, ◌∙◌, if◌then◌else◌, List, [],
  ◌∷◌, ◌++◌, Option, none, some, text_eq, to_lower, any, All, get_elem?, Bool-cases, Option-cases,
  ℤ,
}
use verta.Config.{Domain, User, Config}
use verta.Storage.{Mailbox}
use verta.Storage
use verta.Srs
use verta.Routing.{
  Local, Resolver, find_domain, find_user, add_remote, add_local, target_address, target, targets,
  alias_targets, visit_mailbox, visit_bounce, visit_other, visit, resolve_at, stores, filters_of,
}

-- A property of each element that was proved by its place.
pub All-get_elem? {ℓ κ} :
    {A : Type ℓ} (P : A → Type κ) (xs : List A)
    → ((i : ℕ) (x : A) → get_elem? xs i ≡ some x → P x)
    → All P xs
All-get_elem? P [] h = tt
All-get_elem? P (x ∷ xs) h = (h 0 x refl, All-get_elem? P xs (λ i y e. h (suc i) y e))

module _ (mac : Text → Text → Text) (account : Text → Option (ℤ × ℤ)) (now : ℕ) (cfg : Config) where
  -- The targets of an address: where a mailbox is forwarded to, the targets of an alias or the catch-all.
  abbrev pub expansion : Text → Text → List Text
  expansion local domain = elim (find_domain cfg.domains domain) [
    | none ↦ []
    | some d ↦ elim (Storage.resolve account cfg (local ++ b'@' ∷ domain)) [
      | some mb ↦ elim (find_user cfg.users (local ++ b'@' ∷ domain)) [
        | none ↦ []
        | some u ↦ u.forward_to
      ]
      | none ↦ elim (alias_targets d local) [
        | t ∷ ts ↦ t ∷ ts
        | [] ↦ if not (text_eq cfg.srs_secret []) && Srs.is_srs local then [] else d.catch_all
      ]
    ]
  ]

  abbrev pub marked : Text → Text → Resolver → Resolver
  marked local domain r = record r { seen = to_lower (local ++ b'@' ∷ domain) ∷ r.seen }

  -- An address that was resolved before.
  abbrev pub was_seen : Text → Text → Resolver → Bool
  was_seen local domain r = any (text_eq (to_lower (local ++ b'@' ∷ domain))) r.seen

  -- A property of the addresses, and one of the resolver.
  module _ {ℓ κ} (Visited : Text → Text → Type ℓ) (Keeps : Resolver → Type κ)
      (next : (local domain t l d : Text) (i : ℕ)
        → Visited local domain
        → get_elem? (expansion local domain) i ≡ some t
        → target_address t domain ≡ some (l, d)
        → Visited l d)
      (marks : (local domain : Text) (r : Resolver)
        → was_seen local domain r ≡ false
        → Keeps r
        → Keeps (marked local domain r))
      (adds_local : (local domain : Text) (r : Resolver) (l : Local)
        → Visited local domain
        → was_seen local domain r ≡ false
        → Storage.resolve account cfg (local ++ b'@' ∷ domain) ≡ some l.mailbox
        → Keeps r
        → Keeps (add_local (marked local domain r) l))
      (adds_remote : (local domain : Text) (r : Resolver)
        → Visited local domain
        → find_domain cfg.domains domain ≡ none
        → Keeps r
        → Keeps (add_remote r (local ++ b'@' ∷ domain)))
      (adds_original : (local domain : Text) (r : Resolver) (original : Text)
        → Visited local domain
        → Srs.reverse mac cfg.srs_secret now (local ++ b'@' ∷ domain) ≡ some original
        → Keeps r
        → Keeps (add_remote r original)) where
    abbrev pub EachKeeps : (Text → Text → Resolver → Resolver) → Type (ℓ ⊔ κ)
    EachKeeps go =
        (local domain : Text) (r : Resolver)
        → Visited local domain
        → Keeps r
        → Keeps (go local domain r)

    -- A target that leads to an address with the property.
    abbrev Leads : Text → Text → Type ℓ
    Leads domain t = (l d : Text) → target_address t domain ≡ some (l, d) → Visited l d

    targets-Keeps :
        (go : Text → Text → Resolver → Resolver) (ts : List Text) (domain : Text) (r : Resolver)
        → EachKeeps go
        → All (Leads domain) ts
        → Keeps r
        → Keeps (targets go ts domain r)
    unfolding targets target
    targets-Keeps go [] domain r k h s = s
    targets-Keeps go (t ∷ ts) domain r k h s = elim (Option-cases (target_address t domain)) [
      | inl nowhere ↦
          targets-Keeps go ts domain (target go t domain r) k h.1 (rw (target, nowhere) s)
      | inr ((l, d), leads) ↦
          targets-Keeps go ts domain (target go t domain r) k h.1
            (rw (target, leads) (k l d r (h.0 l d leads) s))
    ]

    expansion-Leads :
        (local domain : Text) (ts : List Text)
        → Visited local domain
        → expansion local domain ≡ ts
        → All (Leads domain) ts
    expansion-Leads local domain ts reach e =
        All-get_elem? (Leads domain) ts (λ i t at l d leads.
          next local domain t l d i reach (ap (λ m. get_elem? m i) e ∙ at) leads)

    visit_mailbox-Keeps :
        (go : Text → Text → Resolver → Resolver) (d : Domain) (mb : Mailbox) (local domain : Text)
        (r : Resolver)
        → EachKeeps go
        → Visited local domain
        → find_domain cfg.domains domain ≡ some d
        → Storage.resolve account cfg (local ++ b'@' ∷ domain) ≡ some mb
        → was_seen local domain r ≡ false
        → Keeps r
        → Keeps (
            visit_mailbox mac account now cfg go
              (find_user cfg.users (local ++ b'@' ∷ domain))
              mb
              domain
              (marked local domain r))
    unfolding visit_mailbox
    visit_mailbox-Keeps go d mb local domain r k reach e f new s =
        by_user (find_user cfg.users (local ++ b'@' ∷ domain)) refl
      where
        kept-Keeps :
            (u : Option User)
            → Keeps (
                if stores u
                then add_local
                    (marked local domain r)
                    (record { mailbox = mb; filters = filters_of u })
                else marked local domain r)
        kept-Keeps u = elim (Bool-cases (stores u)) [
          | inl yes_stored ↦ rw yes_stored (
              adds_local local domain r (record { mailbox = mb; filters = filters_of u }) reach new
                f s)
          | inr not_stored ↦ rw not_stored (marks local domain r new s)
        ]

        by_user :
            (u : Option User)
            → find_user cfg.users (local ++ b'@' ∷ domain) ≡ u
            → Keeps (visit_mailbox mac account now cfg go u mb domain (marked local domain r))
        by_user none g = unfold visit_mailbox in kept-Keeps none
        by_user (some user) g =
            unfold visit_mailbox in
            targets-Keeps go user.forward_to domain _ k
              (expansion-Leads local domain user.forward_to reach (rw (expansion, e, f, g) refl))
              (kept-Keeps (some user))

    visit_bounce-Keeps :
        (local domain : Text) (r : Resolver)
        → Visited local domain
        → Keeps r
        → Keeps (visit_bounce mac account now cfg (local ++ b'@' ∷ domain) r)
    unfolding visit_bounce
    visit_bounce-Keeps local domain r reach s =
        elim (Option-cases (Srs.reverse mac cfg.srs_secret now (local ++ b'@' ∷ domain))) [
          | inl forged ↦ rw (visit_bounce, forged) s
          | inr (original, signed) ↦
              rw (visit_bounce, signed) (adds_original local domain r original reach signed s)
        ]

    visit_other-Keeps :
        (go : Text → Text → Resolver → Resolver) (d : Domain) (local domain : Text) (r : Resolver)
        → EachKeeps go
        → Visited local domain
        → find_domain cfg.domains domain ≡ some d
        → Storage.resolve account cfg (local ++ b'@' ∷ domain) ≡ none
        → Keeps r
        → Keeps (visit_other mac account now cfg go d local domain (local ++ b'@' ∷ domain) r)
    unfolding visit_other
    visit_other-Keeps go d local domain r k reach e f s = by_alias (alias_targets d local) refl
      where
        by_alias :
            (ts : List Text)
            → alias_targets d local ≡ ts
            → Keeps (visit_other mac account now cfg go d local domain (local ++ b'@' ∷ domain) r)
        by_alias (t ∷ ts) g =
            unfold visit_other in
            rw (visit_other, g)
              (targets-Keeps go (t ∷ ts) domain r k
                (expansion-Leads local domain (t ∷ ts) reach (rw (expansion, e, f, g) refl)) s)
        by_alias [] g =
            unfold visit_other in
            elim (Bool-cases (not (text_eq cfg.srs_secret []) && Srs.is_srs local)) [
              | inl bounce ↦ rw (visit_other, g, bounce) (visit_bounce-Keeps local domain r reach s)
              | inr ordinary ↦
                  rw (visit_other, g, ordinary)
                    (targets-Keeps go d.catch_all domain r k
                      (expansion-Leads local domain d.catch_all reach
                        (rw (expansion, e, f, g, ordinary) refl))
                      s)
            ]

    visit-Keeps :
        (go : Text → Text → Resolver → Resolver) (local domain : Text) (r : Resolver)
        → EachKeeps go
        → Visited local domain
        → was_seen local domain r ≡ false
        → Keeps r
        → Keeps (visit mac account now cfg go local domain (marked local domain r))
    unfolding visit
    visit-Keeps go local domain r k reach new s =
        elim (Option-cases (find_domain cfg.domains domain)) [
          | inl elsewhere ↦
              rw (visit, elsewhere)
                (adds_remote local domain (marked local domain r) reach elsewhere
                  (marks local domain r new s))
          | inr (d, here) ↦
              elim (Option-cases (Storage.resolve account cfg (local ++ b'@' ∷ domain))) [
                | inr (mb, has_mailbox) ↦
                    rw (visit, here, has_mailbox)
                      (visit_mailbox-Keeps go d mb local domain r k reach here has_mailbox new s)
                | inl no_mailbox ↦
                    rw (visit, here, no_mailbox)
                      (visit_other-Keeps go d local domain (marked local domain r) k reach here
                        no_mailbox (marks local domain r new s))
              ]
        ]

    pub resolve_at-Keeps : (n : ℕ) → EachKeeps (resolve_at mac account now cfg n)
    unfolding resolve_at
    resolve_at-Keeps zero local domain r reach s = s
    resolve_at-Keeps (suc n) local domain r reach s =
        elim (Bool-cases (any (text_eq (to_lower (local ++ b'@' ∷ domain))) r.seen)) [
          | inl known ↦ rw (resolve_at, known) s
          | inr new ↦
              rw (resolve_at, new)
                (visit-Keeps (resolve_at mac account now cfg n) local domain r (resolve_at-Keeps n)
                  reach new s)
        ]
