-- ===== src/Routing/Reaching.antt =====
-- The plan of internal/routing/routing.go against the addresses that can be reached from the recipient.
use verta.Common.{
  ℕ, suc, Text, ◌⊎◌, inl, inr, ◌≡◌, refl, [], ◌∷◌, ◌++◌, Option, none, some, All, All-append,
  get_elem?, Option-cases, ℤ,
}
use verta.Config.{Config}
use verta.Storage.{Mailbox}
use verta.Storage
use verta.Srs
use verta.Routing.Walking.{expansion, resolve_at-Keeps, marked}
use verta.Routing.{
  Local, Resolver, find_domain, add_remote, add_local, target_address, resolve_at, resolve,
  max_depth,
}

module _ (mac : Text → Text → Text) (account : Text → Option (ℤ × ℤ)) (now : ℕ) (cfg : Config) where
  -- The addresses that can be reached from a first one by any number of targets.
  pub data Reach (first_local first_domain : Text) : Text → Text → Type 0 where
    start : Reach first_local first_domain first_local first_domain
    step :
        {local domain next_local next_domain t : Text}
        → Reach first_local first_domain local domain
        → (i : ℕ) → get_elem? (expansion mac account now cfg local domain) i ≡ some t
        → target_address t domain ≡ some (next_local, next_domain)
        → Reach first_local first_domain next_local next_domain

  module _ (first_local first_domain : Text) where
    -- A mailbox of an address that can be reached.
    abbrev pub LocalFrom : Local → Type 0
    LocalFrom l =
        (local : Text) × (domain : Text) × Reach first_local first_domain local domain
        × (Storage.resolve account cfg (local ++ b'@' ∷ domain) ≡ some l.mailbox)

    -- An address that can be reached and is of no domain of the server, or the sender that one stands for.
    abbrev pub RemoteFrom : Text → Type 0
    RemoteFrom addr =
        (local : Text) × (domain : Text) × Reach first_local first_domain local domain
        × (((find_domain cfg.domains domain ≡ none) × (addr ≡ local ++ b'@' ∷ domain))
            ⊎ (Srs.reverse mac cfg.srs_secret now (local ++ b'@' ∷ domain) ≡ some addr))

    abbrev Sound : Resolver → Type 0
    Sound r = All LocalFrom r.local × All RemoteFrom r.remote

    add_remote-Sound :
        (r : Resolver) (addr : Text) → RemoteFrom addr → Sound r → Sound (add_remote r addr)
    add_remote-Sound r addr h s = (s.0, All-append RemoteFrom r.remote (addr ∷ []) s.1 (h, tt))

    add_local-Sound : (r : Resolver) (l : Local) → LocalFrom l → Sound r → Sound (add_local r l)
    add_local-Sound r l h s = (All-append LocalFrom r.local (l ∷ []) s.0 (h, tt), s.1)

    resolve_at-Sound :
        (n : ℕ) (local domain : Text) (r : Resolver)
        → Reach first_local first_domain local domain
        → Sound r
        → Sound (resolve_at mac account now cfg n local domain r)
    resolve_at-Sound =
        resolve_at-Keeps mac account now cfg (Reach first_local first_domain) Sound
          (λ local domain t l d i reach at leads. step reach i at leads) (λ local domain r new s. s)
          (λ local domain r l reach new has_mailbox s.
            add_local-Sound (marked mac account now cfg local domain r) l
              (local, domain, reach, has_mailbox) s)
          (λ local domain r reach elsewhere s.
            add_remote-Sound r (local ++ b'@' ∷ domain)
              (local, domain, reach, inl (elsewhere, refl)) s)
          (λ local domain r original reach signed s.
            add_remote-Sound r original (local, domain, reach, inr signed) s)

  -- Every mailbox of a recipient's plan is the mailbox of an address that can be reached from the
  -- recipient by forwards, aliases and catch-alls, and every remote address of the plan can be so
  -- reached and is of no domain of the server, or is the sender that an address so reached was
  -- signed for.
  pub resolve-Reach :
      (email local domain : Text)
      → Storage.split email ≡ some (local, domain)
      → All (LocalFrom local domain) (resolve mac account now cfg email).local
        × All (RemoteFrom local domain) (resolve mac account now cfg email).remote
  unfolding resolve
  resolve-Reach email local domain e = elim (Option-cases (find_domain cfg.domains domain)) [
    | inl elsewhere ↦ rw (resolve, e, elsewhere) (tt, tt)
    | inr (d, here) ↦
        rw (resolve, e, here)
          (resolve_at-Sound local domain (suc max_depth) local domain
            (record { seen = []; local = []; remote = [] }) start (tt, tt))
  ]
