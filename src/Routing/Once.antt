-- ===== src/Routing/Once.antt =====
-- That internal/routing/routing.go puts no mailbox into a plan twice.
use verta.Common.{
  ℕ, suc, Text, true, false, ◌≡◌, ◌≢◌, refl, sym, ap, ◌∙◌, List, [], ◌∷◌, ◌++◌, Option, some, inl,
  inr, text_eq, text_eq_refl, to_lower, trim_space, any, All, All-append, arith, Option-cases, ℤ,
  starts_solid, trim_space-solid, ◌||◌,
}
use mathlib.Core.Path.{subst₂}
use verta.Config.{Config}
use verta.Storage.{Mailbox}
use verta.Storage
use verta.Storage.Emails.{Whole, Whole-to_lower, split-Whole, resolve-email, starts_solid-to_lower}
use verta.Routing.{
  Local, Resolver, find_domain, add_local, target_address, resolve_at, resolve, max_depth,
}
use verta.Routing.Walking.{resolve_at-Keeps, marked, was_seen}

-- The addresses of the mailboxes of a plan are different from each other.
abbrev pub Apart : List Local → Type 0
Apart [] = Unit
Apart (l ∷ ls) = All (λ m. l.mailbox.email ≢ m.mailbox.email) ls × Apart ls

Apart-append :
    (ls : List Local) (m : Local)
    → All (λ l. l.mailbox.email ≢ m.mailbox.email) ls
    → Apart ls
    → Apart (ls ++ m ∷ [])
Apart-append [] m h a = (tt, tt)
Apart-append (l ∷ ls) m h a = (
  All-append (λ k. l.mailbox.email ≢ k.mailbox.email) ls (m ∷ []) a.0 (h.0, tt),
  Apart-append ls m h.1 a.1,
)

-- Every mailbox of the plan so far has an address that was seen, and no two have the same.
abbrev Once : Resolver → Type 0
Once r = All (λ l. any (text_eq l.mailbox.email) r.seen ≡ true) r.local × Apart r.local

All-map {κ μ} :
    (P : Local → Type κ) (Q : Local → Type μ) (ls : List Local)
    → ((l : Local) → P l → Q l)
    → All P ls
    → All Q ls
All-map P Q [] f h = tt
All-map P Q (l ∷ ls) f h = (f l h.0, All-map P Q ls f h.1)

nil_not_cons : {c : ℕ} {s : Text} → [] ≢ c ∷ s
nil_not_cons = λ e. cc

true_not_false : true ≢ false
true_not_false = λ e. cc

target_address-Whole :
    (t domain : Text) (l d : Text) (local : Text)
    → Whole local domain
    → target_address t domain ≡ some (l, d)
    → Whole l d
unfolding target_address
target_address-Whole t domain l d local w h = by_text (trim_space t) refl
  where
    by_text : (s : Text) → trim_space t ≡ s → Whole l d
    by_text [] e = ground (arith, rw (target_address, e) at h)
    by_text (c ∷ s) e = elim (Option-cases (Storage.split (c ∷ s))) [
      | inl alone ↦
          let same : (to_lower (c ∷ s) ≡ l) × (domain ≡ d) =
            ground (arith, rw (target_address, e, alone) at h) in
          subst₂ Whole same.0 same.1 (
            starts_solid-to_lower (c ∷ s) (
                ap starts_solid (sym e)
                ∙ (trim_space-solid t (λ empty. nil_not_cons (sym empty ∙ e))).0),
            w.1,
            w.2,
          )
      | inr ((u, v), apart) ↦
          let same : (to_lower u ≡ l) × (v ≡ d) =
            ground (arith, rw (target_address, e, apart) at h) in
          subst₂ Whole same.0 same.1 (Whole-to_lower u v (split-Whole (c ∷ s) u v apart))
    ]

module _ (mac : Text → Text → Text) (account : Text → Option (ℤ × ℤ)) (now : ℕ) (cfg : Config) where
  seen_later :
      (local domain : Text) (r : Resolver)
      → All (λ l. any (text_eq l.mailbox.email) r.seen ≡ true) r.local
      → All
          (λ l.
            any (text_eq l.mailbox.email) (marked mac account now cfg local domain r).seen ≡ true)
          r.local
  seen_later local domain r = All-map _ _ r.local (λ l h. ground (arith, h))

  adds_local-Once :
      (local domain : Text) (r : Resolver) (l : Local)
      → Whole local domain
      → was_seen mac account now cfg local domain r ≡ false
      → Storage.resolve account cfg (local ++ b'@' ∷ domain) ≡ some l.mailbox
      → Once r
      → Once (add_local (marked mac account now cfg local domain r) l)
  adds_local-Once local domain r l w new has_mailbox once =
      let named = resolve-email account cfg local domain l.mailbox w has_mailbox in
      (
        All-append _ r.local (l ∷ []) (seen_later local domain r once.0) (
          ap (λ e. text_eq e (to_lower (local ++ b'@' ∷ domain)) || any (text_eq e) r.seen) named
              ∙ ap (λ b. b || any (text_eq (to_lower (local ++ b'@' ∷ domain))) r.seen)
                  (text_eq_refl (to_lower (local ++ b'@' ∷ domain))),
          tt,
        ),
        Apart-append r.local l
            (All-map _ _ r.local
              (λ m seen same.
                true_not_false (sym seen ∙ ap (λ e. any (text_eq e) r.seen) (same ∙ named) ∙ new))
              once.0)
            once.1,
      )

  resolve_at-Once :
      (n : ℕ) (local domain : Text) (r : Resolver)
      → Whole local domain
      → Once r
      → Once (resolve_at mac account now cfg n local domain r)
  resolve_at-Once =
      resolve_at-Keeps mac account now cfg Whole Once
        (λ local domain t l d i w at leads. target_address-Whole t domain l d local w leads)
        (λ local domain r new once. (seen_later local domain r once.0, once.1)) adds_local-Once
        (λ local domain r w elsewhere once. once) (λ local domain r original w signed once. once)

  -- The mailboxes of a recipient's plan have addresses that are all different, so that none of
  -- them is named twice, whatever aliases, forwards and catch-alls lead to it.
  pub resolve-Apart : (email : Text) → Apart (resolve mac account now cfg email).local
  unfolding resolve
  resolve-Apart email = elim (Option-cases (Storage.split email)) [
    | inl invalid ↦ rw (resolve, invalid) tt
    | inr ((local, domain), parts) ↦ elim (Option-cases (find_domain cfg.domains domain)) [
      | inl elsewhere ↦ rw (resolve, parts, elsewhere) tt
      | inr (d, here) ↦
          rw (resolve, parts, here)
            (resolve_at-Once (suc max_depth) local domain
              (record { seen = []; local = []; remote = [] }) (split-Whole email local domain parts)
              (tt, tt)).1
    ]
  ]
