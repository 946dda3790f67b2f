-- ===== src/Queue/Hosts.antt =====
-- The MX hosts of a domain and their order.
use mathlib.Core.List.{append-nil, Perm}
use verta.Common.{
  ◌==◌, Bool-cases, ℕ, ◌≡◌, ◌≢◌, refl, ap, ◌⊎◌, inl, inr, Text, List, [], ◌∷◌, ◌++◌, Option, none,
  some, arith, drop, map, sort_by, Sorted, sort_by-Sorted, sort_by-perm, subst,
}
use verta.Queue.Transport.{mx_hosts, trim_dot, Mx}

abbrev EndsInDot : Text → Type 0
EndsInDot s = (t : Text) × (s ≡ t ++ 46 ∷ [])

-- The record's host, less the dot that it may end in.
abbrev pub IsHost : Text → Mx → Type 0
IsHost h x = (x.host ≡ h ++ 46 ∷ []) ⊎ ((h ≡ x.host) × (EndsInDot x.host → ⊥))

dotless-one : (c : ℕ) → c ≢ 46 → EndsInDot (c ∷ []) → ⊥
dotless-one c n ([], e) = n (ap (λ l. first_of l) e)
  where
    first_of : Text → ℕ
    first_of [] = 0
    first_of (x ∷ l) = x
dotless-one c n (d ∷ [], e) = cc
dotless-one c n (d ∷ x ∷ t, e) = cc

trim_dot-host : (s : Text) → (s ≡ trim_dot s ++ 46 ∷ []) ⊎ ((trim_dot s ≡ s) × (EndsInDot s → ⊥))
unfolding trim_dot
trim_dot-host [] = inr (refl, λ (t, e). dotless-none t e)
  where
    dotless-none : (t : Text) → [] ≡ t ++ 46 ∷ [] → ⊥
    dotless-none [] e = cc
    dotless-none (x ∷ t) e = cc
trim_dot-host (c ∷ []) = elim (Bool-cases (c == 46)) [
  | inl dot ↦ inl (ground (arith, dot))
  | inr kept ↦ inr (ground (arith, kept), dotless-one c (ground (arith, kept)))
]
trim_dot-host (c ∷ d ∷ s) = elim (trim_dot-host (d ∷ s)) [
  | inl e ↦ inl (ap (λ l. c ∷ l) e)
  | inr (e, n) ↦ inr (ap (λ l. c ∷ l) e, λ (t, f). later n t f)
]
  where
    later : (EndsInDot (d ∷ s) → ⊥) → (t : Text) → c ∷ d ∷ s ≡ t ++ 46 ∷ [] → ⊥
    later n [] f = cc
    later n (x ∷ t) f = n (t, ap (drop 1) f)

-- The hosts, each of the record at its place.
abbrev pub HostsOf : List Text → List Mx → Type 0
HostsOf [] [] = Unit
HostsOf (h ∷ hosts) (x ∷ order) = IsHost h x × HostsOf hosts order
HostsOf [] (x ∷ order) = ⊥
HostsOf (h ∷ hosts) [] = ⊥

map-HostsOf : (order : List Mx) → HostsOf (map (λ x. trim_dot x.host) order) order
map-HostsOf [] = tt
map-HostsOf (x ∷ order) = (trim_dot-host x.host, map-HostsOf order)

-- The hosts that are asked, one after the other: those of the MX records, which come in ascending order of
-- their preference, or the domain itself if there is no record.
abbrev pub InOrder : Option (List Mx) → Text → List Text → Type 0
InOrder none domain hosts = hosts ≡ domain ∷ []
InOrder (some []) domain hosts = hosts ≡ domain ∷ []
InOrder (some (m ∷ mxs)) domain hosts =
    (order : List Mx) × Perm order (m ∷ mxs) × Sorted (λ x. x.pref) order × HostsOf hosts order

pub mx_hosts-InOrder :
    (lookup_mx : Option (List Mx)) (domain : Text)
    → InOrder lookup_mx domain (mx_hosts lookup_mx domain)
unfolding mx_hosts
mx_hosts-InOrder none domain = refl
mx_hosts-InOrder (some []) domain = refl
mx_hosts-InOrder (some (m ∷ mxs)) domain = (
  sort_by (λ x. x.pref) [] (m ∷ mxs),
  subst (Perm (sort_by (λ (x : Mx). x.pref) [] (m ∷ mxs))) (append-nil (m ∷ mxs))
      (sort_by-perm (λ (x : Mx). x.pref) [] (m ∷ mxs)),
  sort_by-Sorted (λ x. x.pref) [] (m ∷ mxs) tt,
  map-HostsOf (sort_by (λ x. x.pref) [] (m ∷ mxs)),
)
