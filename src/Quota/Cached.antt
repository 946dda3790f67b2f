-- ===== src/Quota/Cached.antt =====
-- What the cache of internal/quota/quota.go gives between two measurements.
use verta.Common.{
  ℕ, ◌+◌, ◌-◌, ◌<◌, ◌≡◌, refl, ap, ◌∙◌, Text, lookup, lookup-insert, text_eq, true, if◌then◌else◌,
  ltb, List, [], ◌∷◌, Option, some, arith, lt→ltb, Option-cases, Bool-cases, inl, inr, text_eq_iff,
}
use verta.Quota.{Entry, Manager, get, add}

-- Deliveries to mailboxes, each with its size.
abbrev pub add_all : Manager → List (Text × ℕ) → Manager
add_all m [] = m
add_all m ((dir, delta) ∷ deliveries) = add_all (add m dir delta) deliveries

abbrev pub delivered : Text → List (Text × ℕ) → ℕ
delivered dir [] = 0
delivered dir ((d, delta) ∷ deliveries) =
    (if text_eq d dir then delta else 0) + delivered dir deliveries

plus_zero : (n : ℕ) → n ≡ n + 0
plus_zero n = omega arith

same_entry : (e : Entry) → e ≡ record e { bytes = e.bytes + 0 }
same_entry e = λ i. record e { bytes = plus_zero e.bytes i }

add-ttl : (m : Manager) (d : Text) (delta : ℕ) → (add m d delta).ttl ≡ m.ttl
unfolding add
add-ttl m d delta = elim (Option-cases (lookup d m.cache)) [
  | inl cold ↦ rw (add, cold) refl
  | inr (e, warm) ↦ rw (add, warm) refl
]

lookup-add :
    (m : Manager) (dir d : Text) (delta : ℕ) (e : Entry)
    → lookup dir m.cache ≡ some e
    → lookup dir (add m d delta).cache
      ≡ some (record e { bytes = e.bytes + (if text_eq d dir then delta else 0) })
unfolding add
lookup-add m dir d delta e h = elim (Option-cases (lookup d m.cache)) [
  | inl cold ↦ elim (Bool-cases (text_eq d dir)) [
    | inl same ↦ ground (arith, h, cold, (text_eq_iff d dir).0 same)
    | inr other ↦ rw (add, cold, other) (h ∙ ap some (same_entry e))
  ]
  | inr (f, warm) ↦ elim (Bool-cases (text_eq d dir)) [
    | inl same ↦
        let hit : f ≡ e = ground (arith, h, warm, (text_eq_iff d dir).0 same) in
        rw (add, warm, lookup-insert d dir (record f { bytes = f.bytes + delta }) m.cache, same)
          (ap (λ (g : Entry). some (record g { bytes = g.bytes + delta })) hit)
    | inr other ↦
        rw (add, warm, lookup-insert d dir (record f { bytes = f.bytes + delta }) m.cache, other)
          (h ∙ ap some (same_entry e))
  ]
]

lookup-add_all :
    (m : Manager) (dir : Text) (e : Entry) (deliveries : List (Text × ℕ))
    → lookup dir m.cache ≡ some e
    → (f : Entry) × (lookup dir (add_all m deliveries).cache ≡ some f)
      × (f.bytes ≡ e.bytes + delivered dir deliveries)
      × (f.at_time ≡ e.at_time)
lookup-add_all m dir e [] h = (e, h, omega arith, refl)
lookup-add_all m dir e ((d, delta) ∷ deliveries) h =
    let next : Entry = record e { bytes = e.bytes + (if text_eq d dir then delta else 0) } in
    let (f, found, bytes, at) =
      lookup-add_all (add m d delta) dir next deliveries (lookup-add m dir d delta e h) in
    (f, found, omega (arith, bytes), at)

add_all-ttl : (m : Manager) (deliveries : List (Text × ℕ)) → (add_all m deliveries).ttl ≡ m.ttl
add_all-ttl m [] = refl
add_all-ttl m ((d, delta) ∷ deliveries) = add_all-ttl (add m d delta) deliveries ∙ add-ttl m d delta

-- Let a mailbox's usage have been cached less than the time to live ago. After any deliveries to
-- any mailboxes, the usage that is given, without a measurement, is what was cached and the sizes
-- of the deliveries to that mailbox.
pub get-add_all :
    (m : Manager) (dir : Text) (e : Entry) (deliveries : List (Text × ℕ)) (now : ℕ)
    (measured : Option ℕ)
    → lookup dir m.cache ≡ some e
    → now - e.at_time < m.ttl
    → get (add_all m deliveries) dir now measured
      ≡ (add_all m deliveries, e.bytes + delivered dir deliveries)
unfolding get
get-add_all m dir e deliveries now measured h fresh =
    let (f, found, bytes, at) = lookup-add_all m dir e deliveries h in
    let warm : ltb (now - f.at_time) (add_all m deliveries).ttl ≡ true =
      lt→ltb _ _ (omega (arith, at, fresh, add_all-ttl m deliveries)) in
    rw (get, found, warm) (ap (λ b. (add_all m deliveries, b)) bytes)
