-- ===== src/Maildir/Mailbox/Uids.antt =====
-- UIDs are stable: a message keeps its UID over every refresh, a new one gets a greater UID than any
-- given out before, and no two messages share one.
use verta.Common.{
  subst, text_eq_refl, ℕ, ◌+◌, ◌%◌, ◌<◌, ◌≤◌, ◌≡◌, sym, Text, Dict, lookup, insert, true, List, [],
  ◌∷◌, none, some, text_eq_iff, length, All, arith, lookup-insert, Option-cases, inl, inr,
}
use verta.Maildir.Flags.{base_name}
use verta.Maildir.Mailbox.{Found, Assignment, assign, u32_mod}

-- Every UID was given out, and to one base name only.
pub record IsConsistent (uids : Dict ℕ) (next : ℕ) : Type 0 where
  pub bounded : (k : Text) (u : ℕ) → lookup k uids ≡ some u → u < next
  pub injective : (j k : Text) (u : ℕ) → lookup j uids ≡ some u → lookup k uids ≡ some u → j ≡ k

-- What `assign` promises: the old UIDs stay, and the new ones start at the old `next`.
pub record Extends (a b : Assignment) : Type 0 where
  pub consistent : IsConsistent b.uids b.next
  pub kept : (k : Text) (u : ℕ) → lookup k a.uids ≡ some u → lookup k b.uids ≡ some u
  pub fresh : (k : Text) (u : ℕ) → lookup k a.uids ≡ none → lookup k b.uids ≡ some u → a.next ≤ u
  pub grows : a.next ≤ b.next

abbrev pub new_uid : Text → Assignment → Assignment
new_uid base a = record {
  uids = insert base a.next a.uids;
  next = (a.next + 1) % u32_mod;
  dirty = true;
}

new_uid-Extends :
    (base : Text) (a : Assignment)
    → lookup base a.uids ≡ none
    → a.next + 1 < u32_mod
    → IsConsistent a.uids a.next
    → Extends a (new_uid base a)
new_uid-Extends base a unknown room c = record {
  consistent = record {
    bounded = λ k u h. ground (arith, lookup-insert base k a.next a.uids, c.bounded k u);
    injective = λ j k u h h'. ground (
      arith,
      lookup-insert base j a.next a.uids,
      lookup-insert base k a.next a.uids,
      text_eq_iff base j,
      text_eq_iff base k,
      c.injective j k u,
      c.bounded j u,
      c.bounded k u,
    );
  };
  kept = λ k u h. ground (arith, lookup-insert base k a.next a.uids, text_eq_iff base k);
  fresh = λ k u h h'. ground (arith, lookup-insert base k a.next a.uids);
  grows = omega arith;
}

Extends-refl : (a : Assignment) → IsConsistent a.uids a.next → Extends a a
Extends-refl a c = record {
  consistent = c;
  kept = λ k u h. h;
  fresh = λ k u h h'. ground (arith, h, h');
  grows = omega arith;
}

Extends-trans : (a b c : Assignment) → Extends a b → Extends b c → Extends a c
Extends-trans a b c h k = record {
  consistent = k.consistent;
  kept = λ j u e. k.kept j u (h.kept j u e);
  fresh = λ j u e e'. elim (Option-cases (lookup j b.uids)) [
    | inl none_yet ↦ omega (arith, h.grows, k.fresh j u none_yet e')
    | inr (v, got) ↦ ground (arith, h.fresh j v e got, k.kept j v got)
  ];
  grows = omega (arith, h.grows, k.grows);
}

-- Every file found has a UID in the end.
abbrev pub HasUid : Dict ℕ → Found → Type 0
HasUid uids e = (u : ℕ) × (lookup (base_name e.name) uids ≡ some u)

pub assign-none :
    (a : Assignment) (e : Found) (found : List Found)
    → lookup (base_name e.name) a.uids ≡ none
    → assign a (e ∷ found) ≡ assign (new_uid (base_name e.name) a) found
unfolding assign
assign-none a e found h = rw (h, assign)

pub assign-some :
    (a : Assignment) (e : Found) (found : List Found) (u : ℕ)
    → lookup (base_name e.name) a.uids ≡ some u
    → assign a (e ∷ found) ≡ assign a found
unfolding assign
assign-some a e found u h = rw (h, assign)

pub assign-Extends :
    (a : Assignment) (found : List Found)
    → IsConsistent a.uids a.next
    → a.next + length found < u32_mod
    → Extends a (assign a found) × All (HasUid (assign a found).uids) found
assign-Extends a [] c room = (unfold assign in Extends-refl a c, tt)
assign-Extends a (e ∷ found) c room = elim (Option-cases (lookup (base_name e.name) a.uids)) [
  | inl unknown ↦
      let one : Extends a (new_uid (base_name e.name) a) =
        new_uid-Extends (base_name e.name) a unknown (omega arith) c in
      let rest : Extends (new_uid (base_name e.name) a)
            (assign (new_uid (base_name e.name) a) found)
          × All (HasUid (assign (new_uid (base_name e.name) a) found).uids) found =
        assign-Extends (new_uid (base_name e.name) a) found one.consistent (omega arith) in
      subst (λ b. Extends a b × All (HasUid b.uids) (e ∷ found))
        (sym (assign-none a e found unknown))
        (
          Extends-trans a (new_uid (base_name e.name) a) _ one rest.0,
          (
            (
              a.next,
              rest.0.kept (base_name e.name) a.next (
                  ground (
                    arith,
                    lookup-insert (base_name e.name) (base_name e.name) a.next a.uids,
                    text_eq_refl (base_name e.name),
                  )),
            ),
            rest.1,
          ),
        )
  | inr (u, known) ↦
      let rest : Extends a (assign a found) × All (HasUid (assign a found).uids) found =
        assign-Extends a found c (omega arith) in
      subst (λ b. Extends a b × All (HasUid b.uids) (e ∷ found))
        (sym (assign-some a e found u known))
        (rest.0, ((u, rest.0.kept (base_name e.name) u known), rest.1))
]
