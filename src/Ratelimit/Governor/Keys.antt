-- ===== src/Ratelimit/Governor/Keys.antt =====
-- The rate that a rule of internal/ratelimit/governor.go enforces for one value.
use verta.Common.{
  ◌≢◌, text_eq_refl, ℕ, ◌+◌, ◌-◌, ◌*◌, ◌≤◌, ◌≡◌, refl, sym, ap, ◌∙◌, Text, text_eq, text_eq_iff,
  lookup, lookup-insert, Option, none, some, List, [], ◌∷◌, Bool, true, false, ◌&&◌, not,
  if◌then◌else◌, arith, Bool-cases, Option-cases, inl, inr,
}
use verta.Ratelimit.{Limiter, allow, new_limiter}
use verta.Ratelimit.Rate.{mul_mono, Clocked, end_time, admitted, admitted_rate}
use verta.Ratelimit.Governor.{Keyed, count, allow_keyed}

-- The limiter that counts a value: its own, or the generic one.
abbrev pub limiter_of : Keyed → Text → Option Limiter
limiter_of k value = elim (lookup value k.over) [ some l ↦ some l | none ↦ k.generic ]

-- Whether a value has a limiter of its own.
abbrev pub has_own : Keyed → Text → Bool
has_own k value = elim (lookup value k.over) [ some l ↦ true | none ↦ false ]

-- Whether a call for a key goes to the limiter that counts the value.
abbrev pub shares : (Text → Bool) → Text → Text → Bool
shares own value key =
    not (text_eq key []) && (if own value then text_eq key value else not (own key))

abbrev pub sharing : (Text → Bool) → Text → List (Text × ℕ) → List (Text × ℕ)
sharing own value [] = []
sharing own value ((key, now) ∷ calls) =
    let later = sharing own value calls in
    if shares own value key then (key, now) ∷ later else later

-- How many of the calls were for the value and were admitted.
abbrev pub admitted_keyed : Text → Option Keyed → List (Text × ℕ) → ℕ
admitted_keyed value k [] = 0
admitted_keyed value k ((key, now) ∷ calls) =
    (if text_eq key value && (allow_keyed k key now).1 then 1 else 0)
    + admitted_keyed value (allow_keyed k key now).0 calls

count-has_own : (k : Keyed) (key u : Text) (now : ℕ) → has_own (count k key now).0 u ≡ has_own k u
unfolding count
count-has_own k key u now = elim (Option-cases (lookup key k.over)) [
  | inr (l, e) ↦
      rw (count, e)
        (ground (arith, lookup-insert key u (allow l key now).0 k.over, text_eq_iff key u, e))
  | inl e ↦ elim (Option-cases k.generic) [
    | inr (l, g) ↦ rw (count, e, g) refl
    | inl g ↦ rw (count, e, g) refl
  ]
]

count_generic :
    (k : Keyed) (key : Text) (l : Limiter) (now : ℕ)
    → lookup key k.over ≡ none
    → k.generic ≡ some l
    → count k key now ≡ (record k { generic = some (allow l key now).0 }, (allow l key now).1)
unfolding count
count_generic k key l now f g = rw (count, f, g) refl

-- A call that goes to the limiter of the value.
count_shared :
    (k : Keyed) (key value : Text) (l : Limiter) (now : ℕ)
    → limiter_of k value ≡ some l
    → shares (has_own k) value key ≡ true
    → ((count k key now).1 ≡ (allow l key now).1)
      × (limiter_of (count k key now).0 value ≡ some (allow l key now).0)
unfolding count
count_shared k key value l now e s = elim (Option-cases (lookup key k.over)) [
  | inr (mine, f) ↦ elim (Bool-cases (text_eq key value)) [
    | inl same ↦
        let hit : mine ≡ l = ground (arith, e, f, (text_eq_iff key value).0 same) in
        rw (count, f)
          (ground (arith, hit, lookup-insert key value (allow mine key now).0 k.over, same))
    | inr different ↦ ground (arith, e, f, s, different)
  ]
  | inl f ↦ elim (Option-cases (lookup value k.over)) [
    | inr (its, g) ↦ ground (arith, e, f, g, s, text_eq_iff key value)
    | inl g ↦
        let h : k.generic ≡ some l = rw (limiter_of, g) at e in
        let called = count_generic k key l now f h in
        (ap (λ p. p.1) called, ap (λ p. limiter_of p.0 value) called ∙ rw (limiter_of, g) refl)
  ]
]

-- A call that goes to another limiter.
count_apart :
    (k : Keyed) (key value : Text) (l : Limiter) (now : ℕ)
    → limiter_of k value ≡ some l
    → text_eq key [] ≡ false
    → shares (has_own k) value key ≡ false
    → limiter_of (count k key now).0 value ≡ some l
unfolding count
count_apart k key value l now e n s = elim (Option-cases (lookup key k.over)) [
  | inr (mine, f) ↦ elim (Bool-cases (text_eq key value)) [
    | inl same ↦ ground (arith, e, f, s, n, same, (text_eq_iff key value).0 same)
    | inr different ↦
        rw (count, f)
          (ground (arith, e, lookup-insert key value (allow mine key now).0 k.over, different))
  ]
  | inl f ↦ elim (Option-cases (lookup value k.over)) [
    | inl g ↦ ground (arith, f, g, n, s)
    | inr (its, g) ↦ elim (Option-cases k.generic) [
      | inl h ↦ rw (count, f, h) e
      | inr (m, h) ↦ rw (count, f, h, limiter_of, g) (rw (limiter_of, g) at e)
    ]
  ]
]

true_not_false : true ≢ false
true_not_false = λ e. cc

shares_own :
    (own : Text → Bool) (value : Text) → text_eq value [] ≡ false → shares own value value ≡ true
shares_own own value h = elim (Bool-cases (own value)) [
  | inl mine ↦ rw (mine, h) (text_eq_refl value)
  | inr generic ↦ rw (generic, h) refl
]

shares_same :
    (f g : Text → Bool) (value key : Text)
    → ((u : Text) → f u ≡ g u)
    → shares f value key ≡ shares g value key
shares_same f g value key h = rw (h value, h key) refl

empty_differs :
    (key value : Text)
    → text_eq key [] ≡ true
    → text_eq value [] ≡ false
    → text_eq key value ≡ false
empty_differs key value h n = ground (arith, h, n, text_eq_iff key value)

apart_differs :
    (own : Text → Bool) (key value : Text)
    → shares own value key ≡ false
    → text_eq value [] ≡ false
    → text_eq key value ≡ false
apart_differs own key value s n = elim (Bool-cases (text_eq key value)) [
  | inr different ↦ different
  | inl same ↦ absurd (
      true_not_false (
        sym (shares_own own value n)
        ∙ ap (shares own value) (sym ((text_eq_iff key value).0 same))
        ∙ s))
]

-- A value is counted as its limiter alone counts it, over the calls that go to that limiter.
admitted_keyed-sharing :
    (own : Text → Bool) (value : Text) (k : Keyed) (l : Limiter) (calls : List (Text × ℕ))
    → ((u : Text) → has_own k u ≡ own u)
    → limiter_of k value ≡ some l
    → text_eq value [] ≡ false
    → admitted_keyed value (some k) calls ≡ admitted value l (sharing own value calls)
unfolding allow_keyed
admitted_keyed-sharing own value k l [] o e n = refl
admitted_keyed-sharing own value k l ((key, now) ∷ calls) o e n =
    elim (Bool-cases (text_eq key [])) [
      | inl empty ↦
          rw (empty_differs key value empty n, empty)
            (omega (arith, admitted_keyed-sharing own value k l calls o e n))
      | inr full ↦ elim (Bool-cases (shares own value key)) [
        | inl shared ↦
            let step =
              count_shared k key value l now e (shares_same (has_own k) own value key o ∙ shared) in
            rw (shared, full, step.0)
              (ap (λ r. (if text_eq key value && (allow l key now).1 then 1 else 0) + r)
                (admitted_keyed-sharing own value (count k key now).0 (allow l key now).0 calls
                  (λ u. count-has_own k key u now ∙ o u) step.1 n))
        | inr other ↦
            rw (other, full, apart_differs own key value other n)
              (omega (
                arith,
                admitted_keyed-sharing own value (count k key now).0 l calls
                    (λ u. count-has_own k key u now ∙ o u)
                    (count_apart k key value l now e full
                      (shares_same (has_own k) own value key o ∙ other))
                    n,
              ))
      ]
    ]

Clocked-earlier :
    (t now : ℕ) (calls : List (Text × ℕ))
    → t ≤ now
    → Clocked now calls
    → Clocked t calls × (end_time t calls ≤ end_time now calls)
Clocked-earlier t now [] h c = (tt, h)
Clocked-earlier t now ((key, later) ∷ calls) h c = ((omega (arith, h, c.0), c.1), omega arith)

Clocked-sharing :
    (own : Text → Bool) (value : Text) (t : ℕ) (calls : List (Text × ℕ))
    → Clocked t calls
    → Clocked t (sharing own value calls)
      × (end_time t (sharing own value calls) ≤ end_time t calls)
Clocked-sharing own value t [] h = (tt, omega arith)
Clocked-sharing own value t ((key, now) ∷ calls) h = elim (Bool-cases (shares own value key)) [
  | inl shared ↦
      let later = Clocked-sharing own value now calls h.1 in rw shared ((h.0, later.0), later.1)
  | inr other ↦
      let earlier = Clocked-earlier t now calls h.0 h.1 in
      let later = Clocked-sharing own value t calls earlier.0 in
      rw other (later.0, omega (arith, later.1, earlier.1))
]

-- Let a value that is not empty be counted by a fresh limiter, its own one where the counter has
-- one for it and the generic one else. For calls whose times do not run back, at most the
-- limiter's burst and, over the time that the calls take, its rate is admitted for the value,
-- whatever other values are called for.
pub admitted_keyed_rate :
    (value : Text) (k : Keyed) (limit window t : ℕ) (calls : List (Text × ℕ))
    → limiter_of k value ≡ some (new_limiter limit window)
    → text_eq value [] ≡ false
    → Clocked t calls
    → admitted_keyed value (some k) calls * window ≤ limit * (window + (end_time t calls - t))
admitted_keyed_rate value k limit window t calls e n h =
    let ours = sharing (has_own k) value calls in
    let clock = Clocked-sharing (has_own k) value t calls h in
    let same =
      admitted_keyed-sharing (has_own k) value k (new_limiter limit window) calls (λ u. refl) e n in
    let rate = admitted_rate value limit window t ours clock.0 in
    let wider =
      mul_mono (window + (end_time t ours - t)) (window + (end_time t calls - t)) limit
        (omega (arith, clock.1)) in
    grind (arith, same, rate, wider)
