-- ===== src/Filter/Rules.antt =====
-- The rules of internal/filter/filter.go against what the package's comment says of them.
use verta.Common.{
  ℕ, Text, Bool, true, false, ◌||◌, not, if◌then◌else◌, List, [], ◌∷◌, ◌++◌, text_eq, any, length,
  ◌≡◌, refl, Bool-cases, inl, inr, ◌∙◌, sym,
}
use mathlib.Core.List.{append-nil, append_assoc}
use verta.Smtp.Session.{Filtered}
use verta.Filter.{Rule, matches, act, apply_from, apply, no_outcome}

-- Rules that match, up to the first of them that stops the evaluation.
abbrev pub fired : (Text → Text) → ℕ → List Rule → List Rule
fired get size [] = []
fired get size (r ∷ rules) =
    let rest = fired get size rules in
    if matches get size r then (if r.stop then r ∷ [] else r ∷ rest) else rest

-- The last text that is not empty, or the one given.
abbrev pub last_set : Text → List Text → Text
last_set folder [] = folder
last_set folder (f ∷ folders) = last_set (if text_eq f [] then folder else f) folders

abbrev pub all_set : List Text → List Text
all_set [] = []
all_set (f ∷ texts) = let rest = all_set texts in if text_eq f [] then rest else f ∷ rest

abbrev pub map_rules {ℓ} : {A : Type ℓ} → (Rule → A) → List Rule → List A
map_rules f [] = []
map_rules f (r ∷ rules) = f r ∷ map_rules f rules

-- What rules that fired say together, each field on its own.
abbrev pub combined : Filtered → List Rule → Filtered
combined out rules = record {
  discard = out.discard || any (λ r. r.discard) rules;
  folder = last_set out.folder (map_rules (λ r. r.folder) rules);
  junk = out.junk || any (λ r. r.junk) rules;
  seen = out.seen || any (λ r. r.seen) rules;
  flagged = out.flagged || any (λ r. r.flagged) rules;
  forward_to = out.forward_to ++ all_set (map_rules (λ r. r.forward_to) rules);
}

or_set : (a b c : Bool) → ((if a then true else b) || c) ≡ (b || (a || c))
or_set true true c = refl
or_set true false c = refl
or_set false true c = refl
or_set false false c = refl

set_folder :
    (f folder : Text) (folders : List Text)
    → last_set (if not (text_eq f []) then f else folder) folders ≡ last_set folder (f ∷ folders)
set_folder f folder folders = elim (Bool-cases (text_eq f [])) [
  | inl empty ↦ rw empty refl
  | inr full ↦ rw full refl
]

set_forward :
    (f : Text) (before texts : List Text)
    → (if not (text_eq f []) then before ++ f ∷ [] else before) ++ all_set texts
      ≡ before ++ all_set (f ∷ texts)
set_forward f before texts = elim (Bool-cases (text_eq f [])) [
  | inl empty ↦ rw empty refl
  | inr full ↦ rw full (append_assoc before (f ∷ []) (all_set texts))
]

combined-act :
    (out : Filtered) (r : Rule) (rules : List Rule)
    → combined (act out r) rules ≡ combined out (r ∷ rules)
unfolding act
combined-act out r rules = λ i. record {
  discard = or_set r.discard out.discard (any (λ q. q.discard) rules) i;
  folder = set_folder r.folder out.folder (map_rules (λ q. q.folder) rules) i;
  junk = or_set r.junk out.junk (any (λ q. q.junk) rules) i;
  seen = or_set r.seen out.seen (any (λ q. q.seen) rules) i;
  flagged = or_set r.flagged out.flagged (any (λ q. q.flagged) rules) i;
  forward_to = set_forward r.forward_to out.forward_to (map_rules (λ q. q.forward_to) rules) i;
}

or_false : (a : Bool) → a ≡ (a || false)
or_false true = refl
or_false false = refl

combined-nil : (out : Filtered) → out ≡ combined out []
combined-nil out = λ i. record {
  discard = or_false out.discard i;
  folder = out.folder;
  junk = or_false out.junk i;
  seen = or_false out.seen i;
  flagged = or_false out.flagged i;
  forward_to = sym (append-nil out.forward_to) i;
}

apply_from-fired :
    (get : Text → Text) (size : ℕ) (out : Filtered) (rules : List Rule)
    → apply_from get size out rules ≡ combined out (fired get size rules)
unfolding apply_from
apply_from-fired get size out [] = combined-nil out
apply_from-fired get size out (r ∷ rules) = elim (Bool-cases (matches get size r)) [
  | inr no_match ↦ rw no_match (apply_from-fired get size out rules)
  | inl hit ↦ elim (Bool-cases r.stop) [
    | inl stops ↦ rw (hit, stops) (combined-nil (act out r) ∙ combined-act out r [])
    | inr goes_on ↦
        rw (hit, goes_on)
          (apply_from-fired get size (act out r) rules ∙ combined-act out r (fired get size rules))
  ]
]

-- Applying the rules of a mailbox one after the other is the same as taking the rules that match,
-- up to the first of them that stops the evaluation, and deciding each field of the outcome on
-- its own: the message is discarded, junk, seen or flagged exactly if some of those rules says
-- so, its folder is the last one that they name, and it is forwarded to every address that they
-- name, in their order.
pub apply-fired :
    (headers : Text → Text → Text) (rules : List Rule) (msg : Text)
    → apply headers rules msg ≡ combined no_outcome (fired (headers msg) (length msg) rules)
unfolding apply
apply-fired headers rules msg = apply_from-fired (headers msg) (length msg) no_outcome rules
