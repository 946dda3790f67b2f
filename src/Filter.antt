-- ===== src/Filter.antt =====
-- internal/filter/filter.go: the delivery rules of a mailbox. What net/mail reads from a message, the
-- text of a header by its name, is a parameter; a message that it cannot read has no headers.
pub mod Rules
mod Examples
use verta.Common.{
  ℕ, Text, Bool, true, false, ◌&&◌, ◌||◌, not, if◌then◌else◌, List, [], ◌∷◌, ◌++◌, Option, none,
  some, leb, ltb, text_eq, to_lower, has_prefix, cut, trim_space, length, codes, ℤ, pos, negsuc,
}
use verta.Smtp.Session.{Filtered}

pub record Rule : Type 0 where
  pub from_has : Text
  pub to_has : Text
  pub subject_has : Text
  pub header_has : Text
  pub larger_than : ℤ
  pub folder : Text
  pub junk : Bool
  pub seen : Bool
  pub flagged : Bool
  pub forward_to : Text
  pub discard : Bool
  pub stop : Bool

-- strings.Contains, the sub-text first.
unfoldable pub contains : Text → Text → Bool
unfolding has_prefix
contains sub [] = has_prefix sub []
contains sub (c ∷ s) = has_prefix sub (c ∷ s) || contains sub s

unfoldable pub contains_fold : Text → Text → Bool
unfolding contains to_lower
contains_fold s sub = contains (to_lower sub) (to_lower s)

-- Whether a size limit that is set keeps a message of this size out.
unfoldable pub too_small : ℤ → ℕ → Bool
too_small (pos n) size = ltb 0 n && leb size n
too_small (negsuc n) size = false

-- "Name: substring" against the headers.
unfoldable pub header_fits : (Text → Text) → Option (Text × Text) → Bool
unfolding contains_fold trim_space
header_fits get none = false
header_fits get (some (name, want)) = contains_fold (get (trim_space name)) (trim_space want)

unfoldable pub matches : (Text → Text) → ℕ → Rule → Bool
unfolding contains_fold too_small header_fits cut text_eq
matches get size r =
    if not (text_eq r.from_has []) && not (contains_fold (get (codes "From")) r.from_has)
    then false
    else if not (text_eq r.to_has [])
        && not (contains_fold (get (codes "To")) r.to_has)
        && not (contains_fold (get (codes "Cc")) r.to_has)
    then false
    else if not (text_eq r.subject_has [])
        && not (contains_fold (get (codes "Subject")) r.subject_has)
    then false
    else if not (text_eq r.header_has []) && not (header_fits get (cut (codes ":") r.header_has))
    then false
    else not (too_small r.larger_than size)

abbrev pub no_outcome : Filtered
no_outcome = record {
  discard = false;
  folder = [];
  junk = false;
  seen = false;
  flagged = false;
  forward_to = [];
}

-- The actions of a rule that matched.
unfoldable pub act : Filtered → Rule → Filtered
unfolding text_eq
act out r = record {
  discard = if r.discard then true else out.discard;
  folder = if not (text_eq r.folder []) then r.folder else out.folder;
  junk = if r.junk then true else out.junk;
  seen = if r.seen then true else out.seen;
  flagged = if r.flagged then true else out.flagged;
  forward_to =
      if not (text_eq r.forward_to []) then out.forward_to ++ r.forward_to ∷ [] else out.forward_to;
}

unfoldable pub apply_from : (Text → Text) → ℕ → Filtered → List Rule → Filtered
unfolding matches act
apply_from get size out [] = out
apply_from get size out (r ∷ rules) =
    let acted = act out r in
    let stepped = apply_from get size acted rules in
    let skipped = apply_from get size out rules in
    if not (matches get size r) then skipped else if r.stop then acted else stepped

-- Apply: `headers` reads the header block of a message.
unfoldable pub apply : (Text → Text → Text) → List Rule → Text → Filtered
unfolding apply_from
apply headers rules msg = apply_from (headers msg) (length msg) no_outcome rules
