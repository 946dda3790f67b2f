-- ===== src/Filter/Examples.antt =====
-- Rules that file, flag and stop, and the theorem of the component at them.
use verta.Common.{Text, codes, true, false, [], ◌∷◌, List, ◌≡◌, refl, pos}
use verta.Filter.{Rule, apply, apply_from, no_outcome, matches, act}
use verta.Filter.Rules.{combined, fired, apply-fired}

abbrev no_rule : Rule
no_rule = record {
  from_has = [];
  to_has = [];
  subject_has = [];
  header_has = [];
  larger_than = pos 0;
  folder = [];
  junk = false;
  seen = false;
  flagged = false;
  forward_to = [];
  discard = false;
  stop = false;
}

-- The boss is flagged, lists are filed and end the evaluation, everything else is junk.
abbrev rules : List Rule
rules =
    record no_rule { from_has = codes "boss@"; flagged = true }
    ∷ record no_rule { header_has = codes "List-Id: news"; folder = codes "News"; stop = true }
    ∷ record no_rule { junk = true }
    ∷ []

-- The text stands for its headers: any header of a message is the message.
abbrev headers : Text → Text → Text
headers msg name = msg

apply_run :
    apply headers rules (codes "the news of boss@")
    ≡ record no_outcome { folder = codes "News"; flagged = true }
unfolding apply apply_from matches act
apply_run = refl

apply-fired_example :
    apply headers rules (codes "the news of boss@")
    ≡ combined no_outcome (fired (headers (codes "the news of boss@")) 17 rules)
apply-fired_example = apply-fired headers rules (codes "the news of boss@")
