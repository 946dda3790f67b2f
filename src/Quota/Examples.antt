-- ===== src/Quota/Examples.antt =====
-- A mailbox whose usage is cached, and the theorem of the component at it.
use verta.Common.{text_eq, ℕ, ◌+◌, ◌≡◌, refl, Text, codes, lookup, List, [], ◌∷◌, none, arith}
use verta.Quota.{Entry, Manager, get}
use verta.Quota.Cached.{add_all, delivered, get-add_all}

abbrev entry : Entry
entry = record { bytes = 100; at_time = 5 }

abbrev manager : Manager
manager = record { ttl = 60; cache = (codes "ann", entry) ∷ [] }

abbrev deliveries : List (Text × ℕ)
deliveries = (codes "ann", 7) ∷ (codes "bob", 9) ∷ (codes "ann", 3) ∷ []

get-add_all_example :
    get (add_all manager deliveries) (codes "ann") 9 none
    ≡ (add_all manager deliveries, 100 + delivered (codes "ann") deliveries)
unfolding text_eq
get-add_all_example =
    get-add_all manager (codes "ann") entry deliveries 9 none (unfold lookup in refl) (omega arith)
