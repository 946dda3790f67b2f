-- ===== src/Routing/Examples.antt =====
-- A domain with an alias that leads back to itself, and the theorems of the component at it.
use verta.Common.{Text, codes, [], ◌∷◌, List, ◌≡◌, refl, none, Option, All, ℤ}
use verta.Config.{User, Config}
use verta.Storage.{split}
use verta.Routing.{Local, resolve, resolve_at, visit}
use verta.Routing.Reaching.{LocalFrom, RemoteFrom, resolve-Reach}
use verta.Routing.Once.{Apart, resolve-Apart}

abbrev user : Text → List Text → User
user email forward_to = record {
  email = email;
  maildir = codes "/m";
  forward_to = forward_to;
  keep_local = none;
  filters = [];
}

-- "all" goes to both users, to itself and elsewhere; the second user forwards to the first.
abbrev cfg : Config
cfg = record {
  domains =
      record {
        name = codes "here";
        storage = record { kind = []; user = []; home = []; maildir = [] };
        aliases =
            (codes "all", codes "ann" ∷ codes "bob" ∷ codes "all" ∷ codes "eve@there" ∷ []) ∷ [];
        catch_all = [];
      }
      ∷ [];
  users = user (codes "ann@here") [] ∷ user (codes "bob@here") (codes "Ann@Here" ∷ []) ∷ [];
  srs_secret = [];
}

abbrev mac : Text → Text → Text
mac secret message = []

abbrev account : Text → Option (ℤ × ℤ)
account name = none

abbrev emails : List Local → List Text
emails [] = []
emails (l ∷ ls) = l.mailbox.email ∷ emails ls

resolve_run :
    (emails (resolve mac account 0 cfg (codes "All@here")).local
      ≡ codes "ann@here" ∷ codes "bob@here" ∷ [])
    × ((resolve mac account 0 cfg (codes "All@here")).remote ≡ codes "eve@there" ∷ [])
unfolding resolve resolve_at visit
resolve_run = (refl, refl)

resolve-Reach_example :
    All
      (LocalFrom mac account 0 cfg (codes "all") (codes "here"))
      (resolve mac account 0 cfg (codes "all@here")).local
    × All
        (RemoteFrom mac account 0 cfg (codes "all") (codes "here"))
        (resolve mac account 0 cfg (codes "all@here")).remote
resolve-Reach_example =
    resolve-Reach mac account 0 cfg (codes "all@here") (codes "all") (codes "here")
      (unfold split in refl)

resolve-Apart_example : Apart (resolve mac account 0 cfg (codes "all@here")).local
resolve-Apart_example = resolve-Apart mac account 0 cfg (codes "all@here")
