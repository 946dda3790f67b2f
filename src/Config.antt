-- ===== src/Config.antt =====
-- The fields of internal/config/config.go that routing and storage read.
use verta.Common.{
  ℕ, zero, suc, ◌-◌, Text, codes, Bool, true, false, List, [], ◌∷◌, ◌++◌, Option, none, some,
  text_eq, has_prefix, length, Dict,
}
use verta.Filter.{Rule}

pub record Storage : Type 0 where
  pub kind : Text
  pub user : Text
  pub home : Text
  pub maildir : Text

pub record Domain : Type 0 where
  pub name : Text
  pub storage : Storage
  pub aliases : Dict (List Text)
  pub catch_all : List Text

-- KeepLocal is nil, or points to a Boolean.
pub record User : Type 0 where
  pub email : Text
  pub maildir : Text
  pub forward_to : List Text
  pub keep_local : Option Bool
  pub filters : List Rule

pub record Config : Type 0 where
  pub domains : List Domain
  pub users : List User
  pub srs_secret : Text

-- strings.ReplaceAll of a text that is not empty; the number counts the bytes that are still skipped.
unfoldable pub replace_all : Text → Text → ℕ → Text → Text
unfolding has_prefix
replace_all old new skip [] = []
replace_all old new (suc skip) (c ∷ s) = replace_all old new skip s
replace_all old new zero (c ∷ s) = elim (has_prefix old (c ∷ s)) [
  | true ↦ new ++ replace_all old new (length old - 1) s
  | false ↦ c ∷ replace_all old new zero s
]

unfoldable pub home_dir : Storage → Text
unfolding text_eq
home_dir s = elim (text_eq s.home []) [
  | false ↦ s.home
  | true ↦ elim (text_eq s.user []) [ false ↦ codes "/home/" ++ s.user | true ↦ [] ]
]

unfoldable pub expand_home : Storage → Text → Text
unfolding replace_all home_dir
expand_home s path = replace_all (codes "{home}") (home_dir s) 0 path

unfoldable pub maildir_path : Storage → Text
unfolding expand_home
maildir_path s = expand_home s s.maildir

unfoldable pub keeps_local_copy : User → Bool
keeps_local_copy u = elim u.keep_local [ none ↦ true | some keep ↦ keep ]
