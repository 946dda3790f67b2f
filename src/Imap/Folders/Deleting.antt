-- ===== src/Imap/Folders/Deleting.antt =====
-- What DELETE removes from the disk.
use mathlib.Core.List.{reverse-reverse}
use verta.Common.{
  String, Text, codes, has_byte, text_eq, to_lower, trim_space, reverse, true, false, List, [], ◌∷◌,
  ◌++◌, Option, none, some, ◌≡◌, ◌≢◌, refl, arith, ap, ◌∙◌, sym, subst, Bool-cases, inl, inr,
}
use verta.Maildir.Folders.{DirPath, is_below, on_disk, folder_dir, delete_folder, is_inbox}
use verta.Maildir.Folders.Removing.{
  delete_folder_lem, folder_dir-inside, folder_dir-outside, not-is_inbox, delete_folder_succeeds,
}
use verta.Imap.Commands.{normalize_mailbox, trim_dots}
use verta.Imap.Session.{Env, Session}
use verta.Imap.Folders.{FolderError, delete_named, changed}

-- The disk after DELETE of a name.
abbrev pub disk_after : Env → Session → Text → List DirPath
disk_after e s name = (delete_named e s name).disk

changed-disk :
    (e : Env) (s : Session) (good : String) (r : List DirPath × Option FolderError)
    → (changed e s good r).disk ≡ r.0
unfolding changed
changed-disk e s good (disk, none) = refl
changed-disk e s good (disk, some err) = refl

module _ (e : Env) (s : Session) (name : Text) where
  -- The name of the folder, and its removal.
  abbrev pub folder : Text
  folder = normalize_mailbox name

  abbrev pub removal : List DirPath × Option FolderError
  removal = delete_folder e.gone e.disk s.root folder

  disk_after_lem : disk_after e s name ≡ removal.0
  unfolding delete_named
  disk_after_lem = changed-disk e s _ removal

trim_dots-head : (s t : Text) → trim_dots s ≢ b'.' ∷ t
unfolding trim_dots
trim_dots-head [] t h = cc
trim_dots-head (c ∷ s) t h = ground (arith, h, trim_dots-head s t)

normalize_mailbox-no_dot : (name : Text) → normalize_mailbox name ≢ codes "."
unfolding normalize_mailbox
normalize_mailbox-no_dot name h =
    elim (Bool-cases (text_eq (to_lower (trim_space name)) (codes "inbox"))) [
      | inl inbox ↦ ground (arith, h, inbox)
      | inr other ↦
          let v = trim_dots (reverse (trim_dots (trim_space name))) in
          let e : reverse v ≡ codes "." = ground (arith, h, other) in
          trim_dots-head (reverse (trim_dots (trim_space name))) []
            (sym (reverse-reverse v) ∙ ap reverse e)
    ]

-- Let a name, trimmed, be neither empty nor INBOX nor have a slash. DELETE leaves every directory
-- that is not at or below the folder's own one, right below the root of the account, as it was;
-- and if it succeeds, none at or below that one is left.
pub delete_named-inside :
    (e : Env) (s : Session) (name : Text) (p : DirPath)
    → normalize_mailbox name ≢ []
    → is_inbox (normalize_mailbox name) ≡ false
    → has_byte b'/' (normalize_mailbox name) ≡ false
    → (is_below ((b'.' ∷ normalize_mailbox name) ∷ s.root) p ≡ false
        → on_disk p (disk_after e s name) ≡ on_disk p e.disk)
      × ((removal e s name).1 ≡ none
          → is_below ((b'.' ∷ normalize_mailbox name) ∷ s.root) p ≡ true
          → on_disk p (disk_after e s name) ≡ false)
delete_named-inside e s name p full inbox solid =
    subst
      (λ d.
        (is_below d p ≡ false → on_disk p (disk_after e s name) ≡ on_disk p e.disk)
        × ((removal e s name).1 ≡ none
            → is_below d p ≡ true
            → on_disk p (disk_after e s name) ≡ false))
      (folder_dir-inside s.root (normalize_mailbox name) full (normalize_mailbox-no_dot name) inbox
        solid)
      (subst
        (λ (after : List DirPath).
          (is_below (folder_dir s.root (normalize_mailbox name)) p ≡ false
            → on_disk p after ≡ on_disk p e.disk)
          × ((removal e s name).1 ≡ none
              → is_below (folder_dir s.root (normalize_mailbox name)) p ≡ true
              → on_disk p after ≡ false))
        (sym (disk_after_lem e s name))
        (delete_folder_lem e.gone e.disk s.root (normalize_mailbox name) p))

removes :
    (e : Env) (s : Session) (name : Text) (d p : DirPath)
    → folder_dir s.root (normalize_mailbox name) ≡ d
    → is_inbox (normalize_mailbox name) ≡ false
    → ((q : DirPath) → e.gone q ≡ true)
    → on_disk d e.disk ≡ true
    → is_below d p ≡ true
    → on_disk p (disk_after e s name) ≡ false
removes e s name d p leads inbox gone there below =
    let here : on_disk (folder_dir s.root (normalize_mailbox name)) e.disk ≡ true =
      ap (λ q. on_disk q e.disk) leads ∙ there in
    let under : is_below (folder_dir s.root (normalize_mailbox name)) p ≡ true =
      ap (λ q. is_below q p) leads ∙ below in
    ap (on_disk p) (disk_after_lem e s name)
    ∙ (delete_folder_lem e.gone e.disk s.root (normalize_mailbox name) p).1
        (delete_folder_succeeds e.gone e.disk s.root (normalize_mailbox name) inbox here gone) under

-- Let every removal work. DELETE of a name from which nothing is left when white space and dots
-- are cut from its ends removes the root of the account, if it is there, with every directory
-- below it.
pub delete_named-empty :
    (e : Env) (s : Session) (name : Text) (p : DirPath)
    → normalize_mailbox name ≡ []
    → ((q : DirPath) → e.gone q ≡ true)
    → on_disk s.root e.disk ≡ true
    → is_below s.root p ≡ true
    → on_disk p (disk_after e s name) ≡ false
unfolding folder_dir is_inbox
delete_named-empty e s name p empty =
    removes e s name s.root p (ap (folder_dir s.root) empty) (ap is_inbox empty)

-- Let every removal work. DELETE of a folder's name without a slash, then "/../../", then the
-- name of a directory beside the root of the account, removes that directory, if it is there,
-- with every one below it.
pub delete_named-outside :
    (e : Env) (s : Session) (name inside victim user : Text) (base p : DirPath)
    → s.root ≡ user ∷ base
    → normalize_mailbox name ≡ inside ++ (codes "/../../" ++ victim)
    → inside ≢ []
    → inside ≢ codes "."
    → has_byte b'/' inside ≡ false
    → has_byte b'/' victim ≡ false
    → victim ≢ []
    → victim ≢ codes "."
    → victim ≢ codes ".."
    → ((q : DirPath) → e.gone q ≡ true)
    → on_disk (victim ∷ base) e.disk ≡ true
    → is_below (victim ∷ base) p ≡ true
    → on_disk p (disk_after e s name) ≡ false
delete_named-outside e s name inside victim user base p root climbs full dot solid solid' a b c =
    removes e s name (victim ∷ base) p
      (ap (folder_dir s.root) climbs
        ∙ ap (λ r. folder_dir r (inside ++ (codes "/../../" ++ victim))) root
        ∙ folder_dir-outside user victim inside base full dot solid solid' a b c)
      (ap is_inbox climbs ∙ not-is_inbox inside (codes "../../" ++ victim))
