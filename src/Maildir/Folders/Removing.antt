-- ===== src/Maildir/Folders/Removing.antt =====
-- What a deletion leaves on the disk, and where a folder's name leads.
use verta.Common.{
  ℕ, Text, codes, has_byte, split_on, text_eq, text_eq_iff, to_lower, Bool, true, false, ◌&&◌, not,
  List, [], ◌∷◌, ◌++◌, ◌≡◌, ◌≢◌, ◌↔◌, none, arith, Bool-cases, inl, inr, refl, ap, ◌∙◌, sym,
  has_byte-to_lower, ◌==◌, ℕ,
}
use verta.Maildir.Folders.{
  DirPath, path_eq, enter, climb, parent, join_path, is_inbox, folder_dir, is_below, on_disk,
  remove_all, delete_folder, io_result,
}

pub path_eq_iff : (p q : DirPath) → (path_eq p q ≡ true) ↔ (p ≡ q)
unfolding path_eq
path_eq_iff [] [] = ground arith
path_eq_iff (a ∷ p) (b ∷ q) = ground (arith, text_eq_iff a b, path_eq_iff p q)
path_eq_iff [] (b ∷ q) = ground arith
path_eq_iff (a ∷ p) [] = ground arith

-- A directory is left exactly if it was there and is not one that was removed.
pub on_disk-remove_all :
    (gone : DirPath → Bool) (d p : DirPath) (disk : List DirPath)
    → on_disk p (remove_all gone d disk).0 ≡ (on_disk p disk && not (is_below d p && gone p))
unfolding remove_all
on_disk-remove_all gone d p [] = refl
on_disk-remove_all gone d p (q ∷ disk) = elim (Bool-cases (path_eq p q)) [
  | inl same ↦
      rw (← (path_eq_iff p q).0 same)
        (ground (arith, on_disk-remove_all gone d p disk, (path_eq_iff p p).1 refl))
  | inr other ↦ ground (arith, on_disk-remove_all gone d p disk, other)
]

removed_all :
    (gone : DirPath → Bool) (d p : DirPath) (disk : List DirPath)
    → (remove_all gone d disk).1 ≡ true
    → is_below d p ≡ true
    → on_disk p (remove_all gone d disk).0 ≡ false
unfolding remove_all
removed_all gone d p [] h k = refl
removed_all gone d p (q ∷ disk) h k = elim (Bool-cases (path_eq p q)) [
  | inl same ↦
      let below : is_below d q ≡ true = ap (is_below d) (sym ((path_eq_iff p q).0 same)) ∙ k in
      ground (arith, h, below, removed_all gone d p disk)
  | inr other ↦ ground (arith, h, other, removed_all gone d p disk)
]

-- What does not lie below the folder's directory stays as it was; after a success all below is gone.
pub delete_folder_lem :
    (gone : DirPath → Bool) (disk : List DirPath) (root : DirPath) (folder : Text) (p : DirPath)
    → (is_below (folder_dir root folder) p ≡ false
        → on_disk p (delete_folder gone disk root folder).0 ≡ on_disk p disk)
      × ((delete_folder gone disk root folder).1 ≡ none
          → is_below (folder_dir root folder) p ≡ true
          → on_disk p (delete_folder gone disk root folder).0 ≡ false)
unfolding delete_folder io_result
delete_folder_lem gone disk root folder p = (
  λ (out : is_below (folder_dir root folder) p ≡ false).
      ground (arith, on_disk-remove_all gone (folder_dir root folder) p disk),
  λ (done : (delete_folder gone disk root folder).1 ≡ none)
        (below : is_below (folder_dir root folder) p ≡ true).
      ground (arith, removed_all gone (folder_dir root folder) p disk),
)

all_removed :
    (gone : DirPath → Bool) (d : DirPath) (disk : List DirPath)
    → ((q : DirPath) → gone q ≡ true)
    → (remove_all gone d disk).1 ≡ true
unfolding remove_all
all_removed gone d [] h = refl
all_removed gone d (p ∷ disk) h = ground (arith, h p, all_removed gone d disk h)

-- Where the folder's directory is there and every removal works, the deletion is a success.
pub delete_folder_succeeds :
    (gone : DirPath → Bool) (disk : List DirPath) (root : DirPath) (folder : Text)
    → is_inbox folder ≡ false
    → on_disk (folder_dir root folder) disk ≡ true
    → ((q : DirPath) → gone q ≡ true)
    → (delete_folder gone disk root folder).1 ≡ none
unfolding delete_folder io_result
delete_folder_succeeds gone disk root folder inbox there h =
    ground (arith, inbox, there, all_removed gone (folder_dir root folder) disk h)

-- A name without the separator is one component.
split_on-solid : (b : ℕ) (s : Text) → has_byte b s ≡ false → split_on b s ≡ s ∷ []
unfolding split_on
split_on-solid b [] h = refl
split_on-solid b (c ∷ s) h = ground (arith, h, split_on-solid b s)

-- The directory of a name with no slash.
pub folder_dir-inside :
    (root : DirPath) (folder : Text)
    → folder ≢ []
    → folder ≢ codes "."
    → is_inbox folder ≡ false
    → has_byte b'/' folder ≡ false
    → folder_dir root folder ≡ (b'.' ∷ folder) ∷ root
unfolding folder_dir join_path climb enter text_eq
folder_dir-inside root folder full dot inbox solid = ground (
  arith,
  inbox,
  text_eq_iff folder [],
  text_eq_iff (b'.' ∷ folder) (codes "."),
  text_eq_iff (b'.' ∷ folder) (codes ".."),
  split_on-solid b'/' (b'.' ∷ folder),
)

split_on_full :
    (b : ℕ) (s : Text) → (part : Text) × (parts : List Text) × (split_on b s ≡ part ∷ parts)
unfolding split_on
split_on_full b [] = ([], [], refl)
split_on_full b (c ∷ s) =
    let (part, parts, e) = split_on_full b s in
    elim (Bool-cases (c == b)) [
      | inl cut_here ↦ ([], part ∷ parts, rw (e, cut_here) refl)
      | inr kept ↦ (c ∷ part, parts, rw (e, kept) refl)
    ]

split_on-append :
    (b : ℕ) (s t : Text) → has_byte b s ≡ false → split_on b (s ++ b ∷ t) ≡ s ∷ split_on b t
unfolding split_on
split_on-append b [] t h = ground (arith, (split_on_full b t).2)
split_on-append b (c ∷ s) t h = ground (arith, h, split_on-append b s t)

has_byte-append_right : (b : ℕ) (s t : Text) → has_byte b (s ++ b ∷ t) ≡ true
has_byte-append_right b [] t = ground arith
has_byte-append_right b (c ∷ s) t = ground (arith, has_byte-append_right b s t)

pub not-is_inbox : (s t : Text) → is_inbox (s ++ b'/' ∷ t) ≡ false
unfolding is_inbox
not-is_inbox s t = elim (Bool-cases (is_inbox (s ++ b'/' ∷ t))) [
  | inr no_inbox ↦ no_inbox
  | inl h ↦
      let e : to_lower (s ++ b'/' ∷ t) ≡ codes "inbox" =
        (text_eq_iff (to_lower (s ++ b'/' ∷ t)) (codes "inbox")).0 h in
      let slash : has_byte b'/' (codes "inbox") ≡ true =
        ap (has_byte b'/') (sym e)
        ∙ has_byte-to_lower b'/' (s ++ b'/' ∷ t) refl
        ∙ has_byte-append_right b'/' s t in
      absurd (cc slash)
]

-- A name that climbs leads to a sibling of the root.
pub folder_dir-outside :
    (user victim folder : Text) (base : DirPath)
    → folder ≢ []
    → folder ≢ codes "."
    → has_byte b'/' folder ≡ false
    → has_byte b'/' victim ≡ false
    → victim ≢ []
    → victim ≢ codes "."
    → victim ≢ codes ".."
    → folder_dir (user ∷ base) (folder ++ (codes "/../../" ++ victim)) ≡ victim ∷ base
unfolding folder_dir join_path climb enter parent text_eq
folder_dir-outside user victim folder base full dot solid solid' a b c = ground (
  arith,
  not-is_inbox folder (codes "../../" ++ victim),
  text_eq_iff (folder ++ (codes "/../../" ++ victim)) [],
  text_eq_iff (b'.' ∷ folder) (codes "."),
  text_eq_iff (b'.' ∷ folder) (codes ".."),
  text_eq_iff victim [],
  text_eq_iff victim (codes "."),
  text_eq_iff victim (codes ".."),
  split_on-append b'/' (b'.' ∷ folder) (codes "../../" ++ victim),
  split_on-append b'/' (codes "..") (codes "../" ++ victim),
  split_on-append b'/' (codes "..") victim,
  split_on-solid b'/' victim,
)
