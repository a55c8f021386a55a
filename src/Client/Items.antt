-- ===== src/Client/Items.antt =====
-- What the cache holds of an item of the file system: `Directory`, `SymLink` and `File::merge` of
-- client/src/fs_model/, and `CacheItem` of client/src/cache.rs.
use remote_file_system.Prelude.{
  ◌*◌, ◌%◌, ◌^◌, ◌||◌, Option, none, some, List, [], ◌∷◌, length, slice, add_usize, ltb, leb, ◌==◌,
  if◌then◌else◌,
}
use remote_file_system.Paths.{Text}
use remote_file_system.Client.Attributes.{Attributes}
use remote_file_system.Client.Pages.{Limits, Content, File, write_content}
use mathlib.Core.Option

pub record Directory : Type 0 where
  pub name : Text
  pub attributes : Option Attributes
  pub children : Option (List Text)

pub record SymLink : Type 0 where
  pub name : Text
  pub attributes : Option Attributes
  pub target : Option Text

-- `Option` fields of a merge: what the newer item has replaces what the older had.
abbrev pub newer {ℓ} : {A : Type ℓ} → Option A → Option A → Option A
newer old none = old
newer old (some a) = some a

unfoldable pub merge_directory : Directory → Directory → Directory
merge_directory old other = record old {
  attributes = newer old.attributes other.attributes;
  children = newer old.children other.children;
}

unfoldable pub merge_symlink : SymLink → SymLink → SymLink
merge_symlink old other = record old {
  attributes = newer old.attributes other.attributes;
  target = newer old.target other.target;
}

-- The loop of `File::merge` over the pages of the other file; `none` is a panic.
unfoldable pub merge_pages : Limits → File → Content → Option File
merge_pages l f [] = some f
merge_pages l f ((key, page) ∷ pages) =
    let from = add_usize (key * l.page_size % 2 ^ 64) page.valid_from in
    if l.max_pages == 0 || leb l.max_pages (length f.content)
    then some f
    else if ltb page.valid_up_to page.valid_from
    then none
    else elim (write_content l f from (slice page.content page.valid_from page.valid_up_to)) [
      | none ↦ none
      | some f' ↦ merge_pages l f' pages
    ]

unfoldable pub merge_file : Limits → File → File → Option File
merge_file l f other =
    merge_pages l (record f { attributes = newer f.attributes other.attributes }) other.content

pub data CacheItem : Type 0 where
  file : File → CacheItem
  sym_link : SymLink → CacheItem
  directory : Directory → CacheItem

unfoldable pub rename : CacheItem → Text → CacheItem
rename (file f) name = file (record f { name = name })
rename (sym_link s) name = sym_link (record s { name = name })
rename (directory d) name = directory (record d { name = name })

unfoldable pub get_attributes : CacheItem → Option Attributes
get_attributes (file f) = f.attributes
get_attributes (sym_link s) = s.attributes
get_attributes (directory d) = d.attributes

unfoldable pub invalidate_attributes : CacheItem → CacheItem
invalidate_attributes (file f) = file (record f { attributes = none })
invalidate_attributes (sym_link s) = sym_link (record s { attributes = none })
invalidate_attributes (directory d) = directory (record d { attributes = none })

-- The item of an entry after `CacheEntry::update`; `none` is a panic.
unfoldable pub update_item : Limits → CacheItem → CacheItem → Option CacheItem
update_item l (file old) (file other) = Option.map file (merge_file l old other)
update_item l (directory old) (directory other) = some (directory (merge_directory old other))
update_item l (sym_link old) (sym_link other) = some (sym_link (merge_symlink old other))
update_item l old replacer = some replacer
