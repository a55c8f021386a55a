-- ===== src/Server/Storage/Listing.antt =====
-- `find` of server/src/storage.rs: what is at a path, with the children of a directory.
use remote_file_system.Prelude.{Option, none, some, List, [], ◌∷◌, if◌then◌else◌}
use remote_file_system.Paths.{Text, FilePath, join, file_name, parse}
use remote_file_system.Server.Errors.{StorageError}
use remote_file_system.Server.Attributes.Records.{FileAttr}
use remote_file_system.Action.{Outcome, ok, panicked, and_then}
use remote_file_system.Server.Disk.{Disk, IoResult, done, failed, Metadata}
use remote_file_system.Server.Nodes
use remote_file_system.Server.Nodes.{FsItem, file, sym_link, directory, Children, no_children}
use remote_file_system.Server.Storage.{FileSystem, make_real_path, get_attributes_by_path}

-- `unwrap` of attributes.
abbrev pub unwrap : {A : Type 0} → Outcome StorageError A → Outcome StorageError A
unwrap (ok a) = ok a
unwrap _ = panicked

module _ (disk : Disk) where
  -- The item of what the metadata says is there, but with no children; `none` for other kinds.
  unfoldable pub item_at :
      Text → FilePath → Metadata → disk.World → Outcome StorageError (Option FsItem)
  item_at name path m w =
      let attributes = unwrap (get_attributes_by_path disk path w) in
      if m.is_file
      then and_then attributes (λ a. ok (some (file name a)))
      else if m.is_dir
      then and_then attributes (λ a. ok (some (directory name a no_children)))
      else if m.is_symlink
      then and_then attributes (λ a. ok (some (sym_link name a)))
      else ok none

  -- One entry of a directory: one that cannot be read is left out.
  unfoldable pub item_of_entry :
      FilePath → IoResult Text → disk.World → Outcome StorageError (Option FsItem)
  item_of_entry real (failed e) w = ok none
  item_of_entry real (done name) w =
      let path = join real (parse name) in
      elim (disk.symlink_metadata path w) [ failed e ↦ ok none | done m ↦ item_at name path m w ]

  -- The children so far, with one more.
  unfoldable pub add_entry : Children → Option FsItem → Outcome StorageError Children
  add_entry c none = ok c
  add_entry c (some i) = elim (Nodes.add_child c i) [ none ↦ panicked | some c' ↦ ok c' ]

  unfoldable pub children_of :
      FilePath → List (IoResult Text) → Children → disk.World → Outcome StorageError Children
  children_of real [] c w = ok c
  children_of real (e ∷ es) c w =
      and_then (item_of_entry real e w)
        (λ i. and_then (add_entry c i) (λ c'. children_of real es c' w))

  unfoldable pub list_directory :
      Text → FilePath → FileAttr → disk.World → Outcome StorageError (Option FsItem)
  list_directory name real a w = elim (disk.read_dir real w) [
    | failed e ↦ ok none
    | done entries ↦
        and_then (children_of real entries no_children w) (λ c. ok (some (directory name a c)))
  ]

  unfoldable pub find_named :
      Text → FilePath → Metadata → disk.World → Outcome StorageError (Option FsItem)
  find_named name real m w =
      if m.is_file
      then item_at name real m w
      else if m.is_dir
      then and_then (unwrap (get_attributes_by_path disk real w))
          (λ a. list_directory name real a w)
      else item_at name real m w

  -- A result of `ok none` is the function's `None`.
  unfoldable pub find : FileSystem → FilePath → disk.World → Outcome StorageError (Option FsItem)
  find fs path w =
      let real = make_real_path fs path in
      elim (disk.symlink_metadata real w) [
        | failed e ↦ ok none
        | done m ↦ elim (file_name real) [ none ↦ ok none | some name ↦ find_named name real m w ]
      ]
