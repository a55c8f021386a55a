-- ===== src/Server/Nodes.antt =====
-- The files, links and directories that the server lists: server/src/nodes.rs. The children of a
-- directory are a map from paths; the order of its entries means nothing.
use remote_file_system.Prelude.{Option, none, some, List, [], ◌∷◌, if◌then◌else◌}
use remote_file_system.Paths.{Text, FilePath, same_path, is_utf8, parse}
use remote_file_system.Server.Attributes.Records.{FileAttr}

mutual
  pub data FsItem : Type 0 where
    file : Text → FileAttr → FsItem
    sym_link : Text → FileAttr → FsItem
    directory : Text → FileAttr → Children → FsItem

  pub data Children : Type 0 where
    no_children : Children
    child : FilePath → FsItem → Children → Children

-- The name's bytes, UTF-8 or not.
abbrev pub raw_name : FsItem → Text
raw_name (file name a) = name
raw_name (sym_link name a) = name
raw_name (directory name a c) = name

-- `FSItem::name`; `none` is its panic on a name that is not UTF-8.
unfoldable pub name : FsItem → Option Text
name i = if is_utf8 (raw_name i) then some (raw_name i) else none

unfoldable pub attributes : FsItem → FileAttr
attributes (file name a) = a
attributes (sym_link name a) = a
attributes (directory name a c) = a

unfoldable pub values : Children → List FsItem
values no_children = []
values (child path i c) = i ∷ values c

unfoldable pub get_children : FsItem → Option (List FsItem)
get_children (directory name a c) = some (values c)
get_children _ = none

-- `HashMap::insert`
unfoldable pub insert : FilePath → FsItem → Children → Children
insert path i no_children = child path i no_children
insert path i (child p j c) =
    let rest = insert path i c in if same_path p path then child p i c else child p j rest

-- `Directory::add`; `none` is the panic on the name.
unfoldable pub add_child : Children → FsItem → Option Children
add_child c i = elim (name i) [ none ↦ none | some n ↦ some (insert (parse n) i c) ]

-- `FSItem::add`; `none` is a panic, on the name or on an item that is no directory.
unfoldable pub add : FsItem → FsItem → Option FsItem
add (directory n a c) i = elim (add_child c i) [ none ↦ none | some c' ↦ some (directory n a c') ]
add _ i = none

unfoldable pub lookup : FilePath → Children → Option FsItem
lookup path no_children = none
lookup path (child p i c) = if same_path p path then some i else lookup path c

unfoldable pub get_child : FsItem → FilePath → Option FsItem
get_child (directory n a c) path = lookup path c
get_child _ path = none

-- `HashMap::remove`
unfoldable pub delete : FilePath → Children → Children
delete path no_children = no_children
delete path (child p i c) =
    let rest = delete path c in if same_path p path then rest else child p i rest

-- `FSItem::remove`; `none` is the panic on an item that is no directory.
unfoldable pub remove : FsItem → FilePath → Option FsItem
remove (directory n a c) path = some (directory n a (delete path c))
remove _ path = none

unfoldable pub set_name : FsItem → Text → FsItem
set_name (file n a) m = file m a
set_name (sym_link n a) m = sym_link m a
set_name (directory n a c) m = directory m a c
