-- ===== src/Client/Model/Listing.antt =====
-- `readdir` of client/src/fs_model.rs.
use remote_file_system.Prelude.{false, Option, none, some, List, [], ◌∷◌, map}
use remote_file_system.Paths.{Text, FilePath, file_name, join_name, text}
use remote_file_system.Client.Action.{Action, pure, ◌>>=◌, ◌>>◌}
use remote_file_system.Client.Network.{
  RemoteStorage, SerializableFsItem, directory_type, item_of_serializable, serializable_of_item,
}
use remote_file_system.Client.Items.{CacheItem, directory}
use remote_file_system.Client.Cache.{put}
use remote_file_system.Client.Model.{State, path_to_string, ask, cache_get, cache_try}
use remote_file_system.Client.Model.Data.{get_attributes}
use remote_file_system.Client.Model.Names.{get_parent_path}
use mathlib.Core.Option.{bind}

module _ (env : RemoteStorage) where
  -- The loop over the children of a cached directory; `none` is a miss.
  unfoldable pub cached_children :
      FilePath → List Text → Action (State env) (Option (List SerializableFsItem))
  cached_children path [] = pure (some [])
  cached_children path (child ∷ children) = do
    item ← cache_get env (join_name path child)
    elim (bind item serializable_of_item) [
      | none ↦ pure none
      | some first ↦ do
        rest ← cached_children path children
        pure (elim rest [ none ↦ none | some items ↦ some (first ∷ items) ])
    ]

  -- What the cache knows of the directory's children.
  unfoldable pub children_of :
      FilePath → Option CacheItem → Action (State env) (Option (List SerializableFsItem))
  children_of path (some (directory d)) = elim d.children [
    | none ↦ pure none
    | some names ↦ cached_children path names
  ]
  children_of path _ = pure none

  -- An entry for the directory itself or for its parent.
  unfoldable pub dot_entry : Text → FilePath → Action (State env) SerializableFsItem
  dot_entry name path = do
    a ← get_attributes env path
    pure (record { name = name; item_type = directory_type; attributes = a })

  -- The entries `.` and `..`, then the others.
  unfoldable pub with_dots :
      FilePath → List SerializableFsItem → Action (State env) (List SerializableFsItem)
  with_dots path items = do
    own ← dot_entry (text ".") path
    above ← dot_entry (text "..") (get_parent_path path)
    pure (own ∷ above ∷ items)

  unfoldable pub list_path : FilePath → Action (State env) (List SerializableFsItem)
  list_path path = do p ← path_to_string path; ask env (env.list_path p)

  unfoldable pub put_children : FilePath → List SerializableFsItem → Action (State env) (Unit {0})
  put_children path [] = pure tt
  put_children path (e ∷ es) = do
    cache_try env (λ l c now. put l c now (join_name path e.name) (item_of_serializable e) false)
    put_children path es

  -- The branch of `readdir` on a cache miss.
  unfoldable pub list_remote : FilePath → Action (State env) (List SerializableFsItem)
  list_remote path = do
    elements ← list_path path
    a ← get_attributes env path
    cache_try env (λ l c now.
        put l c now path
          (directory (record {
            name = elim (file_name path) [ none ↦ [] | some n ↦ n ];
            attributes = some a;
            children = some (map (λ e. e.name) elements);
          }))
          false)
    put_children path elements
    with_dots path elements

  unfoldable pub readdir : FilePath → Action (State env) (List SerializableFsItem)
  readdir path = do
    item ← cache_get env path
    hit ← children_of path item
    elim hit [ some items ↦ with_dots path items | none ↦ list_remote path ]
