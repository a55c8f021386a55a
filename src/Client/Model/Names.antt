-- ===== src/Client/Model/Names.antt =====
-- The methods of client/src/fs_model.rs on names, links, attributes and directories.
use remote_file_system.Prelude.{ℕ, false, Option, none, some, List, [], ◌∷◌, if◌then◌else◌}
use remote_file_system.Paths.{Text, FilePath, root, cur_dir, same_path, parent, file_name, text}
use remote_file_system.Client.Attributes.{Attributes, SetAttr, Stats, RenameFlags}
use remote_file_system.Client.Errors.{FsModelError}
use remote_file_system.Client.Action.{Action, pure, raise, ◌>>=◌, ◌>>◌}
use remote_file_system.Client.Network.{RemoteStorage}
use remote_file_system.Client.Items
use remote_file_system.Client.Items.{CacheItem, file, sym_link, directory}
use remote_file_system.Client.Pages
use remote_file_system.Client.Cache.{put, put_new, invalidate, cache_put_attr}
use remote_file_system.Client.Model.{
  State, path_to_string, ask, cache_get, cache_try, cache_do, cache_remove,
}
use remote_file_system.Client.Model.Data.{is_empty}

unfoldable pub get_parent_path : FilePath → FilePath
get_parent_path path =
    if same_path path root then root else if is_empty path then root else elim (parent path) [
      | none ↦ root
      | some p ↦ if is_empty p then root else if same_path p (cur_dir ∷ []) then root else p
    ]

module _ (env : RemoteStorage) where
  -- `if let (Some(name), Some(cache)) = (path.file_name(), &self.cache)`: the item put is new.
  unfoldable pub store_new : FilePath → (Text → CacheItem) → Action (State env) (Unit {0})
  store_new path item_of = elim (file_name path) [
    | none ↦ pure tt
    | some name ↦ cache_do env (λ c now. put_new c now path (item_of name))
  ]

  unfoldable pub create_file : FilePath → ℕ → List ℕ → Action (State env) Attributes
  create_file path offset bytes = do
    p ← path_to_string path
    a ← ask env (env.write_file p offset bytes)
    store_new path (λ name. file (Pages.new name (some a)))
    pure a

  unfoldable pub mkdir : FilePath → Action (State env) Attributes
  mkdir path = do
    p ← path_to_string path
    a ← ask env (env.mkdir p)
    store_new path
        (λ name. directory (record { name = name; attributes = some a; children = some [] }))
    pure a

  -- What becomes of the item that stood at the old path.
  unfoldable pub store_renamed : FilePath → Option CacheItem → Action (State env) (Unit {0})
  store_renamed new_path none = pure tt
  store_renamed new_path (some item) = store_new new_path (λ name. Items.rename item name)

  unfoldable pub remove_both : FilePath → FilePath → Action (State env) (Unit {0})
  remove_both old_path new_path = do cache_remove env old_path; cache_remove env new_path; pure tt

  unfoldable pub rename : FilePath → FilePath → RenameFlags → Action (State env) (Unit {0})
  rename old_path new_path flags = do
    p ← path_to_string old_path
    q ← path_to_string new_path
    ask env (env.rename p q flags)
    if flags.exchange
        then remove_both old_path new_path
        else do old_item ← cache_remove env old_path; store_renamed new_path old_item

  unfoldable pub remove : FilePath → Action (State env) (Unit {0})
  remove path = do p ← path_to_string path; ask env (env.remove p); cache_remove env path; pure tt

  unfoldable pub set_attributes : FilePath → SetAttr → Action (State env) Attributes
  set_attributes path new_attributes = do
    p ← path_to_string path
    a ← ask env (env.set_attributes p new_attributes)
    cache_try env (λ l c now. cache_put_attr l c now path a)
    pure a

  unfoldable pub get_permissions : FilePath → ℕ → Action (State env) (Unit {0})
  get_permissions path mask = do p ← path_to_string path; ask env (env.get_permissions p mask)

  unfoldable pub get_fs_stats : FilePath → Action (State env) Stats
  get_fs_stats path = do p ← path_to_string path; ask env (env.get_stats p)

  -- The text of the error names the attribute and the path; only its start is kept.
  unfoldable pub get_x_attributes : FilePath → Text → Action (State env) (List ℕ)
  get_x_attributes path name = do
    p ← path_to_string path
    x ← ask env (env.get_x_attributes p name)
    elim x [ some bytes ↦ pure bytes | none ↦ raise (FsModelError.no_data (text "Xattribute")) ]

  unfoldable pub set_x_attributes : FilePath → Text → List ℕ → Action (State env) (Unit {0})
  set_x_attributes path name bytes = do
    p ← path_to_string path
    ask env (env.set_x_attributes p name bytes)

  unfoldable pub list_x_attribute : FilePath → Action (State env) (List Text)
  list_x_attribute path = do p ← path_to_string path; ask env (env.list_x_attributes p)

  unfoldable pub remove_x_attributes : FilePath → Text → Action (State env) (Unit {0})
  remove_x_attributes path name = do
    p ← path_to_string path
    ask env (env.remove_x_attributes p name)

  unfoldable pub create_symlink : FilePath → Text → Action (State env) Attributes
  create_symlink path target = do
    p ← path_to_string path
    a ← ask env (env.create_symlink p target)
    store_new path
        (λ name. sym_link (record { name = name; attributes = some a; target = some target }))
    pure a

  -- The target of a cached link.
  abbrev pub cached_target : Option CacheItem → Option Text
  cached_target (some (sym_link l)) = l.target
  cached_target _ = none

  unfoldable pub read_symlink : FilePath → Action (State env) Text
  read_symlink path = do
    item ← cache_get env path
    elim (cached_target item) [
      | some target ↦ pure target
      | none ↦ do
        p ← path_to_string path
        target ← ask env (env.read_symlink p)
        elim (file_name path) [
          | none ↦ pure tt
          | some name ↦ cache_try env (λ l c now.
              put l c now path
                (sym_link (record { name = name; attributes = none; target = some target })) false)
        ]
        pure target
    ]

  unfoldable pub cache_invalidate : FilePath → Action (State env) (Unit {0})
  cache_invalidate path = cache_do env (λ c _. invalidate c path)
