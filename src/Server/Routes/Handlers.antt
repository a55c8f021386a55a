-- ===== src/Server/Routes/Handlers.antt =====
-- The handlers: server/src/routes.rs.
use remote_file_system.Prelude.{ℕ, Bool, Option, none, some, List, [], ◌∷◌, ◌==◌, if◌then◌else◌}
use remote_file_system.Paths.{Text, text, parse}
use remote_file_system.Server.Errors.{
  ApiError, not_found, not_a_directory, invalid_input, unauthorized,
}
use remote_file_system.Server.Attributes.{
  Operation, read_operation, write_operation, execute_operation, has_bit,
}
use remote_file_system.Server.Attributes.Records.{SetAttr}
use remote_file_system.Action.{Outcome, ok, err, panicked, pure, raise, reading, ◌>>=◌, ◌>>◌}
use remote_file_system.Server.Disk.{Disk}
use remote_file_system.Server.Nodes
use remote_file_system.Server.Nodes.{FsItem}
use remote_file_system.Server.Storage as FileStorage
use remote_file_system.Server.Storage.{FileSystem}
use remote_file_system.Server.Storage.Files
use remote_file_system.Server.Storage.Listing.{find}
use remote_file_system.Server.Storage.Owners
use remote_file_system.Server.Database.{Result}
use remote_file_system.Server.Database.Xattributes
use remote_file_system.Server.Database.Tokens.{AuthenticatedUser, insert_revoked_token}
use remote_file_system.Server.Database.Login.{authenticate_user}
use remote_file_system.Server.Requests
use remote_file_system.Server.Requests.{
  Request, list_request, read_request, write_request, mkdir_request, delete_request, rename_request,
  get_attributes_request, set_attributes_request, permissions_request, stats_request,
  symlink_request, read_symlink_request, set_x_attributes_request, get_x_attributes_request,
  list_x_attributes_request, delete_x_attributes_request, logout_request, Body, message, finished,
  no_content, listing, content, stats, target, token, value, names, get_mask, rename_flags_of_bits,
  serializable_all, SerializableFsItem,
}
use remote_file_system.Server.Routes.{Handler, storage, stored, query, check_permission}

-- `rsplit_once('/')`
unfoldable pub rsplit_slash : Text → Option (Text × Text)
rsplit_slash [] = none
rsplit_slash (c ∷ t) = elim (rsplit_slash t) [
  | some (p, n) ↦ some (c ∷ p, n)
  | none ↦ if c == 47 then some ([], t) else none
]

abbrev pub or_root : Text → Text
or_root [] = text "/"
or_root (c ∷ t) = c ∷ t

-- The answer of `list_path` to what `find` gives.
unfoldable pub listed : Option FsItem → Outcome ApiError Body
listed none = err (not_found (text "Path not found"))
listed (some i) = elim (Nodes.get_children i) [
  | none ↦ err (not_a_directory (text "Path isn't a directory"))
  | some children ↦ elim (serializable_all children) [ none ↦ panicked | some is ↦ ok (listing is) ]
]

module _ (disk : Disk) where
  unfoldable pub login :
      (Text → Text → Bool) → (ℕ → ℕ → Result Text) → ℕ → Text → Text → Handler disk Body
  login verify_password generate_token now username password = do
    t ← query disk (authenticate_user verify_password generate_token now username password)
    elim t [
      | some t ↦ pure (token t)
      | none ↦ raise (unauthorized (text "Invalid username or password"))
    ]

  unfoldable pub logout : AuthenticatedUser → Handler disk Body
  logout user = do query disk (insert_revoked_token user); pure (message (text "Logged out"))

  module _ (fs : FileSystem) (user : AuthenticatedUser) where
    abbrev pub check : Text → Operation → Handler disk (Unit {0})
    check = check_permission disk fs user

    unfoldable pub list_path : Text → Handler disk Body
    list_path path = do
      check path read_operation
      item ← stored disk (find disk fs (parse path))
      reading (λ s. listed item)

    unfoldable pub get_file_content : Text → ℕ → ℕ → Handler disk Body
    get_file_content path offset size = do
      check path read_operation
      bytes ← storage disk (Files.read_file disk fs (parse path) offset size)
      pure (content bytes)

    unfoldable pub write_file : Text → ℕ → List ℕ → Handler disk Body
    write_file path offset bytes = do
      check path write_operation
      storage disk (Files.write_file disk fs user.user_id user.group_id (parse path) bytes offset)
      a ← stored disk (FileStorage.get_attributes disk fs (parse path))
      pure (Requests.attributes a)

    abbrev pub make_directory_in : Text → Text → Text → Handler disk Body
    make_directory_in path parent name = do
      check parent write_operation
      storage disk (Files.make_dir disk fs user.user_id user.group_id (parse parent) name)
      a ← stored disk (FileStorage.get_attributes disk fs (parse path))
      pure (Requests.attributes a)

    abbrev pub make_directory_at : Text → Option (Text × Text) → Handler disk Body
    make_directory_at path none = raise (invalid_input (text "Invalid path"))
    make_directory_at path (some (p, name)) = make_directory_in path (or_root p) name

    unfoldable pub make_directory : Text → Handler disk Body
    make_directory path = make_directory_at path (rsplit_slash path)

    unfoldable pub delete_item : Text → Handler disk Body
    delete_item path = do
      check path write_operation
      storage disk (Files.delete disk fs (parse path))
      query disk (Xattributes.remove_all_x_attributes path)
      pure (message (text "Successful deletion!"))

    unfoldable pub get_attributes : Text → Handler disk Body
    get_attributes path = do
      a ← stored disk (FileStorage.get_attributes disk fs (parse path))
      pure (Requests.attributes a)

    unfoldable pub set_attributes : Text → SetAttr → Handler disk Body
    set_attributes path new = do
      a ← storage disk (Owners.set_attributes disk fs (parse path) user.user_id user.group_id new)
      pure (Requests.attributes a)

    -- The check for one bit of the mask.
    abbrev pub check_bit : Text → ℕ → ℕ → Operation → Handler disk (Unit {0})
    check_bit path mask n op = if has_bit mask n then check path op else pure tt

    unfoldable pub get_permissions : Text → Text → Handler disk Body
    get_permissions path mask = do
      m ← reading (λ s. get_mask mask)
      check_bit path m 4 read_operation
      check_bit path m 2 write_operation
      check_bit path m 1 execute_operation
      pure finished

    unfoldable pub get_stats : Text → Handler disk Body
    get_stats path = do
      check path read_operation
      s ← stored disk (Files.get_fs_stats disk fs (parse path))
      pure (stats s)

    unfoldable pub rename : Text → Text → ℕ → Handler disk Body
    rename old_path new_path bits = do
      let flags = rename_flags_of_bits bits
      check old_path write_operation
      check new_path write_operation
      storage disk (Files.rename disk fs (parse old_path) (parse new_path) flags)
      query disk (
          if flags.exchange
          then Xattributes.exchange_x_attributes old_path new_path
          else Xattributes.rename_x_attributes old_path new_path)
      pure (message (text "Successful renaming!"))

    unfoldable pub create_symlink : Text → Text → Handler disk Body
    create_symlink path link = do
      check path write_operation
      a ← storage disk (Files.create_symlink disk fs (parse path) link)
      pure (Requests.attributes a)

    unfoldable pub read_symlink : Text → Handler disk Body
    read_symlink path = do
      check path read_operation
      t ← stored disk (Files.read_symlink disk fs (parse path))
      pure (target t)

    unfoldable pub set_x_attributes : Text → Text → List ℕ → Handler disk Body
    set_x_attributes path name bytes = do
      check path write_operation
      query disk (Xattributes.set_x_attributes path name bytes)
      pure finished

    unfoldable pub get_x_attributes : Text → Text → Handler disk Body
    get_x_attributes path name = do
      check path read_operation
      bytes ← query disk (Xattributes.get_x_attributes path name)
      elim bytes [ some b ↦ pure (value b) | none ↦ pure no_content ]

    unfoldable pub list_x_attributes : Text → Handler disk Body
    list_x_attributes path = do
      check path read_operation
      ns ← query disk (Xattributes.list_x_attributes path)
      pure (names ns)

    unfoldable pub delete_x_attributes : Text → Text → Handler disk Body
    delete_x_attributes path name = do
      check path write_operation
      query disk (Xattributes.remove_x_attributes path name)
      pure finished

    -- The route of a request.
    unfoldable pub handle : Request → Handler disk Body
    handle (list_request path) = list_path path
    handle (read_request path offset size) = get_file_content path offset size
    handle (write_request path offset bytes) = write_file path offset bytes
    handle (mkdir_request path) = make_directory path
    handle (delete_request path) = delete_item path
    handle (rename_request old_path new_path bits) = rename old_path new_path bits
    handle (get_attributes_request path) = get_attributes path
    handle (set_attributes_request path new) = set_attributes path new
    handle (permissions_request path mask) = get_permissions path mask
    handle (stats_request path) = get_stats path
    handle (symlink_request path link) = create_symlink path link
    handle (read_symlink_request path) = read_symlink path
    handle (set_x_attributes_request path name bytes) = set_x_attributes path name bytes
    handle (get_x_attributes_request path name) = get_x_attributes path name
    handle (list_x_attributes_request path) = list_x_attributes path
    handle (delete_x_attributes_request path name) = delete_x_attributes path name
    handle logout_request = logout user
